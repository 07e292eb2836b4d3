-- ===== src/DatagramRekey/Advances.antt =====
-- The responder's epoch after an answer.
use quantum_go.Base.{ℕ, ◌+◌, ◌%◌, Option-cases, inl, inr, ◌≡◌, List, arith}
use quantum_go.Base.Go.{ok}
use quantum_go.Crypto.{Primitives}
use quantum_go.Session.{Session}
use quantum_go.Session.Records.{next_seq}
use quantum_go.Session.Rekeying.{Kem}
use quantum_go.Session.Epochs.{datagram_send_epoch, rotate, adopt_epoch, advance_datagram_epoch}
use quantum_go.DatagramRekey.{
  respond_to_datagram_rekey, adopt_secret, seal_rekey_control, type_rekey_response,
}
use quantum_go.DatagramRekey.Outcomes.{OnOk, OnOk-of, commit-OnOk, follow-OnOk}

-- The epoch that the session sends in.
abbrev pub SendsIn : {K : Type 0} → ℕ → Session K → Type 0
SendsIn epoch s = datagram_send_epoch s.dgram_epochs ≡ ok epoch

module _ (p : Primitives) {K P C : Type 0} (kem : Kem K P C) where
  advance_next :
      (now : ℕ) (s : Session K) (m : List ℕ) (epoch n : ℕ)
      → datagram_send_epoch s.dgram_epochs ≡ ok epoch
      → (advance_datagram_epoch p now s m).1 ≡ ok n
      → datagram_send_epoch ((advance_datagram_epoch p now s m).0).dgram_epochs
        ≡ ok ((epoch + 1) % 256)
  unfolding advance_datagram_epoch adopt_epoch rotate datagram_send_epoch
  advance_next now s m epoch n at h = elim (Option-cases s.dgram_epochs) [
    | inl e ↦ absurd (ground (arith, e, at))
    | inr (es, e) ↦ ground (arith, e, at, h)
  ]

  seal_keeps :
      (s : Session K) (payload : List ℕ) (e : ℕ)
      → datagram_send_epoch s.dgram_epochs ≡ ok e
      → datagram_send_epoch ((seal_rekey_control p s type_rekey_response payload).0).dgram_epochs
        ≡ ok e
  unfolding seal_rekey_control next_seq
  seal_keeps s payload e at = at

  adopt-SendsIn :
      (now : ℕ) (s : Session K) (fresh : List ℕ) (epoch : ℕ)
      → SendsIn epoch s
      → OnOk (SendsIn ((epoch + 1) % 256)) (adopt_secret p now s fresh)
  unfolding adopt_secret
  adopt-SendsIn now s fresh epoch at =
      commit-OnOk (SendsIn ((epoch + 1) % 256)) s _ _ (λ (secret : List ℕ).
        follow-OnOk (SendsIn ((epoch + 1) % 256)) (SendsIn ((epoch + 1) % 256))
          (advance_datagram_epoch p now s secret) _
          (OnOk-of (SendsIn ((epoch + 1) % 256)) (advance_datagram_epoch p now s secret)
            (λ n h. advance_next now s secret epoch n at h))
          (λ t n h. h))

  pub respond-SendsIn :
      (now : ℕ) (s : Session K) (epoch : ℕ) (body coins : List ℕ) (e : ℕ)
      → SendsIn e s
      → OnOk (SendsIn ((e + 1) % 256)) (respond_to_datagram_rekey p kem now s epoch body coins)
  unfolding respond_to_datagram_rekey
  respond-SendsIn now s epoch body coins e at =
      commit-OnOk (SendsIn ((e + 1) % 256)) s _ _ (λ (made : C × List ℕ).
        follow-OnOk (SendsIn e) (SendsIn ((e + 1) % 256))
          (seal_rekey_control p s type_rekey_response (kem.ciphertext_bytes made.0)) _
          (OnOk-of (SendsIn e)
            (seal_rekey_control p s type_rekey_response (kem.ciphertext_bytes made.0))
            (λ sealed h. seal_keeps s (kem.ciphertext_bytes made.0) e at))
          (λ t sealed q.
            follow-OnOk (SendsIn ((e + 1) % 256)) (SendsIn ((e + 1) % 256))
              (adopt_secret p now t made.1) _ (adopt-SendsIn now t made.1 e q) (λ u done h. h)))
