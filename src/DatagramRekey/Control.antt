-- ===== src/DatagramRekey/Control.antt =====
-- A sealed control message of the datagram rekey, from both ends.
use quantum_go.Base.{ℕ, ◌^◌, ◌<◌, ◌≡◌, some, List, ◌++◌, length-append, arith}
use quantum_go.Base.Go.{ok}
use quantum_go.Base.Bytes.{put_uint64}
use quantum_go.Base.Cursor.{At-start, uint64_read}
use quantum_go.Crypto.{Primitives, IsLawful}
use quantum_go.Crypto.Aead.{Aead}
use quantum_go.Crypto.Sealing.{open-seal_with_nonce}
use quantum_go.Session.{Session, EpochState, build_aead_nonce}
use quantum_go.Session.Delivery.{build_aead_nonce-length}
use quantum_go.Session.Records.{next_seq}
use quantum_go.Session.Epochs.{datagram_recv_cipher}
use quantum_go.DatagramRekey.{
  rekey_aad, control_body, open_control, seal_rekey_control, open_rekey_control,
}

-- The receiver `b` reads what the sender `a` seals in its current epoch.
pub record Reads {K : Type 0} (now : ℕ) (a b : Session K) (es : EpochState) (y : Aead)
    : Type 0 where
  pub has_epochs : a.dgram_epochs ≡ some es
  pub receives : datagram_recv_cipher now b.dgram_epochs es.cur.epoch ≡ some y
  pub same_suite : y.suite ≡ es.cur.send_cipher.suite
  pub same_key : y.key ≡ es.cur.send_cipher.key
  pub same_prefix : b.recv_nonce_prefix ≡ a.send_nonce_prefix
  pub seq_fits : a.send_seq < 2 ^ 64

module _ (p : Primitives) (laws : IsLawful p) where
  pub control_opens :
      {K : Type 0} (now : ℕ) (a b : Session K) (es : EpochState) (y : Aead) (msg_type : ℕ)
      (payload : List ℕ)
      → Reads now a b es y
      → (body : List ℕ) × (seal_rekey_control p a msg_type payload
          ≡ ((next_seq a).0, ok (body, es.cur.epoch)))
        × (open_rekey_control p now b msg_type es.cur.epoch body ≡ ok payload)
  unfolding seal_rekey_control control_body open_rekey_control open_control next_seq
  control_opens now a b es y msg_type payload r =
      let nonce = build_aead_nonce a.send_nonce_prefix a.send_seq in
      let (c, sealed, opened) =
        open-seal_with_nonce p laws es.cur.send_cipher y nonce payload
          (rekey_aad msg_type es.cur.epoch a.send_seq) r.same_suite r.same_key
          (build_aead_nonce-length a.send_nonce_prefix a.send_seq) in
      let body = put_uint64 a.send_seq ++ c in
      (
        body,
        ground (arith, r.has_epochs, sealed),
        ground (
          arith,
          length-append (put_uint64 a.send_seq) c,
          uint64_read a.send_seq r.seq_fits (At-start body),
          r.receives,
          r.same_prefix,
          opened,
        ),
      )

-- The end that has sent still reads what it read, and has all but its counter.
pub next_seq-Reads :
    {K : Type 0} (now : ℕ) (a b : Session K) (es : EpochState) (y : Aead)
    → Reads now a b es y
    → Reads now a (next_seq b).0 es y
unfolding next_seq
next_seq-Reads now a b es y r = record {
  has_epochs = r.has_epochs;
  receives = r.receives;
  same_suite = r.same_suite;
  same_key = r.same_key;
  same_prefix = r.same_prefix;
  seq_fits = r.seq_fits;
}
