-- ===== src/Session/Tickets.antt =====
-- pkg/tunnel/session.go, `ExportTicket` and `Resume`: a session's ticket and what a responder takes
-- from it.
use quantum_go.Base.{
  ℕ, ◌/◌, ◌^◌, ◌<◌, ◌≡◌, refl, false, not, none, some, List, if◌then◌else◌, length, arith,
}
use quantum_go.Base.Ints.{pos, is_above}
use quantum_go.Base.Go.{Result, ok, err, commit, invalid_state}
use quantum_go.Crypto.{Primitives, IsLawful}
use quantum_go.Session.{Session, established, is_established}
use quantum_go.Session.Agreement.{IsUsable}
use quantum_go.Ticket.{SessionTicket, TicketManager, age, encrypt_ticket, decrypt_ticket}
use quantum_go.Ticket.Laws.{IsTicket, verdict, decrypt-encrypt_ticket}

module _ (p : Primitives) {K : Type 0} where
  -- `ExportTicket`
  unfoldable pub export_ticket : Session K → TicketManager → Result (List ℕ)
  export_ticket s tm =
      if not (is_established s.state) then err invalid_state else elim s.master_secret [
        | none ↦ err invalid_state
        | some secret ↦ encrypt_ticket p tm (record {
          version = 1;
          cipher_suite = s.cipher_suite;
          master_secret = secret;
          created_at = pos s.established_at;
        })
      ]

  -- `Resume`
  unfoldable pub resume : ℕ → Session K → List ℕ → TicketManager → Session K × Result (List ℕ)
  resume now s sealed tm =
      commit s (decrypt_ticket p tm now sealed)
        (λ ticket. (record s { cipher_suite = ticket.cipher_suite }, ok ticket.master_secret))

  -- An established session with a master secret of 32 bytes exports a ticket, from which a responder that
  -- has the ticket key takes over the secret and the cipher suite, while the ticket is not expired. The
  -- cipher suite is usable in this build, and the times fit an int64.
  pub resume-export_ticket :
      (now : ℕ) (s r : Session K) (tm : TicketManager) (secret : List ℕ)
      → IsLawful p
      → s.state ≡ established
      → s.master_secret ≡ some secret
      → length secret ≡ 32
      → IsUsable p s.cipher_suite
      → s.cipher_suite < 2 ^ 16
      → s.established_at / 1_000_000_000 < 2 ^ 63
      → length tm.current_key ≡ 32
      → is_above (age now (s.established_at / 1_000_000_000)) tm.lifetime ≡ false
      → (sealed : List ℕ) × (export_ticket s tm ≡ ok sealed)
        × (resume now r sealed tm ≡ (record r { cipher_suite = s.cipher_suite }, ok secret))
  unfolding export_ticket resume verdict
  resume-export_ticket now s r tm secret laws st ms hs usable fits ht hk alive =
      let ticket : SessionTicket = record {
        version = 1;
        cipher_suite = s.cipher_suite;
        master_secret = secret;
        created_at = pos s.established_at;
      } in
      let valid : IsTicket ticket s.established_at = record {
        version_fits = omega arith;
        suite_fits = fits;
        secret_fits = hs;
        created_at_is = refl;
        created_fits = ht;
      } in
      let (c, sealed, opened) =
        decrypt-encrypt_ticket p laws tm ticket s.established_at now valid hk in
      (c, rw (st, ms) sealed, rw (opened, alive, usable.approved))
