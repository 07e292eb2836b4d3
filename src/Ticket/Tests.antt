-- ===== src/Ticket/Tests.antt =====
-- Examples of tickets.
use quantum_go.Base.{ℕ, ◌≡◌, refl, none, List, [], ◌∷◌, ◌++◌, take, replicate, arith}
use quantum_go.Base.Ints.{pos}
use quantum_go.Base.Go.{ok, err, authentication_failed}
use quantum_go.Crypto.Toy.{toy, toy-IsLawful}
use quantum_go.Crypto.Aead.{new_aead, open_sealed, authenticated, seal, next_nonce, nonce_of}
use quantum_go.Ticket.{
  SessionTicket, TicketManager, encrypt_ticket, decrypt_with_key, decrypt_ticket, ticket_bytes, age,
}
use quantum_go.Ticket.Laws.{IsTicket, verdict, decrypt-encrypt_ticket, encrypt_ticket-nonce}

abbrev ticket : SessionTicket
ticket = record {
  version = 1;
  cipher_suite = 1;
  master_secret = replicate 32 7;
  created_at = pos 5_500_000_000;
}

abbrev manager : TicketManager
manager = record {
  current_key = replicate 32 1;
  previous_key = none;
  lifetime = pos 60_000_000_000;
}

ticket-IsTicket : IsTicket ticket 5_500_000_000
ticket-IsTicket = record {
  version_fits = omega arith;
  suite_fits = omega arith;
  secret_fits = refl;
  created_at_is = refl;
  created_fits = omega arith;
}

abbrev cut_ticket : SessionTicket
cut_ticket = record ticket { created_at = pos 5_000_000_000 }

verdict_alive : verdict toy (pos 60_000_000_000) ticket 5_500_000_000 20_000_000_000 ≡ ok cut_ticket
unfolding verdict age
verdict_alive = refl

decrypt-encrypt_ticket_example :
    (c : List ℕ) × (encrypt_ticket toy manager ticket ≡ ok c)
    × (decrypt_ticket toy manager 20_000_000_000 c
        ≡ verdict toy (pos 60_000_000_000) ticket 5_500_000_000 20_000_000_000)
decrypt-encrypt_ticket_example =
    decrypt-encrypt_ticket toy toy-IsLawful manager ticket 5_500_000_000 20_000_000_000
      ticket-IsTicket refl

abbrev sealed : List ℕ
sealed =
    replicate 12 0
    ++ ((1 ∷ 0 ∷ 1 ∷ []) ++ (replicate 32 7 ++ (replicate 7 0 ++ (5 ∷ replicate 16 1))))

sealed_ticket : encrypt_ticket toy manager ticket ≡ ok sealed
unfolding encrypt_ticket new_aead seal next_nonce nonce_of ticket_bytes
sealed_ticket = refl

other_key_fails :
    (decrypt_with_key toy sealed (replicate 32 2) ≡ err authentication_failed)
    × (decrypt_with_key toy sealed (replicate 32 3) ≡ err authentication_failed)
unfolding decrypt_with_key new_aead open_sealed authenticated
other_key_fails = (refl, refl)

encrypt_ticket-nonce_example : take 12 sealed ≡ replicate 12 0
encrypt_ticket-nonce_example = encrypt_ticket-nonce toy manager ticket sealed sealed_ticket
