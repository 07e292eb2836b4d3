-- ===== src/DatagramRekey/Tests.antt =====
-- Examples of datagram rekeys, over the toy primitives. Their KEM has key pairs that are lists of bytes.
use quantum_go.Base.{true, ℕ, ◌^◌, ◌≡◌, refl, none, some, List, [], ◌∷◌, replicate, arith, false}
use quantum_go.Base.Go.{ok, uint64_at, uint32_at, uint16_at, index, slice}
use quantum_go.Crypto.Toy.{toy, toy-IsLawful}
use quantum_go.Crypto.Aead.{Aead, seal_with_nonce, open_with_nonce, authenticated, new_aead}
use quantum_go.Crypto.Kdf.{
  derive_rekey_secret, absorbed, absorbed_list, absorbed_multiple, derive_halves, derive_key,
  derive_key_multiple, derive_traffic_keys, domain_separator, framed, framed_all, safe_uint32,
}
use quantum_go.Handshake.{initiator, responder}
use quantum_go.Session.{Session, EpochState, new_session, established, build_aead_nonce, directed}
use quantum_go.Session.Records.{next_seq}
use quantum_go.Session.Rekeying.{Kem, derive_ciphers}
use quantum_go.Session.Epochs.{
  datagram_recv_cipher, datagram_send_epoch, adopt_epoch, advance_datagram_epoch,
  recv_cipher_of_prev, rotate,
}
use quantum_go.Datagram.{encode_extension, encode_handshake, encode_header}
use quantum_go.Fragment.{fragment_handshake, fragment_loop, pad_frame}
use quantum_go.DatagramRekey.{
  Connection, build_datagram_rekey_init, respond_to_datagram_rekey, complete_datagram_rekey,
  handle_rekey_init, seal_rekey_control, open_rekey_control, fragment_rekey, is_answered,
  is_current, answer_fresh, cache_answer, encapsulated_to, open_control, adopt_secret,
  answered_frames, control_body,
}
use quantum_go.DatagramRekey.Control.{Reads}
use quantum_go.DatagramRekey.Agreement.{AreInStep, datagram_rekey_agrees}
use quantum_go.DatagramRekey.Repeats.{Request, handle_all, expected, handle_rekey_init_replays}

abbrev kem : Kem (List ℕ) (List ℕ) (List ℕ)
kem = record {
  public_key_bytes = λ k. k;
  parse_public_key = ok;
  encapsulate = λ pk coins. ok (coins, coins);
  ciphertext_bytes = λ c. c;
  parse_ciphertext = ok;
  decapsulate = λ c k. ok c;
}

abbrev key_of : ℕ → Aead
key_of n = record { suite = 1; key = replicate 32 n; counter = 0; max_seq = 2 ^ 28 }

-- The current epoch at an end that sends under one key and receives under the other.
abbrev epochs_of : ℕ → ℕ → EpochState
epochs_of m n = record {
  cur = record {
    epoch = 255;
    send_cipher = key_of m;
    recv_cipher = key_of n;
    start_seq = 2;
    started_at = 0;
    retire_after = 0;
  };
  prev = none;
}

abbrev asking : Session (List ℕ)
asking = record (new_session 0 initiator []) {
  state = established;
  cipher_suite = 1;
  master_secret = some (replicate 32 8);
  send_seq = 7;
  send_nonce_prefix = 1 ∷ 2 ∷ 3 ∷ 4 ∷ [];
  recv_nonce_prefix = 5 ∷ 6 ∷ 7 ∷ 8 ∷ [];
  dgram_epochs = some (epochs_of 4 6);
}

abbrev answering : Session (List ℕ)
answering = record (new_session 0 responder []) {
  state = established;
  cipher_suite = 1;
  master_secret = some (replicate 32 8);
  send_seq = 9;
  send_nonce_prefix = 5 ∷ 6 ∷ 7 ∷ 8 ∷ [];
  recv_nonce_prefix = 1 ∷ 2 ∷ 3 ∷ 4 ∷ [];
  dgram_epochs = some (epochs_of 6 4);
}

received : (m n : ℕ) → datagram_recv_cipher 10 (some (epochs_of m n)) 255 ≡ some (key_of n)
unfolding datagram_recv_cipher
received m n = refl

there : Reads 10 asking answering (epochs_of 4 6) (key_of 4)
there = record {
  has_epochs = refl;
  receives = received 6 4;
  same_suite = refl;
  same_key = refl;
  same_prefix = refl;
  seq_fits = omega arith;
}

back : Reads 10 answering asking (epochs_of 6 4) (key_of 6)
back = record {
  has_epochs = refl;
  receives = received 4 6;
  same_suite = refl;
  same_key = refl;
  same_prefix = refl;
  seq_fits = omega arith;
}

datagram_rekey_agrees_example :
    (a1 : Session (List ℕ)) × (a2 : Session (List ℕ)) × (b2 : Session (List ℕ)) × (body : List ℕ)
    × (answer : List ℕ) × (build_datagram_rekey_init toy kem asking (3 ∷ []) ≡ (a1, ok (body, 255)))
    × (respond_to_datagram_rekey toy kem 10 answering 255 body (9 ∷ []) ≡ (b2, ok (answer, 255)))
    × (complete_datagram_rekey toy kem 10 a1 255 answer (3 ∷ []) ≡ (a2, ok tt))
    × AreInStep (epochs_of 4 6) a2 b2
unfolding new_session
datagram_rekey_agrees_example =
    datagram_rekey_agrees toy toy-IsLawful kem 10 asking answering (epochs_of 4 6) (epochs_of 6 4)
      (key_of 6) (key_of 4) (3 ∷ []) (3 ∷ []) (9 ∷ []) (9 ∷ []) (replicate 32 8) (9 ∷ [])
      (λ k key coins c secret parsed made. (c, refl, ground (arith, made))) there back refl refl
      refl (record { supported = refl; approved = refl }) refl refl refl refl refl refl
      (omega arith)

abbrev served : Connection (List ℕ)
served = record { index = 2; peer_index = 1; session = answering; answer = none }

abbrev request : List ℕ
request = 0 ∷ 0 ∷ 0 ∷ 0 ∷ 0 ∷ 0 ∷ 0 ∷ 7 ∷ 3 ∷ replicate 16 4

abbrev first_answer : Connection (List ℕ) × List (List ℕ)
first_answer = handle_rekey_init toy kem 10 false served 255 request (9 ∷ [])

front : List (List ℕ) → List ℕ
front [] = []
front (f ∷ fs) = f

rest : List (List ℕ) → List (List ℕ)
rest [] = []
rest (f ∷ fs) = fs

answers : first_answer ≡ (first_answer.0, front (first_answer.1) ∷ rest (first_answer.1))
unfolding handle_rekey_init is_answered is_current datagram_send_epoch answer_fresh cache_answer
    respond_to_datagram_rekey encapsulated_to open_rekey_control uint64_at uint32_at uint16_at index
    open_control datagram_recv_cipher open_with_nonce build_aead_nonce slice authenticated new_aead
    seal_with_nonce absorbed absorbed_list absorbed_multiple derive_halves derive_key
    derive_key_multiple derive_rekey_secret derive_traffic_keys domain_separator framed framed_all
    safe_uint32 encode_extension encode_handshake encode_header adopt_secret answered_frames
    control_body fragment_rekey seal_rekey_control fragment_handshake fragment_loop pad_frame
    adopt_epoch advance_datagram_epoch recv_cipher_of_prev rotate next_seq derive_ciphers directed
    front rest new_session
answers = refl

unanswered : is_answered served.answer 255 ≡ false
unfolding is_answered
unanswered = refl

-- The request again with another body, one of an older epoch, and the request once more.
abbrev later : List Request
later =
    record { now = 90; pad = false; epoch = 255; body = []; coins = 1 ∷ [] }
    ∷ record { now = 95; pad = true; epoch = 254; body = request; coins = [] }
    ∷ record { now = 99; pad = true; epoch = 255; body = request; coins = [] }
    ∷ []

handle_rekey_init_replays_example :
    handle_all toy kem (first_answer.0) later
    ≡ (first_answer.0, expected 255 (front (first_answer.1) ∷ rest (first_answer.1)) later)
handle_rekey_init_replays_example =
    handle_rekey_init_replays toy kem 10 false served (first_answer.0) 255 request (9 ∷ [])
      (front (first_answer.1)) (rest (first_answer.1)) later unanswered answers refl
