-- ===== src/Session/Tests/Interleaved.antt =====
-- An example of interleaved sealing calls.
use quantum_go.Base.{ℕ, refl, List, [], ◌∷◌, replicate, arith}
use quantum_go.Crypto.Toy.{toy}
use quantum_go.Crypto.Aead.{seal_with_nonce}
use quantum_go.Crypto.Sealing.{Distinct}
use quantum_go.Session.{build_aead_nonce}
use quantum_go.Session.Records.{next_seq, seal_record, count_sent}
use quantum_go.Session.Rekeying.{activate_rekey_send, switch_send, finalize_rekey_state}
use quantum_go.Session.Interleaving.{
  World, Step, Reach, take_number, seal_number, seal_datagram, other, rest, after,
}
use quantum_go.Session.Nonces.{Reach-Distinct}
use quantum_go.Session.Sequence.{activates}
use quantum_go.Session.Epochs.{seal_in_epoch}
use quantum_go.Session.Tests.{datagrams, kem, sealed_seven}

-- Three calls take numbers. The second one seals first, then a rekey changes the key, and the first one
-- seals under the new key; the third one seals a datagram.
abbrev start : World (List ℕ)
start = record { session = datagrams; taken = []; count_taken = 0; sealed = [] }

abbrev one : World (List ℕ)
one = record start { session = record datagrams { send_seq = 4 }; taken = 3 ∷ []; count_taken = 1 }

abbrev two : World (List ℕ)
two = record start {
  session = record datagrams { send_seq = 5 };
  taken = 4 ∷ 3 ∷ [];
  count_taken = 2;
}

abbrev three : World (List ℕ)
three = record start {
  session = record datagrams { send_seq = 6 };
  taken = 5 ∷ 4 ∷ 3 ∷ [];
  count_taken = 3;
}

abbrev nonce_of_seq : ℕ → List ℕ
nonce_of_seq n = 1 ∷ 2 ∷ 3 ∷ 4 ∷ 0 ∷ 0 ∷ 0 ∷ 0 ∷ 0 ∷ 0 ∷ 0 ∷ n ∷ []

abbrev four : World (List ℕ)
four = record three {
  session = count_sent 9 three.session 1;
  taken = 5 ∷ 3 ∷ [];
  sealed = nonce_of_seq 4 ∷ [];
}

abbrev five : World (List ℕ)
five = record four { session = activate_rekey_send 9 four.session }

abbrev six : World (List ℕ)
six = record five {
  session = count_sent 9 five.session 1;
  taken = 5 ∷ [];
  sealed = nonce_of_seq 3 ∷ nonce_of_seq 4 ∷ [];
}

abbrev seven : World (List ℕ)
seven = record six {
  session = record six.session { last_activity_nanos = 9 };
  taken = [];
  sealed = nonce_of_seq 5 ∷ nonce_of_seq 3 ∷ nonce_of_seq 4 ∷ [];
}

step_one : Step kem toy start one
unfolding next_seq
step_one = take_number start

step_two : Step kem toy one two
unfolding next_seq
step_two = take_number one

step_three : Step kem toy two three
unfolding next_seq
step_three = take_number two

step_four : Step kem toy three four
unfolding seal_record seal_with_nonce build_aead_nonce
step_four =
    seal_number three 9 4 (5 ∷ []) (3 ∷ []) (7 ∷ []) sealed_seven (nonce_of_seq 4) refl refl refl

step_five : Step kem toy four five
step_five = other four (activate_rekey_send 9 four.session) (activates four.session 9)

step_six : Step kem toy five six
unfolding seal_record seal_with_nonce build_aead_nonce activate_rekey_send switch_send
    finalize_rekey_state count_sent
step_six = seal_number five 9 3 (5 ∷ []) [] (7 ∷ []) sealed_seven (nonce_of_seq 3) refl refl refl

step_seven : Step kem toy six seven
unfolding seal_in_epoch seal_with_nonce build_aead_nonce activate_rekey_send switch_send
    finalize_rekey_state count_sent
step_seven =
    seal_datagram six 9 5 [] [] [] (7 ∷ []) (7 ∷ replicate 16 4) (nonce_of_seq 5) refl refl refl

Reach-seven : Reach kem toy start seven
Reach-seven =
    after start six seven
      (after start five six
        (after start four five
          (after start three four
            (after start two three
              (after start one two (after start start one (rest start) step_one) step_two)
              step_three)
            step_four)
          step_five)
        step_six)
      step_seven

Reach-Distinct_example : Distinct (nonce_of_seq 5 ∷ nonce_of_seq 3 ∷ nonce_of_seq 4 ∷ [])
Reach-Distinct_example =
    Reach-Distinct kem toy datagrams seven Reach-seven (omega arith) (omega arith)
