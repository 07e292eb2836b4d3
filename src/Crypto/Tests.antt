-- ===== src/Crypto/Tests.antt =====
-- Examples of the key derivations and the ciphers.
use quantum_go.Base.{ℕ, ◌+◌, ◌≡◌, refl, List, [], ◌∷◌, ◌++◌, length, replicate, arith}
use quantum_go.Base.Go.{ok}
use quantum_go.Crypto.Toy.{toy, toy-IsLawful}
use quantum_go.Crypto.Kdf.{
  rekeying, traffic, domain_separator, safe_uint32, framed, framed_all, absorbed_list,
  absorbed_multiple, derive_halves,
}
use quantum_go.Crypto.Inputs.{absorbed_multiple_cancel}
use quantum_go.Crypto.Derivation.{derive_halves-length}
use quantum_go.Crypto.Aead.{Aead, seal, open_sealed}
use quantum_go.Crypto.Sealing.{open-seal}

abbrev two_inputs : List (List ℕ)
two_inputs = (1 ∷ 2 ∷ []) ∷ (3 ∷ []) ∷ []

abbrev stream : List ℕ
stream =
    (0 ∷ 0 ∷ 0 ∷ 19 ∷ 67 ∷ 72 ∷ 45 ∷ 75 ∷ 69 ∷ 77 ∷ 45 ∷ 84 ∷ 117 ∷ 110 ∷ 110 ∷ 101 ∷ 108 ∷ 45 ∷ 82
      ∷ 101 ∷ 107 ∷ 101 ∷ 121 ∷ [])
    ++ (0 ∷ 0 ∷ 0 ∷ 2 ∷ 0 ∷ 0 ∷ 0 ∷ 2 ∷ 1 ∷ 2 ∷ 0 ∷ 0 ∷ 0 ∷ 1 ∷ 3 ∷ [])

absorbed_rekeying : absorbed_multiple (domain_separator rekeying) two_inputs ≡ ok stream
unfolding absorbed_multiple absorbed_list framed_all framed safe_uint32 domain_separator
absorbed_rekeying = refl

absorbed_multiple_cancel_example : (rekeying ≡ rekeying) × (two_inputs ≡ two_inputs)
absorbed_multiple_cancel_example =
    absorbed_multiple_cancel rekeying rekeying two_inputs two_inputs stream absorbed_rekeying
      absorbed_rekeying

derive_halves-length_example :
    (first : List ℕ) × (second : List ℕ) × (derive_halves toy traffic 32 (replicate 32 5)
      ≡ ok (first, second))
    × (length first ≡ 32)
    × (length second ≡ 32)
derive_halves-length_example =
    derive_halves-length toy toy-IsLawful traffic 32 (replicate 32 5) (omega arith) (omega arith)
      refl

abbrev cipher : Aead
cipher = record { suite = 1; key = replicate 32 9; counter = 5; max_seq = 7 }

open-seal_example :
    (c : List ℕ) × (seal toy cipher (1 ∷ 2 ∷ []) (3 ∷ []) ≡ (record cipher { counter = 6 }, ok c))
    × (length c ≡ 2 + 28)
    × (open_sealed toy cipher c (3 ∷ []) ≡ ok (1 ∷ 2 ∷ []))
open-seal_example =
    open-seal toy toy-IsLawful cipher cipher (1 ∷ 2 ∷ []) (3 ∷ []) refl refl (omega arith)

abbrev messages : List (List ℕ × List ℕ)
messages = (1 ∷ [], []) ∷ (1 ∷ [], []) ∷ (2 ∷ [], []) ∷ []
