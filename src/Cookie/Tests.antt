-- ===== src/Cookie/Tests.antt =====
-- A cookie under a concrete MAC.
use quantum_go.Base.{ℕ, ◌≡◌, false, List, [], ◌∷◌, length, replicate, length-replicate, arith}
use quantum_go.Base.Go.{ok}
use quantum_go.Cookie.{issue, verify}
use quantum_go.Cookie.Laws.{verify-issue}

-- A MAC that repeats the first byte of the address.
abbrev test_mac : List ℕ → List ℕ → List ℕ
test_mac [] stamp = replicate 32 0
test_mac (x ∷ addr) stamp = replicate 32 x

test_mac_size : (addr stamp : List ℕ) → length (test_mac addr stamp) ≡ 32
test_mac_size [] stamp = length-replicate {A = ℕ} 32 0
test_mac_size (x ∷ addr) stamp = length-replicate 32 x

verify-issue_example :
    verify test_mac 11_000_000_001 (7 ∷ 7 ∷ []) (issue test_mac 1_000_000_000 (7 ∷ 7 ∷ []))
    ≡ ok false
verify-issue_example =
    verify-issue test_mac 1_000_000_000 11_000_000_001 (7 ∷ 7 ∷ []) test_mac_size (omega arith)
      (omega arith)
