-- ===== src/DatagramRekey/Outcomes.antt =====
-- What holds after a method that succeeds.
use quantum_go.Base.{refl, ◌≡◌, arith}
use quantum_go.Base.Go.{Result, ok, err, panic, ◌>>=◌, commit, follow}

pub bound_ok :
    {X Y : Type 0} (r : Result X) (next : X → Result Y) (y : Y)
    → (r >>= next) ≡ ok y
    → (x : X) × (r ≡ ok x)
bound_ok panic next y h = absurd (ground (arith, h))
bound_ok (err e) next y h = absurd (ground (arith, h))
bound_ok (ok x) next y h = (x, refl)

-- Where a method succeeds, its receiver has a property after it.
abbrev pub OnOk : {S Y : Type 0} → (S → Type 0) → S × Result Y → Type 0
OnOk P (s, panic) = Unit
OnOk P (s, err e) = Unit
OnOk P (s, ok y) = P s

pub OnOk-of :
    {S Y : Type 0} (P : S → Type 0) (r : S × Result Y) → ((y : Y) → r.1 ≡ ok y → P r.0) → OnOk P r
OnOk-of P (s, panic) h = tt
OnOk-of P (s, err e) h = tt
OnOk-of P (s, ok y) h = h y refl

pub OnOk-at :
    {S Y : Type 0} (P : S → Type 0) (r : S × Result Y) (y : Y) → r.1 ≡ ok y → OnOk P r → P r.0
OnOk-at P (s, panic) y e h = absurd (ground (arith, e))
OnOk-at P (s, err d) y e h = absurd (ground (arith, e))
OnOk-at P (s, ok x) y e h = h

pub commit-OnOk :
    {S X Y : Type 0} (P : S → Type 0) (s : S) (r : Result X) (next : X → S × Result Y)
    → ((x : X) → OnOk P (next x))
    → OnOk P (commit s r next)
commit-OnOk P s panic next h = tt
commit-OnOk P s (err e) next h = tt
commit-OnOk P s (ok x) next h = h x

pub follow-OnOk :
    {S X Y : Type 0} (Q P : S → Type 0) (r : S × Result X) (next : S → X → S × Result Y)
    → OnOk Q r
    → ((s : S) (x : X) → Q s → OnOk P (next s x))
    → OnOk P (follow r next)
follow-OnOk Q P (s, panic) next q h = tt
follow-OnOk Q P (s, err e) next q h = tt
follow-OnOk Q P (s, ok x) next q h = h s x q
