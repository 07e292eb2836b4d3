-- ===== src/Crypto/Inputs.antt =====
-- What the key derivations of pkg/crypto/kdf.go write to the hash: it tells the domains and the
-- inputs apart.
use quantum_go.Base.{
  ℕ, ◌+◌, ◌*◌, ◌^◌, ◌<◌, ◌≡◌, refl, sym, ap, ◌∙◌, subst, List, [], ◌∷◌, ◌++◌, ◌==◌, if◌then◌else◌,
  length, take, drop, get_or, arith,
}
use quantum_go.Base.Go.{ok, bind_ok, take-append_eq, drop-append_eq}
use quantum_go.Base.Bytes.{put_uint32}
use quantum_go.Crypto.Kdf.{
  Domain, chkem, handshake, traffic, rekeying, resumption, datagram_nonce, authentication, psk,
  stream_nonce, domain_separator, safe_uint32, framed, framed_all, absorbed, absorbed_list,
  absorbed_multiple,
}

-- Two streams that start with a 4-byte integer are equal only if the integers and the rests are.
put_uint32_cancel :
    (a b : ℕ) (r s : List ℕ)
    → a < 2 ^ 32
    → b < 2 ^ 32
    → put_uint32 a ++ r ≡ put_uint32 b ++ s
    → (a ≡ b) × (r ≡ s)
put_uint32_cancel a b r s ha hb e = (
  omega (
    arith,
    ap (λ l. get_or l 0 0) e,
    ap (λ l. get_or l 1 0) e,
    ap (λ l. get_or l 2 0) e,
    ap (λ l. get_or l 3 0) e,
  ),
  ap (drop 4) e,
)

-- The same for two lists of one length.
append_cancel : (x y r s : List ℕ) → length x ≡ length y → x ++ r ≡ y ++ s → (x ≡ y) × (r ≡ s)
append_cancel x y r s h e = (
  sym (take-append_eq (length x) x r refl)
      ∙ ap (take (length x)) e
      ∙ take-append_eq (length x) y s h,
  sym (drop-append_eq (length x) x r refl)
      ∙ ap (drop (length x)) e
      ∙ drop-append_eq (length x) y s h,
)

safe_uint32_ok : (n m : ℕ) → safe_uint32 n ≡ ok m → (n < 2 ^ 32) × (m ≡ n)
unfolding safe_uint32
safe_uint32_ok n m e = ground arith

framed_ok :
    (x m : List ℕ) → framed x ≡ ok m → (length x < 2 ^ 32) × (m ≡ put_uint32 (length x) ++ x)
unfolding framed
framed_ok x m e =
    let (n, en, em) = bind_ok (safe_uint32 (length x)) (λ n. ok (put_uint32 n ++ x)) m e in
    let (lt, same) = safe_uint32_ok (length x) n en in (lt, ground (arith, same, em))

framed_cancel :
    (x y m n r s : List ℕ) → framed x ≡ ok m → framed y ≡ ok n → m ++ r ≡ n ++ s → (x ≡ y) × (r ≡ s)
framed_cancel x y m n r s ex ey e =
    let (lx, em) = framed_ok x m ex in
    let (ly, en) = framed_ok y n ey in
    let (el, rest) =
      put_uint32_cancel (length x) (length y) (x ++ r) (y ++ s) lx ly
        (sym (ap (λ t. t ++ r) em) ∙ e ∙ ap (λ t. t ++ s) en) in
    append_cancel x y r s el rest

framed_all_cancel :
    (xs ys : List (List ℕ)) (m n : List ℕ)
    → length xs ≡ length ys
    → framed_all xs ≡ ok m
    → framed_all ys ≡ ok n
    → m ≡ n
    → xs ≡ ys
unfolding framed_all
framed_all_cancel [] [] m n h ex ey e = refl
framed_all_cancel [] (y ∷ ys) m n h ex ey e = absurd (omega arith)
framed_all_cancel (x ∷ xs) [] m n h ex ey e = absurd (omega arith)
framed_all_cancel (x ∷ xs) (y ∷ ys) m n h ex ey e =
    let (fx, efx, tx) = bind_ok (framed x) _ m ex in
    let (ox, eox, lx) = bind_ok (framed_all xs) _ m tx in
    let (fy, efy, ty) = bind_ok (framed y) _ n ey in
    let (oy, eoy, ly) = bind_ok (framed_all ys) _ n ty in
    let (head, tail) = framed_cancel x y fx fy ox oy efx efy (ground (arith, lx, ly, e)) in
    cc (head, framed_all_cancel xs ys ox oy (omega arith) eox eoy tail)

-- What is hashed for a list of inputs determines them.
pub absorbed_list_cancel :
    (xs ys : List (List ℕ)) (m : List ℕ)
    → absorbed_list xs ≡ ok m
    → absorbed_list ys ≡ ok m
    → xs ≡ ys
unfolding absorbed_list
absorbed_list_cancel xs ys m ex ey =
    let (cx, ecx, tx) = bind_ok (safe_uint32 (length xs)) _ m ex in
    let (ox, eox, lx) = bind_ok (framed_all xs) _ m tx in
    let (cy, ecy, ty) = bind_ok (safe_uint32 (length ys)) _ m ey in
    let (oy, eoy, ly) = bind_ok (framed_all ys) _ m ty in
    let (bx, sx) = safe_uint32_ok (length xs) cx ecx in
    let (by, sy) = safe_uint32_ok (length ys) cy ecy in
    let (el, rest) =
      put_uint32_cancel cx cy ox oy (omega arith) (omega arith) (ground (arith, lx, ly)) in
    framed_all_cancel xs ys ox oy (omega arith) eox eoy rest

-- Two characters of a domain separator tell it.
abbrev code : List ℕ → ℕ
code s = get_or s 14 0 * 256 + get_or s 16 0

domain_of : ℕ → Domain
domain_of n =
    if n == code (domain_separator chkem)
    then chkem
    else if n == code (domain_separator handshake)
    then handshake
    else if n == code (domain_separator traffic)
    then traffic
    else if n == code (domain_separator rekeying)
    then rekeying
    else if n == code (domain_separator resumption)
    then resumption
    else if n == code (domain_separator datagram_nonce)
    then datagram_nonce
    else if n == code (domain_separator authentication)
    then authentication
    else if n == code (domain_separator psk)
    then psk
    else stream_nonce

domain_of-separator : (d : Domain) → domain_of (code (domain_separator d)) ≡ d
unfolding domain_of domain_separator
domain_of-separator chkem = refl
domain_of-separator handshake = refl
domain_of-separator traffic = refl
domain_of-separator rekeying = refl
domain_of-separator resumption = refl
domain_of-separator datagram_nonce = refl
domain_of-separator authentication = refl
domain_of-separator psk = refl
domain_of-separator stream_nonce = refl

domain_separator_cancel : (d e : Domain) → domain_separator d ≡ domain_separator e → d ≡ e
domain_separator_cancel d e h =
    sym (domain_of-separator d) ∙ ap (λ s. domain_of (code s)) h ∙ domain_of-separator e

-- What DeriveKeyMultiple hashes determines its domain and its inputs: no two calls with different
-- domains, or with different lists of inputs, hash the same bytes.
pub absorbed_multiple_cancel :
    (d e : Domain) (xs ys : List (List ℕ)) (m : List ℕ)
    → absorbed_multiple (domain_separator d) xs ≡ ok m
    → absorbed_multiple (domain_separator e) ys ≡ ok m
    → (d ≡ e) × (xs ≡ ys)
unfolding absorbed_multiple
absorbed_multiple_cancel d e xs ys m ex ey =
    let (fx, efx, tx) = bind_ok (framed (domain_separator d)) _ m ex in
    let (ox, eox, lx) = bind_ok (absorbed_list xs) _ m tx in
    let (fy, efy, ty) = bind_ok (framed (domain_separator e)) _ m ey in
    let (oy, eoy, ly) = bind_ok (absorbed_list ys) _ m ty in
    let (same, rest) =
      framed_cancel (domain_separator d) (domain_separator e) fx fy ox oy efx efy
        (ground (arith, lx, ly)) in
    (
      domain_separator_cancel d e same,
      absorbed_list_cancel xs ys ox eox (subst (λ t. absorbed_list ys ≡ ok t) (sym rest) eoy),
    )

-- What DeriveKey hashes determines its domain and its input.
pub absorbed_cancel :
    (d e : Domain) (x y m : List ℕ)
    → absorbed (domain_separator d) x ≡ ok m
    → absorbed (domain_separator e) y ≡ ok m
    → (d ≡ e) × (x ≡ y)
unfolding absorbed
absorbed_cancel d e x y m ex ey =
    let (fx, efx, tx) = bind_ok (framed (domain_separator d)) _ m ex in
    let (ox, eox, lx) = bind_ok (framed x) _ m tx in
    let (fy, efy, ty) = bind_ok (framed (domain_separator e)) _ m ey in
    let (oy, eoy, ly) = bind_ok (framed y) _ m ty in
    let (same, rest) =
      framed_cancel (domain_separator d) (domain_separator e) fx fy ox oy efx efy
        (ground (arith, lx, ly)) in
    let (inputs, ends) = framed_cancel x y ox oy [] [] eox eoy (ground (arith, rest)) in
    (domain_separator_cancel d e same, inputs)

-- A single input and a list of inputs are hashed under different domains.
pub absorbed-multiple_domains :
    (d e : Domain) (x : List ℕ) (ys : List (List ℕ)) (m : List ℕ)
    → absorbed (domain_separator d) x ≡ ok m
    → absorbed_multiple (domain_separator e) ys ≡ ok m
    → d ≡ e
unfolding absorbed absorbed_multiple
absorbed-multiple_domains d e x ys m ex ey =
    let (fx, efx, tx) = bind_ok (framed (domain_separator d)) _ m ex in
    let (ox, eox, lx) = bind_ok (framed x) _ m tx in
    let (fy, efy, ty) = bind_ok (framed (domain_separator e)) _ m ey in
    let (oy, eoy, ly) = bind_ok (absorbed_list ys) _ m ty in
    let (same, rest) =
      framed_cancel (domain_separator d) (domain_separator e) fx fy ox oy efx efy
        (ground (arith, lx, ly)) in
    domain_separator_cancel d e same
