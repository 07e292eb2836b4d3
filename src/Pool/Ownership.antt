-- ===== src/Pool/Ownership.antt =====
-- No connection of a pool is in two hands.
use quantum_go.Base.{
  ℕ, zero, suc, ◌+◌, ◌-◌, ◌≤◌, ◌≡◌, refl, sym, subst, ==_iff, ap, Bool, Bool-cases, inl, inr,
  Option, none, some, List, [], ◌∷◌, ◌++◌, ◌==◌, if◌then◌else◌, length, arith,
}
use quantum_go.Pool.{
  new_pool, Pool, remove, remove_conn, get_idle_loop, try_get_idle, acquire_slot, acquire,
  wake_waiter, create_done, hand_on, release, handle_wait_result, handle_wait_timeout, close_pool,
  keep_healthy, drop_unhealthy, evict_unhealthy, replenish, add_started,
}
use quantum_go.Pool.Steps.{
  World, new_world, Step, Reach, count, places, with_got, with_some, with_handed, acquires,
  dial_fails, dial_succeeds, releases, receives, gives_up, closes, evicts, replenishes, starts,
  rest, after,
}

pub count-middle :
    (n x : ℕ) (front back : List ℕ)
    → count n (front ++ (x ∷ back)) ≡ (if n == x then 1 else 0) + count n (front ++ back)
count-middle n x [] back = refl
count-middle n x (y ∷ front) back = omega (arith, count-middle n x front back)

count-remove : (n x : ℕ) (xs : List ℕ) → count n (remove x xs) ≤ count n xs
unfolding remove
count-remove n x [] = omega arith
count-remove n x (y ∷ ys) = ground (arith, count-remove n x ys)

pub get_idle_step :
    (fuel : ℕ) (healthy : ℕ → Bool) (p : Pool) (c : ℕ) (idle : List ℕ)
    → p.idle ≡ c ∷ idle
    → get_idle_loop (suc fuel) healthy p ≡ (
        if healthy c
        then (record p { idle = idle }, some c)
        else get_idle_loop fuel healthy (remove_conn c (record p { idle = idle })))
unfolding get_idle_loop
get_idle_step fuel healthy p c idle e = ground (arith, e)

-- What `tryGetIdleLocked` takes was idle.
pub get_idle-count :
    (fuel : ℕ) (healthy : ℕ → Bool) (p : Pool) (n : ℕ) (idle : List ℕ)
    → p.idle ≡ idle
    → count n ((get_idle_loop fuel healthy p).0).idle
        + count n (with_some ((get_idle_loop fuel healthy p).1) [])
      ≤ count n idle
unfolding get_idle_loop remove_conn
get_idle-count zero healthy p n idle e = omega (arith, ap (count n) e)
get_idle-count (suc fuel) healthy p n [] e = ground (arith, e)
get_idle-count (suc fuel) healthy p n (c ∷ idle) e = rw (get_idle_step fuel healthy p c idle e) (
    ground (
      arith,
      get_idle-count fuel healthy (remove_conn c (record p { idle = idle })) n (remove c idle) refl,
      count-remove n c idle,
    ))

with_some_out :
    (n : ℕ) (o : Option ℕ) (cs : List ℕ)
    → count n (with_some o cs) ≡ count n (with_some o []) + count n cs
with_some_out n none cs = omega arith
with_some_out n (some c) cs = omega arith

pub acquire-count :
    (healthy : ℕ → Bool) (p : Pool) (channel n : ℕ) (cs : List ℕ)
    → count n ((acquire healthy p channel).0).idle
        + count n (with_got ((acquire healthy p channel).1) cs)
      ≤ count n p.idle + count n cs
unfolding acquire acquire_slot try_get_idle
acquire-count healthy p channel n cs =
    ground (arith, get_idle-count (length p.idle) healthy p n p.idle refl)

pub wake-count : (p : Pool) (n : ℕ) → count n ((wake_waiter p).0).idle ≡ count n p.idle
unfolding wake_waiter
wake-count p n = ground arith

keep-count :
    (healthy : ℕ → Bool) (n : ℕ) (cs : List ℕ) → count n (keep_healthy healthy cs) ≤ count n cs
unfolding keep_healthy
keep-count healthy n [] = omega arith
keep-count healthy n (c ∷ cs) = ground (arith, keep-count healthy n cs)

drop-count :
    (healthy : ℕ → Bool) (n : ℕ) (cs : List ℕ) (p : Pool)
    → count n (drop_unhealthy healthy cs p).idle ≤ count n p.idle
unfolding drop_unhealthy remove_conn
drop-count healthy n [] p = omega arith
drop-count healthy n (c ∷ cs) p = ground (
  arith,
  drop-count healthy n cs (if healthy c then p else remove_conn c p),
  count-remove n c p.idle,
)

fresh_place :
    (c n : ℕ) (w : World)
    → places c w ≡ 0
    → places n w ≤ 1
    → (if n == c then 1 else 0) + places n w ≤ 1
fresh_place c n w fresh h = elim (Bool-cases (n == c)) [
  | inl same ↦
      rw same (omega (arith, subst (λ m. places m w ≡ 0) (sym ((==_iff n c).0 same)) fresh))
  | inr differ ↦ rw differ (omega (arith, h))
]

pub create_done-count :
    (p : Pool) (c n : ℕ) (cs : List ℕ)
    → count n ((create_done p (some c)).0).idle
        + count n (with_some ((create_done p (some c)).1.0) cs)
      ≤ count n p.idle + ((if n == c then 1 else 0) + count n cs)
unfolding create_done
create_done-count p c n cs = ground arith

hand_on-count :
    (p : Pool) (c n : ℕ) (cs : List ℕ)
    → count n ((hand_on p c).0).idle + count n (with_handed ((hand_on p c).1) c cs)
      ≤ count n p.idle + ((if n == c then 1 else 0) + count n cs)
unfolding hand_on
hand_on-count p c n cs = ground arith

pub release-count :
    (p : Pool) (c : ℕ) (unhealthy : Bool) (n : ℕ) (cs : List ℕ)
    → count n ((release p c unhealthy).0).idle
        + count n (with_handed ((release p c unhealthy).1.0) c cs)
      ≤ count n p.idle + ((if n == c then 1 else 0) + count n cs)
unfolding release remove_conn
release-count p c unhealthy n cs =
    ground (arith, wake-count (remove_conn c p) n, count-remove n c p.idle, hand_on-count p c n cs)

pub receive-count :
    (p : Pool) (c : ℕ) (healthy : Bool) (n : ℕ) (cs : List ℕ)
    → count n ((handle_wait_result p c healthy).0).idle
        + count n (if (handle_wait_result p c healthy).1 then c ∷ cs else cs)
      ≤ count n p.idle + ((if n == c then 1 else 0) + count n cs)
unfolding handle_wait_result remove_conn
receive-count p c healthy n cs = ground (arith, count-remove n c p.idle)

pub evict-count :
    (healthy : ℕ → Bool) (p : Pool) (n : ℕ)
    → count n (evict_unhealthy healthy p).idle ≤ count n p.idle
unfolding evict_unhealthy
evict-count healthy p n = ground (
  arith,
  drop-count healthy n p.idle (record p { idle = keep_healthy healthy p.idle }),
  keep-count healthy n p.idle,
)

-- No step brings a connection to a second place.
step-places : (w v : World) (n : ℕ) → Step w v → places n w ≤ 1 → places n v ≤ 1
unfolding create_done handle_wait_timeout close_pool replenish add_started
step-places _ _ n (acquires w healthy channel) h =
    omega (arith, acquire-count healthy w.pool channel n w.held)
step-places _ _ n (dial_fails w flight) h =
    omega (arith, wake-count (record w.pool { pending = w.pool.pending - 1 }) n)
step-places _ _ n (dial_succeeds w c flight fresh) h =
    omega (arith, create_done-count w.pool c n w.held, fresh_place c n w fresh h)
step-places _ _ n (releases w c unhealthy front back split) h = omega (
  arith,
  release-count w.pool c unhealthy n w.sent,
  ap (count n) split,
  count-middle n c front back,
)
step-places _ _ n (receives w c healthy front back split) h = omega (
  arith,
  receive-count w.pool c healthy n w.held,
  ap (count n) split,
  count-middle n c front back,
)
step-places _ _ n (gives_up w channel) h = h
step-places _ _ n (closes w) h = ground arith
step-places _ _ n (evicts w healthy) h = omega (arith, evict-count healthy w.pool n)
step-places _ _ n (replenishes w c fresh) h = ground (arith, fresh_place c n w fresh h)
step-places _ _ n (starts w c fresh) h = omega (arith, fresh_place c n w fresh h)

path-places : (w v : World) (n : ℕ) → Reach w v → places n w ≤ 1 → places n v ≤ 1
path-places _ _ n (rest w) h = h
path-places _ _ n (after w v u path step) h = step-places v u n step (path-places w v n path h)

-- Whatever callers, waiters and the health check do, in whatever order, from a new pool on, a
-- connection is in one place at most: idle, with one caller, or on the way to one waiter.
pub Reach-places :
    (min_conns max_conns : ℕ) (can_wait : Bool) (w : World) (c : ℕ)
    → Reach (new_world min_conns max_conns can_wait) w
    → count c w.pool.idle + (count c w.held + count c w.sent) ≤ 1
unfolding new_pool
Reach-places min_conns max_conns can_wait w c path = path-places _ w c path (omega arith)
