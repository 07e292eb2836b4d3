-- ===== src/Pool/Capacity.antt =====
-- The pool's limit, where it holds and where it does not.
use quantum_go.Base.{
  ℕ, zero, suc, ◌+◌, ◌≤◌, ◌<◌, ◌≡◌, ◌∙◌, refl, ap, Bool, true, false, Option, none, some, List, [],
  ◌∷◌, if◌then◌else◌, length, length-append, arith,
}
use quantum_go.Pool.{
  new_pool, Pool, remove, remove_conn, get_idle_loop, try_get_idle, acquire_slot, acquire,
  wake_waiter, create_done, hand_on, release, handle_wait_result, handle_wait_timeout, close_pool,
  keep_healthy, drop_unhealthy, evict_unhealthy, replenish, add_started,
}
use quantum_go.Pool.Ownership.{get_idle_step}
use quantum_go.Pool.Steps.{
  World, Step, Reach, new_world, with_dial, adds_unasked, keeps_limit, rest, after, acquires,
  dial_fails, dial_succeeds, releases, receives, gives_up, closes, evicts, replenishes, starts,
}

-- Connections and dials within the limit.
abbrev IsWithin : Pool → Type 0
IsWithin p = length p.conns + p.pending ≤ p.max_conns

length-remove : (x : ℕ) (xs : List ℕ) → length (remove x xs) ≤ length xs
unfolding remove
length-remove x [] = omega arith
length-remove x (y ∷ ys) = ground (arith, length-remove x ys)

get_idle_keeps :
    (fuel : ℕ) (healthy : ℕ → Bool) (p : Pool) (idle : List ℕ)
    → p.idle ≡ idle
    → (length ((get_idle_loop fuel healthy p).0).conns ≤ length p.conns)
      × (((get_idle_loop fuel healthy p).0).pending ≡ p.pending)
      × (((get_idle_loop fuel healthy p).0).max_conns ≡ p.max_conns)
unfolding get_idle_loop remove_conn
get_idle_keeps zero healthy p idle e = (omega arith, refl, refl)
get_idle_keeps (suc fuel) healthy p [] e = (ground (arith, e), ground (arith, e), ground (arith, e))
get_idle_keeps (suc fuel) healthy p (c ∷ idle) e =
    let (fewer, same, limit) =
      get_idle_keeps fuel healthy (remove_conn c (record p { idle = idle })) (remove c idle) refl in
    rw (get_idle_step fuel healthy p c idle e)
      (ground (arith, fewer, length-remove c p.conns), ground (arith, same), ground (arith, limit))

acquire-IsWithin :
    (healthy : ℕ → Bool) (p : Pool) (channel : ℕ)
    → 0 < p.max_conns
    → IsWithin p
    → IsWithin ((acquire healthy p channel).0)
unfolding acquire acquire_slot try_get_idle
acquire-IsWithin healthy p channel pos h =
    let (fewer, same, limit) = get_idle_keeps (length p.idle) healthy p p.idle refl in
    ground (arith, fewer, same, limit)

create_done-IsWithin :
    (p : Pool) (dialed : Option ℕ)
    → 0 < p.pending
    → IsWithin p
    → IsWithin ((create_done p dialed).0)
unfolding create_done wake_waiter
create_done-IsWithin p none flight h = ground arith
create_done-IsWithin p (some c) flight h = ground (arith, length-append p.conns (c ∷ []))

release-IsWithin :
    (p : Pool) (c : ℕ) (unhealthy : Bool) → IsWithin p → IsWithin ((release p c unhealthy).0)
unfolding release remove_conn wake_waiter hand_on
release-IsWithin p c unhealthy h = ground (arith, length-remove c p.conns)

receive-IsWithin :
    (p : Pool) (c : ℕ) (healthy : Bool) → IsWithin p → IsWithin ((handle_wait_result p c healthy).0)
unfolding handle_wait_result remove_conn
receive-IsWithin p c healthy h = ground (arith, length-remove c p.conns)

drop-IsWithin :
    (healthy : ℕ → Bool) (cs : List ℕ) (p : Pool)
    → IsWithin p
    → IsWithin (drop_unhealthy healthy cs p)
unfolding drop_unhealthy remove_conn
drop-IsWithin healthy [] p h = h
drop-IsWithin healthy (c ∷ cs) p h =
    drop-IsWithin healthy cs (if healthy c then p else remove_conn c p)
      (ground (arith, length-remove c p.conns))

evict-IsWithin : (healthy : ℕ → Bool) (p : Pool) → IsWithin p → IsWithin (evict_unhealthy healthy p)
unfolding evict_unhealthy
evict-IsWithin healthy p h =
    ground (arith, drop-IsWithin healthy p.idle (record p { idle = keep_healthy healthy p.idle }) h)

-- What the pool's count says of the dials: each one in flight has its slot, and within the limit.
record IsReserved (max_conns : ℕ) (w : World) : Type 0 where
  slots : w.pool.pending ≡ w.dialing
  limit : w.pool.max_conns ≡ max_conns
  within : IsWithin w.pool

acquire_reserves :
    (healthy : ℕ → Bool) (p : Pool) (channel : ℕ)
    → (((acquire healthy p channel).0).max_conns ≡ p.max_conns)
      × (((acquire healthy p channel).0).pending
          ≡ with_dial ((acquire healthy p channel).1) p.pending)
unfolding acquire acquire_slot try_get_idle
acquire_reserves healthy p channel =
    let (fewer, same, limit) = get_idle_keeps (length p.idle) healthy p p.idle refl in
    (ground (arith, limit), ground (arith, same))

drop_keeps :
    (healthy : ℕ → Bool) (cs : List ℕ) (p : Pool)
    → ((drop_unhealthy healthy cs p).max_conns ≡ p.max_conns)
      × ((drop_unhealthy healthy cs p).pending ≡ p.pending)
unfolding drop_unhealthy remove_conn
drop_keeps healthy [] p = (refl, refl)
drop_keeps healthy (c ∷ cs) p =
    let (limit, same) = drop_keeps healthy cs (if healthy c then p else remove_conn c p) in
    (ground (arith, limit), ground (arith, same))

step-IsReserved :
    (max_conns : ℕ) (w v : World) (step : Step w v)
    → adds_unasked step ≡ false
    → 0 < max_conns
    → IsReserved max_conns w
    → IsReserved max_conns v
unfolding adds_unasked create_done wake_waiter release hand_on remove_conn handle_wait_result
    handle_wait_timeout close_pool evict_unhealthy
step-IsReserved n _ _ (acquires w healthy channel) e pos h =
    let (limit, slots) = acquire_reserves healthy w.pool channel in
    record {
      slots = slots ∙ ap (with_dial ((acquire healthy w.pool channel).1)) h.slots;
      limit = limit ∙ h.limit;
      within = acquire-IsWithin healthy w.pool channel (omega (arith, h.limit)) h.within;
    }
step-IsReserved n _ _ (dial_fails w flight) e pos h = record {
  slots = ground (arith, h.slots);
  limit = ground (arith, h.limit);
  within = create_done-IsWithin w.pool none (omega (arith, h.slots)) h.within;
}
step-IsReserved n _ _ (dial_succeeds w c flight fresh) e pos h = record {
  slots = ground (arith, h.slots);
  limit = ground (arith, h.limit);
  within = create_done-IsWithin w.pool (some c) (omega (arith, h.slots)) h.within;
}
step-IsReserved n _ _ (releases w c unhealthy front back split) e pos h = record {
  slots = ground (arith, h.slots);
  limit = ground (arith, h.limit);
  within = release-IsWithin w.pool c unhealthy h.within;
}
step-IsReserved n _ _ (receives w c healthy front back split) e pos h = record {
  slots = ground (arith, h.slots);
  limit = ground (arith, h.limit);
  within = receive-IsWithin w.pool c healthy h.within;
}
step-IsReserved n _ _ (gives_up w channel) e pos h = record {
  slots = h.slots;
  limit = h.limit;
  within = h.within;
}
step-IsReserved n _ _ (closes w) e pos h = record {
  slots = ground (arith, h.slots);
  limit = ground (arith, h.limit);
  within = ground (arith, h.within);
}
step-IsReserved n _ _ (evicts w healthy) e pos h =
    let swept : Pool = record w.pool { idle = keep_healthy healthy w.pool.idle } in
    let (limit, same) = drop_keeps healthy w.pool.idle swept in
    record {
      slots = ground (arith, h.slots, same);
      limit = ground (arith, h.limit, limit);
      within = evict-IsWithin healthy w.pool h.within;
    }
step-IsReserved n _ _ (replenishes w c fresh) e pos h = absurd (ground (arith, e))
step-IsReserved n _ _ (starts w c fresh) e pos h = absurd (ground (arith, e))

path-IsReserved :
    (max_conns : ℕ) (w v : World) (path : Reach w v)
    → keeps_limit path ≡ true
    → 0 < max_conns
    → IsReserved max_conns w
    → IsReserved max_conns v
unfolding keeps_limit
path-IsReserved n _ _ (rest w) e pos h = h
path-IsReserved n _ _ (after w v u path step) e pos h =
    step-IsReserved n v u step (ground (arith, e)) pos
      (path-IsReserved n w v path (ground (arith, e)) pos h)

-- From a new pool with a limit on, along any sequence of calls in which neither Start nor the health
-- check adds connections, the connections of the pool and the callers whose dial is in flight together
-- do not exceed the limit: each caller that Acquire sends to dial has a slot reserved.
pub Reach_within_limit :
    (min_conns max_conns : ℕ) (can_wait : Bool) (w : World)
    (path : Reach (new_world min_conns max_conns can_wait) w)
    → keeps_limit path ≡ true
    → 0 < max_conns
    → length w.pool.conns + w.dialing ≤ max_conns
unfolding new_pool
Reach_within_limit min_conns max_conns can_wait w path asked pos =
    let h =
      path-IsReserved max_conns _ w path asked pos
        (record { slots = refl; limit = refl; within = omega arith }) in
    omega (arith, h.slots, h.limit, h.within)

-- The dials that keep the pool's minimum do not look at the limit: in an open pool that is full, with
-- dials of callers in flight, the connection that the health check adds is one above the limit.
replenish-exceeds :
    (p : Pool) (c : ℕ)
    → p.is_closed ≡ false
    → length p.conns < p.min_conns
    → length p.conns + p.pending ≡ p.max_conns
    → length ((replenish p c).conns) + (replenish p c).pending ≡ p.max_conns + 1
unfolding replenish add_started
replenish-exceeds p c open_now deficit full =
    ground (arith, open_now, length-append p.conns (c ∷ []))

-- The fuel of `tryGetIdleLocked` is enough: where it finds nothing, no idle connection is left.
get_idle-exhausts :
    (fuel : ℕ) (healthy : ℕ → Bool) (p : Pool) (idle : List ℕ)
    → p.idle ≡ idle
    → length idle ≤ fuel
    → (get_idle_loop fuel healthy p).1 ≡ none
    → ((get_idle_loop fuel healthy p).0).idle ≡ []
unfolding get_idle_loop remove_conn
get_idle-exhausts zero healthy p [] e le h = e
get_idle-exhausts zero healthy p (c ∷ idle) e le h = absurd (omega (arith, le))
get_idle-exhausts (suc fuel) healthy p [] e le h = ground (arith, e)
get_idle-exhausts (suc fuel) healthy p (c ∷ idle) e le h = ground (
  arith,
  get_idle_step fuel healthy p c idle e,
  h,
  get_idle-exhausts fuel healthy (remove_conn c (record p { idle = idle })) (remove c idle) refl
      (omega (arith, le, length-remove c idle)),
)
