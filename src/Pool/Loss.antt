-- ===== src/Pool/Loss.antt =====
-- A connection that was handed to a waiter that gives up, and what happens to the pool after that.
use quantum_go.Base.{
  ℕ, zero, suc, ◌+◌, ◌-◌, ◌<◌, ◌≡◌, refl, ap, ==_iff, ==_refl, ◌≤◌, sym, subst, Bool, Bool-cases,
  inl, inr, true, false, not, ◌&&◌, Option, none, some, List, [], ◌∷◌, ◌++◌, ◌==◌, if◌then◌else◌,
  length, arith,
}
use quantum_go.Pool.{
  Pool, Released, discarded, pooled, handed, remove, remove_conn, get_idle_loop, try_get_idle,
  acquire_slot, acquire, wake_waiter, create_done, hand_on, release, handle_wait_result,
  handle_wait_timeout, keep_healthy, drop_unhealthy, evict_unhealthy, replenish, add_started,
}
use quantum_go.Pool.Ownership.{
  get_idle_step, count-middle, acquire-count, wake-count, create_done-count, receive-count,
  evict-count,
}
use quantum_go.Pool.Steps.{
  World, Step, Reach, count, places, with_handed, acquires, dial_fails, dial_succeeds, releases,
  receives, gives_up, closes, evicts, replenishes, starts, rest, after,
}

-- A step that neither receives the connection nor closes the pool.
unfoldable pub spares : ℕ → {w v : World} → Step w v → Bool
spares c (acquires w healthy channel) = true
spares c (dial_fails w flight) = true
spares c (dial_succeeds w d flight fresh) = true
spares c (releases w d unhealthy front back split) = true
spares c (receives w d healthy front back split) = not (c == d)
spares c (gives_up w channel) = true
spares c (closes w) = false
spares c (evicts w healthy) = true
spares c (replenishes w d fresh) = true
spares c (starts w d fresh) = true

unfoldable pub spares_all : ℕ → {w v : World} → Reach w v → Bool
spares_all c (rest w) = true
spares_all c (after w v u path step) = spares_all c path && spares c step

-- The connection counts, nobody has it, and it is on the way to a waiter.
record IsLost (c : ℕ) (w : World) : Type 0 where
  counts : 0 < count c w.pool.conns
  nowhere : count c w.pool.idle + count c w.held ≡ 0
  on_way : 0 < count c w.sent

count-append : (c : ℕ) (xs ys : List ℕ) → count c (xs ++ ys) ≡ count c xs + count c ys
count-append c [] ys = omega arith
count-append c (x ∷ xs) ys = omega (arith, count-append c xs ys)

-- Taking another connection out does not change the count of this one.
count-remove_other : (c d : ℕ) (xs : List ℕ) → (c == d) ≡ false → count c (remove d xs) ≡ count c xs
unfolding remove
count-remove_other c d [] h = refl
count-remove_other c d (x ∷ xs) h = ground (arith, h, count-remove_other c d xs h)

get_idle-conns :
    (c fuel : ℕ) (healthy : ℕ → Bool) (p : Pool) (idle : List ℕ)
    → p.idle ≡ idle
    → count c idle ≡ 0
    → count c ((get_idle_loop fuel healthy p).0).conns ≡ count c p.conns
unfolding get_idle_loop remove_conn
get_idle-conns c zero healthy p idle e h = refl
get_idle-conns c (suc fuel) healthy p [] e h = ground (arith, e)
get_idle-conns c (suc fuel) healthy p (d ∷ idle) e h =
    let other : (c == d) ≡ false = ground (arith, h) in
    rw (get_idle_step fuel healthy p d idle e) (
      ground (
        arith,
        count-remove_other c d p.conns other,
        count-remove_other c d idle other,
        get_idle-conns c fuel healthy (remove_conn d (record p { idle = idle })) (remove d idle)
            refl,
        h,
      ))

acquire-conns :
    (c : ℕ) (healthy : ℕ → Bool) (p : Pool) (channel : ℕ)
    → count c p.idle ≡ 0
    → count c ((acquire healthy p channel).0).conns ≡ count c p.conns
unfolding acquire acquire_slot try_get_idle
acquire-conns c healthy p channel h =
    ground (arith, get_idle-conns c (length p.idle) healthy p p.idle refl h)

create_done-conns :
    (c : ℕ) (p : Pool) (dialed : Option ℕ)
    → 0 < count c p.conns
    → 0 < count c ((create_done p dialed).0).conns
unfolding create_done wake_waiter
create_done-conns c p none h = ground (arith, h)
create_done-conns c p (some d) h = ground (arith, h, count-append c p.conns (d ∷ []))

release-conns :
    (c : ℕ) (p : Pool) (d : ℕ) (unhealthy : Bool)
    → (c == d) ≡ false
    → count c ((release p d unhealthy).0).conns ≡ count c p.conns
unfolding release remove_conn wake_waiter hand_on
release-conns c p d unhealthy h = ground (arith, count-remove_other c d p.conns h)

receive-conns :
    (c : ℕ) (p : Pool) (d : ℕ) (healthy : Bool)
    → (c == d) ≡ false
    → count c ((handle_wait_result p d healthy).0).conns ≡ count c p.conns
unfolding handle_wait_result remove_conn
receive-conns c p d healthy h = ground (arith, count-remove_other c d p.conns h)

drop-conns :
    (c : ℕ) (healthy : ℕ → Bool) (ds : List ℕ) (p : Pool)
    → count c ds ≡ 0
    → count c (drop_unhealthy healthy ds p).conns ≡ count c p.conns
unfolding drop_unhealthy remove_conn
drop-conns c healthy [] p h = refl
drop-conns c healthy (d ∷ ds) p h = ground (
  arith,
  h,
  drop-conns c healthy ds (if healthy d then p else remove_conn d p),
  count-remove_other c d p.conns,
)

fail-count : (p : Pool) (c : ℕ) → count c ((create_done p none).0).idle ≡ count c p.idle
unfolding create_done
fail-count p c = wake-count (record p { pending = p.pending - 1 }) c

evict-conns :
    (c : ℕ) (healthy : ℕ → Bool) (p : Pool)
    → count c p.idle ≡ 0
    → count c (evict_unhealthy healthy p).conns ≡ count c p.conns
unfolding evict_unhealthy
evict-conns c healthy p h =
    ground (arith, drop-conns c healthy p.idle (record p { idle = keep_healthy healthy p.idle }) h)

release-idle :
    (c : ℕ) (p : Pool) (d : ℕ) (unhealthy : Bool)
    → (c == d) ≡ false
    → count c p.idle ≡ 0
    → count c ((release p d unhealthy).0).idle ≡ 0
unfolding release remove_conn wake_waiter hand_on
release-idle c p d unhealthy h idle = ground (arith, h, idle, count-remove_other c d p.idle h)

-- A fresh connection is not one that is on the way.
fresh_other : (c d : ℕ) (w : World) → places d w ≡ 0 → 0 < count c w.sent → (c == d) ≡ false
fresh_other c d w fresh h = elim (Bool-cases (c == d)) [
  | inl same ↦
      absurd (omega (arith, subst (λ m. places m w ≡ 0) (sym ((==_iff c d).0 same)) fresh, h))
  | inr differ ↦ differ
]

sent_grows : (c d : ℕ) (r : Released) (cs : List ℕ) → count c cs ≤ count c (with_handed r d cs)
sent_grows c d discarded cs = omega arith
sent_grows c d pooled cs = omega arith
sent_grows c d (handed channel) cs = omega arith

step-IsLost :
    (c : ℕ) (w v : World) (step : Step w v) → spares c step ≡ true → IsLost c w → IsLost c v
unfolding spares handle_wait_timeout replenish add_started
step-IsLost c _ _ (acquires w healthy channel) e h = record {
  counts =
      omega (arith, acquire-conns c healthy w.pool channel (omega (arith, h.nowhere)), h.counts);
  nowhere = omega (arith, acquire-count healthy w.pool channel c w.held, h.nowhere);
  on_way = h.on_way;
}
step-IsLost c _ _ (dial_fails w flight) e h = record {
  counts = create_done-conns c w.pool none h.counts;
  nowhere = omega (arith, fail-count w.pool c, h.nowhere);
  on_way = h.on_way;
}
step-IsLost c _ _ (dial_succeeds w d flight fresh) e h = record {
  counts = create_done-conns c w.pool (some d) h.counts;
  nowhere =
      ground
        (arith, create_done-count w.pool d c w.held, fresh_other c d w fresh h.on_way, h.nowhere);
  on_way = h.on_way;
}
step-IsLost c _ _ (releases w d unhealthy front back split) e h =
    let other : (c == d) ≡ false =
      ground (arith, ap (count c) split, count-middle c d front back, h.nowhere) in
    record {
      counts = omega (arith, release-conns c w.pool d unhealthy other, h.counts);
      nowhere = omega (
        arith,
        release-idle c w.pool d unhealthy other (omega (arith, h.nowhere)),
        ap (count c) split,
        count-middle c d front back,
        h.nowhere,
      );
      on_way = omega (arith, sent_grows c d ((release w.pool d unhealthy).1.0) w.sent, h.on_way);
    }
step-IsLost c _ _ (receives w d healthy front back split) e h =
    let other : (c == d) ≡ false = ground (arith, e) in
    record {
      counts = omega (arith, receive-conns c w.pool d healthy other, h.counts);
      nowhere = ground (arith, receive-count w.pool d healthy c w.held, other, h.nowhere);
      on_way = ground (arith, ap (count c) split, count-middle c d front back, other, h.on_way);
    }
step-IsLost c _ _ (gives_up w channel) e h = record {
  counts = h.counts;
  nowhere = h.nowhere;
  on_way = h.on_way;
}
step-IsLost c _ _ (closes w) e h = absurd (ground (arith, e))
step-IsLost c _ _ (evicts w healthy) e h = record {
  counts = ground (arith, evict-conns c healthy w.pool, h.nowhere, h.counts);
  nowhere = omega (arith, evict-count healthy w.pool c, h.nowhere);
  on_way = h.on_way;
}
step-IsLost c _ _ (replenishes w d fresh) e h =
    let other = fresh_other c d w fresh h.on_way in
    record {
      counts = ground (arith, count-append c w.pool.conns (d ∷ []), h.counts);
      nowhere = ground (arith, other, h.nowhere);
      on_way = h.on_way;
    }
step-IsLost c _ _ (starts w d fresh) e h =
    let other = fresh_other c d w fresh h.on_way in
    record {
      counts = ground (arith, count-append c w.pool.conns (d ∷ []), h.counts);
      nowhere = ground (arith, other, h.nowhere);
      on_way = h.on_way;
    }

path-IsLost :
    (c : ℕ) (w v : World) (path : Reach w v) → spares_all c path ≡ true → IsLost c w → IsLost c v
unfolding spares_all
path-IsLost c _ _ (rest w) e h = h
path-IsLost c _ _ (after w v u path step) e h =
    step-IsLost c v u step (ground (arith, e)) (path-IsLost c w v path (ground (arith, e)) h)

-- A caller releases a healthy connection, which goes to the first waiter, and that waiter times out:
-- the world after both.
abbrev pub lose : World → ℕ → ℕ → List ℕ → World
lose w c channel held = record w {
  pool = handle_wait_timeout ((release w.pool c false).0) channel;
  held = held;
  sent = with_handed ((release w.pool c false).1.0) c w.sent;
}

lost :
    (w : World) (c channel : ℕ) (others front back : List ℕ)
    → w.pool.is_closed ≡ false
    → w.pool.waiters ≡ channel ∷ others
    → w.held ≡ front ++ (c ∷ back)
    → places c w ≡ 1
    → 0 < count c w.pool.conns
    → IsLost c (lose w c channel (front ++ back))
unfolding release hand_on handle_wait_timeout
lost w c channel others front back open_now waiting split placed counted =
    let gone = count-middle c c front back in
    record {
      counts = ground (arith, open_now, waiting, counted);
      nowhere = ground (arith, open_now, waiting, ==_refl c, gone, ap (count c) split, placed);
      on_way = ground (arith, open_now, waiting, ==_refl c);
    }

-- In an open pool, where a connection of the pool is with one caller and nowhere else, that caller
-- releases it as healthy, it is handed to the first waiter, and that waiter times out. Then, whatever
-- calls follow, until the pool is closed or the waiter's channel is read, which its owner no longer
-- does, the connection counts as one of the pool's, and is neither idle nor with a caller.
pub timeout_loses :
    (w v : World) (c channel : ℕ) (others front back : List ℕ)
    → w.pool.is_closed ≡ false
    → w.pool.waiters ≡ channel ∷ others
    → w.held ≡ front ++ (c ∷ back)
    → places c w ≡ 1
    → 0 < count c w.pool.conns
    → (path : Reach (lose w c channel (front ++ back)) v) → spares_all c path ≡ true
    → (0 < count c v.pool.conns) × (count c v.pool.idle ≡ 0) × (count c v.held ≡ 0)
timeout_loses w v c channel others front back open_now waiting split placed counted path spared =
    let h =
      path-IsLost c _ v path spared
        (lost w c channel others front back open_now waiting split placed counted) in
    (h.counts, omega (arith, h.nowhere), omega (arith, h.nowhere))
