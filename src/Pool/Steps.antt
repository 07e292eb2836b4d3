-- ===== src/Pool/Steps.antt =====
-- Callers, waiters and the health check of a pool, as interleaved steps.
use quantum_go.Base.{
  ℕ, ◌+◌, ◌-◌, ◌<◌, ◌≡◌, Bool, true, false, not, ◌&&◌, Option, none, some, List, [], ◌∷◌, ◌++◌,
  ◌==◌, if◌then◌else◌,
}
use quantum_go.Pool.{
  new_pool, Pool, Acquired, refused, exhausted, dials, waits, got, Released, discarded, pooled,
  handed, acquire, create_done, release, handle_wait_result, handle_wait_timeout, close_pool,
  evict_unhealthy, replenish, add_started,
}

abbrev pub count : ℕ → List ℕ → ℕ
count n [] = 0
count n (x ∷ xs) = (if n == x then 1 else 0) + count n xs

-- A pool with the number of callers whose dial is in flight, the connections that callers hold, and
-- those that were sent to waiters and not yet received, also where the waiter has given up.
pub record World : Type 0 where
  pub pool : Pool
  pub dialing : ℕ
  pub held : List ℕ
  pub sent : List ℕ

-- How often a connection is at hand: in the pool, with a caller, or on the way to a waiter.
abbrev pub places : ℕ → World → ℕ
places c w = count c w.pool.idle + (count c w.held + count c w.sent)

-- What a caller holds after `Acquire`.
abbrev pub with_got : Acquired → List ℕ → List ℕ
with_got (got c) cs = c ∷ cs
with_got refused cs = cs
with_got exhausted cs = cs
with_got dials cs = cs
with_got waits cs = cs

-- How many callers dial after `Acquire`.
abbrev pub with_dial : Acquired → ℕ → ℕ
with_dial dials n = n + 1
with_dial (got c) n = n
with_dial refused n = n
with_dial exhausted n = n
with_dial waits n = n

abbrev pub with_some : Option ℕ → List ℕ → List ℕ
with_some none cs = cs
with_some (some c) cs = c ∷ cs

-- What is on the way after `release`.
abbrev pub with_handed : Released → ℕ → List ℕ → List ℕ
with_handed discarded c cs = cs
with_handed pooled c cs = cs
with_handed (handed channel) c cs = c ∷ cs

pub data Step : World → World → Type 0 where
  acquires :
      (w : World) (healthy : ℕ → Bool) (channel : ℕ)
      → Step w (record w {
        pool = (acquire healthy w.pool channel).0;
        dialing = with_dial (acquire healthy w.pool channel).1 w.dialing;
        held = with_got (acquire healthy w.pool channel).1 w.held;
      })
  -- A dial in flight fails, or gives a connection that is new.
  dial_fails :
      (w : World)
      → 0 < w.dialing
      → Step w (record w { pool = (create_done w.pool none).0; dialing = w.dialing - 1 })
  dial_succeeds :
      (w : World) (c : ℕ)
      → 0 < w.dialing
      → places c w ≡ 0
      → Step w (record w {
        pool = (create_done w.pool (some c)).0;
        dialing = w.dialing - 1;
        held = with_some ((create_done w.pool (some c)).1.0) w.held;
      })
  -- A caller releases a connection that it holds.
  releases :
      (w : World) (c : ℕ) (unhealthy : Bool) (front back : List ℕ)
      → w.held ≡ front ++ (c ∷ back)
      → Step w (record w {
        pool = (release w.pool c unhealthy).0;
        held = front ++ back;
        sent = with_handed ((release w.pool c unhealthy).1.0) c w.sent;
      })
  -- A waiter receives a connection.
  receives :
      (w : World) (c : ℕ) (healthy : Bool) (front back : List ℕ)
      → w.sent ≡ front ++ (c ∷ back)
      → Step w (record w {
        pool = (handle_wait_result w.pool c healthy).0;
        sent = front ++ back;
        held = if (handle_wait_result w.pool c healthy).1 then c ∷ w.held else w.held;
      })
  gives_up :
      (w : World) (channel : ℕ) → Step w (record w { pool = handle_wait_timeout w.pool channel })
  closes : (w : World) → Step w (record w { pool = close_pool w.pool })
  evicts :
      (w : World) (healthy : ℕ → Bool) → Step w (record w { pool = evict_unhealthy healthy w.pool })
  replenishes :
      (w : World) (c : ℕ) → places c w ≡ 0 → Step w (record w { pool = replenish w.pool c })
  starts : (w : World) (c : ℕ) → places c w ≡ 0 → Step w (record w { pool = add_started w.pool c })

pub data Reach : World → World → Type 0 where
  rest : (w : World) → Reach w w
  after : (w v u : World) → Reach w v → Step v u → Reach w u

-- A step of `Start` or of the health check's dials, which do not look at the limit.
unfoldable pub adds_unasked : {w v : World} → Step w v → Bool
adds_unasked (acquires w healthy channel) = false
adds_unasked (dial_fails w flight) = false
adds_unasked (dial_succeeds w c flight fresh) = false
adds_unasked (releases w c unhealthy front back split) = false
adds_unasked (receives w c healthy front back split) = false
adds_unasked (gives_up w channel) = false
adds_unasked (closes w) = false
adds_unasked (evicts w healthy) = false
adds_unasked (replenishes w c fresh) = true
adds_unasked (starts w c fresh) = true

-- Whether no step of a path adds a connection unasked.
unfoldable pub keeps_limit : {w v : World} → Reach w v → Bool
keeps_limit (rest w) = true
keeps_limit (after w v u path step) = keeps_limit path && not (adds_unasked step)

-- A new pool, before its first caller.
abbrev pub new_world : ℕ → ℕ → Bool → World
new_world min_conns max_conns can_wait = record {
  pool = new_pool min_conns max_conns can_wait;
  dialing = 0;
  held = [];
  sent = [];
}
