-- ===== src/Pool.antt =====
-- pkg/tunnel/pool.go: the connection pool. A connection and a waiter's channel are numbers. What runs
-- under the pool's mutex is one step; the dial between two of them is outside. `healthy` is the
-- answer of `isHealthy` at the time of a step. The statistics, the observer, the contexts and the
-- closing of tunnels in the background are left out.
pub mod Steps
pub mod Ownership
pub mod Capacity
pub mod Loss
mod Tests
use quantum_go.Base.{
  ℕ, zero, suc, ◌+◌, ◌-◌, Bool, true, false, not, ◌||◌, Option, none, some, List, [], ◌∷◌, ◌++◌,
  ltb, ◌==◌, if◌then◌else◌, length,
}

-- `Pool`; the idle connections with the next one to take first, the waiters in their order.
pub record Pool : Type 0 where
  pub max_conns : ℕ
  pub min_conns : ℕ
  pub can_wait : Bool
  pub conns : List ℕ
  pub idle : List ℕ
  pub waiters : List ℕ
  pub pending : ℕ
  pub is_closed : Bool

-- What `Acquire` does before it leaves the mutex: it fails, has a connection, has a slot to dial, or
-- has joined the waiters.
pub data Acquired : Type 0 where
  refused exhausted dials waits : Acquired
  got : ℕ → Acquired

-- Where a connection goes that is handed to `release`.
pub data Released : Type 0 where
  discarded pooled : Released
  handed : ℕ → Released

-- `NewPool`, for a configuration that has its defaults and is valid
unfoldable pub new_pool : ℕ → ℕ → Bool → Pool
new_pool min_conns max_conns can_wait = record {
  max_conns = max_conns;
  min_conns = min_conns;
  can_wait = can_wait;
  conns = [];
  idle = [];
  waiters = [];
  pending = 0;
  is_closed = false;
}

-- The first occurrence taken out, as the loops of `removeConnLocked` and `removeWaiter` do.
unfoldable pub remove : ℕ → List ℕ → List ℕ
remove x [] = []
remove x (y ∷ ys) = if x == y then ys else y ∷ remove x ys

-- `removeConnLocked`
unfoldable pub remove_conn : ℕ → Pool → Pool
remove_conn c p = record p { conns = remove c p.conns; idle = remove c p.idle }

-- The loop of `tryGetIdleLocked`, on fuel: the number of idle connections is enough, since each round
-- takes one away.
unfoldable pub get_idle_loop : ℕ → (ℕ → Bool) → Pool → Pool × Option ℕ
get_idle_loop zero healthy p = (p, none)
get_idle_loop (suc n) healthy p = elim p.idle [
  | [] ↦ (p, none)
  | c ∷ idle ↦
      let popped = record p { idle = idle } in
      let rest = get_idle_loop n healthy (remove_conn c popped) in
      if healthy c then (popped, some c) else rest
]

-- `tryGetIdleLocked`
unfoldable pub try_get_idle : (ℕ → Bool) → Pool → Pool × Option ℕ
try_get_idle healthy p = get_idle_loop (length p.idle) healthy p

-- `Acquire` where no idle connection is left
unfoldable pub acquire_slot : Pool → ℕ → Pool × Acquired
acquire_slot p channel =
    if p.max_conns == 0 || ltb (length p.conns + p.pending) p.max_conns
    then (record p { pending = p.pending + 1 }, dials)
    else if not p.can_wait
    then (p, exhausted)
    else (record p { waiters = p.waiters ++ (channel ∷ []) }, waits)

-- `Acquire`, with the channel that it makes for a waiter
unfoldable pub acquire : (ℕ → Bool) → Pool → ℕ → Pool × Acquired
acquire healthy p channel =
    if p.is_closed
    then (p, refused)
    else (let (p1, found) = try_get_idle healthy p in
        elim found [ some c ↦ (p1, got c) | none ↦ acquire_slot p1 channel ])

-- `wakeWaiterLocked`: the waiter that is sent nothing, to try again
unfoldable pub wake_waiter : Pool → Pool × Option ℕ
wake_waiter p = elim p.waiters [
  | [] ↦ (p, none)
  | channel ∷ rest ↦ (record p { waiters = rest }, some channel)
]

-- `createAndAcquire` after the dial: the connection that the caller has, if any, and the waiter woken
unfoldable pub create_done : Pool → Option ℕ → Pool × (Option ℕ × Option ℕ)
create_done p none =
    let (p1, woken) = wake_waiter (record p { pending = p.pending - 1 }) in (p1, (none, woken))
create_done p (some c) =
    let p1 = record p { pending = p.pending - 1 } in
    if p.is_closed
    then (p1, (none, none))
    else (record p1 { conns = p.conns ++ (c ∷ []) }, (some c, none))

-- `release` of a healthy connection, in an open pool
unfoldable pub hand_on : Pool → ℕ → Pool × Released
hand_on p c = elim p.waiters [
  | [] ↦ (record p { idle = c ∷ p.idle }, pooled)
  | channel ∷ rest ↦ (record p { waiters = rest }, handed channel)
]

-- `release`, with the connection's unhealthy mark; and the waiter woken
unfoldable pub release : Pool → ℕ → Bool → Pool × (Released × Option ℕ)
release p c unhealthy =
    if p.is_closed
    then (p, (discarded, none))
    else if unhealthy
    then (let (p1, woken) = wake_waiter (remove_conn c p) in (p1, (discarded, woken)))
    else (let (p1, where_to) = hand_on p c in (p1, (where_to, none)))

-- `handleWaitResult` for a connection that a waiter has received: whether the waiter keeps it, or
-- calls `Acquire` again
unfoldable pub handle_wait_result : Pool → ℕ → Bool → Pool × Bool
handle_wait_result p c healthy = if not healthy then (remove_conn c p, false) else (p, true)

-- `handleWaitTimeout`
unfoldable pub handle_wait_timeout : Pool → ℕ → Pool
handle_wait_timeout p channel = record p { waiters = remove channel p.waiters }

-- `Close`
unfoldable pub close_pool : Pool → Pool
close_pool p =
    if p.is_closed then p else record p { is_closed = true; waiters = []; conns = []; idle = [] }

-- The healthy idle connections, and all connections without the others.
unfoldable pub keep_healthy : (ℕ → Bool) → List ℕ → List ℕ
keep_healthy healthy [] = []
keep_healthy healthy (c ∷ cs) =
    let rest = keep_healthy healthy cs in if healthy c then c ∷ rest else rest

unfoldable pub drop_unhealthy : (ℕ → Bool) → List ℕ → Pool → Pool
drop_unhealthy healthy [] p = p
drop_unhealthy healthy (c ∷ cs) p =
    drop_unhealthy healthy cs (if healthy c then p else remove_conn c p)

-- `runHealthCheck`, its first part under the mutex
unfoldable pub evict_unhealthy : (ℕ → Bool) → Pool → Pool
evict_unhealthy healthy p =
    if p.is_closed
    then p
    else drop_unhealthy healthy p.idle (record p { idle = keep_healthy healthy p.idle })

-- `Start`, after a dial: it does not look at the mark again
unfoldable pub add_started : Pool → ℕ → Pool
add_started p c = record p { conns = p.conns ++ (c ∷ []); idle = c ∷ p.idle }

-- `runHealthCheck`, after a dial to keep the minimum
unfoldable pub replenish : Pool → ℕ → Pool
replenish p c = if p.is_closed then p else add_started p c
