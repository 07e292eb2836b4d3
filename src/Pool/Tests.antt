-- ===== src/Pool/Tests.antt =====
-- Examples of pools.
use quantum_go.Base.{length, ◌<◌, ◌+◌, ◌≤◌, ◌≡◌, refl, true, false, [], ◌∷◌, arith}
use quantum_go.Pool.{
  remove, new_pool, acquire, acquire_slot, try_get_idle, get_idle_loop, create_done, release,
  hand_on, handle_wait_result, handle_wait_timeout,
}
use quantum_go.Pool.Steps.{
  World, new_world, keeps_limit, Step, Reach, count, adds_unasked, acquires, dial_succeeds,
  releases, receives, rest, after,
}
use quantum_go.Pool.Ownership.{Reach-places}
use quantum_go.Pool.Capacity.{Reach_within_limit}
use quantum_go.Pool.Loss.{lose, spares, spares_all, timeout_loses}

-- A pool of one connection: one caller dials, another waits and is handed the connection.
abbrev start : World
start = new_world 1 1 true

abbrev dialing : World
dialing = record {
  pool = record {
    max_conns = 1;
    min_conns = 1;
    can_wait = true;
    conns = [];
    idle = [];
    waiters = [];
    pending = 1;
    is_closed = false;
  };
  dialing = 1;
  held = [];
  sent = [];
}

abbrev holding : World
holding = record dialing {
  dialing = 0;
  pool = record dialing.pool { conns = 7 ∷ []; pending = 0 };
  held = 7 ∷ [];
}

abbrev waiting : World
waiting = record holding { pool = record holding.pool { waiters = 3 ∷ [] } }

abbrev handing : World
handing = record waiting { pool = holding.pool; held = []; sent = 7 ∷ [] }

abbrev handed_on : World
handed_on = record handing { held = 7 ∷ []; sent = [] }

first_dial : Step start dialing
unfolding new_pool acquire acquire_slot try_get_idle get_idle_loop
first_dial = acquires start (λ c. true) 1

first_holds : Step dialing holding
unfolding create_done
first_holds = dial_succeeds dialing 7 (omega arith) refl

second_waits : Step holding waiting
unfolding acquire acquire_slot try_get_idle get_idle_loop
second_waits = acquires holding (λ c. true) 3

first_releases : Step waiting handing
unfolding release hand_on
first_releases = releases waiting 7 false [] [] refl

second_receives : Step handing handed_on
unfolding handle_wait_result
second_receives = receives handing 7 true [] [] refl

path : Reach start handed_on
path =
    after start handing handed_on
      (after start waiting handing
        (after start holding waiting
          (after start dialing holding (after start start dialing (rest start) first_dial)
            first_holds)
          second_waits)
        first_releases)
      second_receives

Reach-places_example :
    count 7 handed_on.pool.idle + (count 7 handed_on.held + count 7 handed_on.sent) ≤ 1
Reach-places_example = Reach-places 1 1 true handed_on 7 path

-- While the first caller dials, a second one finds the only slot reserved, and waits.
abbrev queued : World
queued = record dialing { pool = record dialing.pool { waiters = 3 ∷ [] } }

second_queues : Step dialing queued
unfolding acquire acquire_slot try_get_idle get_idle_loop
second_queues = acquires dialing (λ c. true) 3

queue : Reach start queued
queue = after start dialing queued (after start start dialing (rest start) first_dial) second_queues

guarded : keeps_limit queue ≡ true
unfolding keeps_limit adds_unasked queue first_dial second_queues
guarded = refl

Reach_within_limit_example : length queued.pool.conns + queued.dialing ≤ 1
Reach_within_limit_example = Reach_within_limit 1 1 true queued queue guarded (omega arith)

-- After the loss another caller finds no connection, and waits.
abbrev starved : World
starved = record handing { pool = record holding.pool { waiters = 5 ∷ [] } }

third_waits : Step (lose waiting 7 3 []) starved
unfolding acquire acquire_slot try_get_idle get_idle_loop release hand_on handle_wait_timeout remove
third_waits = acquires (lose waiting 7 3 []) (λ c. true) 5

loss : Reach (lose waiting 7 3 []) starved
loss =
    after (lose waiting 7 3 []) (lose waiting 7 3 []) starved (rest (lose waiting 7 3 []))
      third_waits

spared : spares_all 7 loss ≡ true
unfolding spares_all spares loss third_waits
spared = refl

timeout_loses_example :
    (0 < count 7 starved.pool.conns) × (count 7 starved.pool.idle ≡ 0) × (count 7 starved.held ≡ 0)
timeout_loses_example =
    timeout_loses waiting starved 7 3 [] [] [] refl refl refl refl (omega arith) loss spared
