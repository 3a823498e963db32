-- ===== src/Examples/Threads.antt =====
-- The thread pool at concrete inputs; a task is a number.
use rift_net.Base.{ℕ, ◌+◌, ◌≤◌, ◌≡◌, refl, true, false, some, List, [], ◌∷◌, ◌++◌, map}
use rift_net.ThreadPool.{
  Worker, Pool, Fate, Action, Effect, may_proceed, enter, worker_turn, turn_at, perform, run_pool,
  new_pool, is_mutex_free,
}
use rift_net.ThreadPool.Order.{departed, run_pool_order}
use rift_net.ThreadPool.Turns.{has_exited, is_exited}
use rift_net.ThreadPool.Stop.{run_pool-Drained}
use rift_net.ThreadPool.Termination.{stop_terminates, turns_left}
use rift_net.ThreadPool.Hang.{stop_while_paused, slept, first_worker, stop_lost_wakeup}

-- One worker: two tasks are queued, one runs, the other is cleared, and the pool stops.
abbrev actions : List (Action ℕ)
actions =
    Action.enqueue 7
    ∷ Action.enqueue 8
    ∷ Action.turn 0
    ∷ Action.turn 0
    ∷ Action.clear_queue
    ∷ Action.set_stop
    ∷ Action.notify_all
    ∷ Action.turn 0
    ∷ []

abbrev stopped_pool : Pool ℕ
stopped_pool = record {
  shared = record { tasks = []; is_stopped = true; is_paused = false };
  workers = Worker.exited ∷ [];
}

abbrev effect : Effect ℕ
effect = record {
  pool = stopped_pool;
  joined = 7 ∷ 8 ∷ [];
  gone = (7, Fate.started) ∷ (8, Fate.cleared) ∷ [];
}

actions_run : run_pool (new_pool 1 4) actions ≡ some effect
unfolding run_pool perform turn_at worker_turn enter may_proceed new_pool is_mutex_free
actions_run = refl

run_pool_order_example : [] ++ (7 ∷ 8 ∷ []) ≡ departed effect.gone ++ []
unfolding new_pool
run_pool_order_example = run_pool_order actions (new_pool 1 4) effect actions_run

exits : has_exited stopped_pool.workers ≡ true
unfolding has_exited
exits = refl

run_pool-Drained_example :
    (stopped_pool.shared.is_stopped ≡ true) × (stopped_pool.shared.tasks ≡ [])
run_pool-Drained_example = run_pool-Drained 1 4 actions effect actions_run exits

-- A stopped pool with a task, and what three turns make of it.
abbrev stopping_pool : Pool ℕ
stopping_pool = record {
  shared = record { tasks = 7 ∷ []; is_stopped = true; is_paused = false };
  workers = Worker.ready ∷ [];
}

abbrev stopping_effect : Effect ℕ
stopping_effect = record { pool = stopped_pool; joined = []; gone = (7, Fate.started) ∷ [] }

stops : run_pool stopping_pool (map Action.turn (0 ∷ 0 ∷ 0 ∷ [])) ≡ some stopping_effect
unfolding run_pool perform turn_at worker_turn enter may_proceed is_mutex_free
stops = refl

stop_terminates_example : 3 + turns_left stopped_pool ≤ turns_left stopping_pool
stop_terminates_example =
    stop_terminates (0 ∷ 0 ∷ 0 ∷ []) stopping_pool stopping_effect refl refl stops

-- A worker whose task ends in a pool that was stopped while paused.
abbrev paused_pool : Pool ℕ
paused_pool = record {
  shared = record { tasks = 7 ∷ []; is_stopped = true; is_paused = true };
  workers = Worker.running 6 ∷ [];
}

abbrev spinning_pool : Pool ℕ
spinning_pool = record paused_pool { workers = Worker.ready ∷ [] }

spins :
    run_pool paused_pool (map Action.turn (0 ∷ 0 ∷ 0 ∷ []))
    ≡ some (record { pool = spinning_pool; joined = []; gone = [] })
unfolding run_pool perform turn_at worker_turn enter may_proceed is_mutex_free
spins = refl

stop_while_paused_example :
    (spinning_pool.shared ≡ paused_pool.shared)
    × (map is_exited spinning_pool.workers ≡ map is_exited paused_pool.workers)
stop_while_paused_example =
    stop_while_paused (0 ∷ 0 ∷ 0 ∷ []) paused_pool
      (record { pool = spinning_pool; joined = []; gone = [] }) refl refl refl spins

-- One thread and a second that finds the mutex free.
abbrev after_wakeup : Effect ℕ
after_wakeup = record {
  pool = record {
    shared = record { tasks = []; is_stopped = true; is_paused = false };
    workers = Worker.sleeping ∷ Worker.exited ∷ [];
  };
  joined = [];
  gone = [];
}

sleeps : run_pool (slept 1) (map Action.turn (1 ∷ [])) ≡ some after_wakeup
unfolding run_pool perform turn_at worker_turn enter may_proceed is_mutex_free
sleeps = refl

stop_lost_wakeup_example :
    (run_pool {Task = ℕ}
        (new_pool 2 4)
        (Action.turn 0 ∷ Action.set_stop ∷ Action.notify_all ∷ Action.turn 0 ∷ [])
      ≡ some (record { pool = slept 1; joined = []; gone = [] }))
    × (first_worker after_wakeup.pool.workers ≡ some Worker.sleeping)
    × (after_wakeup.pool.shared.is_stopped ≡ true)
stop_lost_wakeup_example = stop_lost_wakeup 1 4 (1 ∷ []) after_wakeup sleeps
