-- ===== src/ThreadPool.antt =====
-- RiftNet/src/core/threading: the pool of worker threads. A step is what one thread does between two
-- points at which another may be seen to interfere; a run is any sequence of steps.
pub mod Order
pub mod Turns
pub mod Stop
pub mod Termination
pub mod Hang
use rift_net.Base.{
  ℕ, zero, suc, Bool, true, false, not, ◌&&◌, ◌||◌, if◌then◌else◌, ◌>>=◌, ◌==◌, Option, none, some,
  List, [], ◌∷◌, ◌++◌, map, is_empty, replicate,
}

-- What the threads share, besides the mutex.
pub record Shared (Task : Type 0) : Type 0 where
  pub tasks : List Task
  pub is_stopped : Bool
  pub is_paused : Bool

-- Where a worker is: about to lock the mutex; holding it, having found the predicate of `wait` false
-- and not yet asleep; asleep; outside the lock with a task; or returned.
pub data Worker (Task : Type 0) : Type 0 where
  ready committed sleeping exited : Worker Task
  running : Task → Worker Task

pub record Pool (Task : Type 0) : Type 0 where
  pub shared : Shared Task
  pub workers : List (Worker Task)

-- How a task leaves the queue.
pub data Fate : Type 0 where
  started cleared : Fate

-- A step of some thread. `stop` and `resume` are each two: the flag, then the notification, without
-- the mutex; `enqueue` pushes under the mutex, and notifies one worker at most, the `i`th one.
pub data Action (Task : Type 0) : Type 0 where
  enqueue : Task → Action Task
  notify_one : ℕ → Action Task
  set_stop notify_all pause set_resumed clear_queue : Action Task
  turn : ℕ → Action Task

-- What a step gives: the pool, the tasks that joined the queue and those that left it, in order.
pub record Effect (Task : Type 0) : Type 0 where
  pub pool : Pool Task
  pub joined : List Task
  pub gone : List (Task × Fate)

module _ {Task : Type 0} where
  abbrev pub holds_mutex : Worker Task → Bool
  holds_mutex Worker.committed = true
  holds_mutex Worker.ready = false
  holds_mutex Worker.sleeping = false
  holds_mutex Worker.exited = false
  holds_mutex (Worker.running task) = false

  unfoldable pub is_mutex_free : List (Worker Task) → Bool
  is_mutex_free [] = true
  is_mutex_free (w ∷ workers) = not (holds_mutex w) && is_mutex_free workers

  -- The constructor; `concurrency` is `hardware_concurrency()`.
  unfoldable pub new_pool : ℕ → ℕ → Pool Task
  new_pool threads concurrency =
      let count = if threads == 0 then (if concurrency == 0 then 1 else concurrency) else threads in
      record {
        shared = record { tasks = []; is_stopped = false; is_paused = false };
        workers = replicate count Worker.ready;
      }

  -- The predicate of `wait`.
  unfoldable pub may_proceed : Shared Task → Bool
  may_proceed s = s.is_stopped || (not s.is_paused && not (is_empty s.tasks))

  take_front : Shared Task → List Task → Shared Task × Worker Task × List Task
  take_front s [] = (s, Worker.ready, [])
  take_front s (task ∷ tasks) = (record s { tasks = tasks }, Worker.running task, task ∷ [])

  -- The critical section of `worker_loop`. The list is the task that was taken, if any.
  unfoldable pub enter : Shared Task → Shared Task × Worker Task × List Task
  unfolding take_front
  enter s =
      if not (may_proceed s)
      then (s, Worker.committed, [])
      else (if s.is_stopped && is_empty s.tasks
          then (s, Worker.exited, [])
          else (if not s.is_paused && not (is_empty s.tasks)
              then take_front s s.tasks
              else (s, Worker.ready, [])))

  -- The next step of one worker. `none`: it has none, being asleep, gone, or kept out by the mutex.
  unfoldable pub worker_turn :
      Bool → Shared Task → Worker Task → Option (Shared Task × Worker Task × List Task)
  worker_turn is_free s Worker.ready = if is_free then some (enter s) else none
  worker_turn is_free s Worker.committed = some (s, Worker.sleeping, [])
  worker_turn is_free s Worker.sleeping = none
  worker_turn is_free s Worker.exited = none
  worker_turn is_free s (Worker.running task) = some (s, Worker.ready, [])

  unfoldable pub turn_at :
      Bool
      → Shared Task
      → List (Worker Task)
      → ℕ
      → Option (Shared Task × List (Worker Task) × List Task)
  turn_at is_free s [] i = none
  turn_at is_free s (w ∷ workers) zero =
      worker_turn is_free s w >>= λ (s', w', took). some (s', w' ∷ workers, took)
  turn_at is_free s (w ∷ workers) (suc i) =
      turn_at is_free s workers i >>= λ (s', workers', took). some (s', w ∷ workers', took)

  abbrev pub wake : Worker Task → Worker Task
  wake Worker.sleeping = Worker.ready
  wake Worker.ready = Worker.ready
  wake Worker.committed = Worker.committed
  wake Worker.exited = Worker.exited
  wake (Worker.running task) = Worker.running task

  unfoldable pub wake_at : List (Worker Task) → ℕ → List (Worker Task)
  wake_at [] i = []
  wake_at (w ∷ workers) zero = wake w ∷ workers
  wake_at (w ∷ workers) (suc i) = w ∷ wake_at workers i

  abbrev only : Pool Task → Effect Task
  only p = record { pool = p; joined = []; gone = [] }

  -- `none`: the step cannot happen now. An `enqueue` that throws changes nothing.
  unfoldable pub perform : Pool Task → Action Task → Option (Effect Task)
  perform p (Action.enqueue task) =
      if not (is_mutex_free p.workers)
      then none
      else (if p.shared.is_stopped
          then some (only p)
          else some (record {
            pool = record p { shared = record p.shared { tasks = p.shared.tasks ++ (task ∷ []) } };
            joined = task ∷ [];
            gone = [];
          }))
  perform p (Action.notify_one i) = some (only (record p { workers = wake_at p.workers i }))
  perform p Action.set_stop =
      some (only (record p { shared = record p.shared { is_stopped = true } }))
  perform p Action.notify_all = some (only (record p { workers = map wake p.workers }))
  perform p Action.pause = some (only (record p { shared = record p.shared { is_paused = true } }))
  perform p Action.set_resumed =
      some (only (record p { shared = record p.shared { is_paused = false } }))
  perform p Action.clear_queue =
      if is_mutex_free p.workers
      then some (record {
        pool = record p { shared = record p.shared { tasks = [] } };
        joined = [];
        gone = map (λ task. (task, Fate.cleared)) p.shared.tasks;
      })
      else none
  perform p (Action.turn i) =
      turn_at (is_mutex_free p.workers) p.shared p.workers i >>= λ (s, workers, took).
      some (record {
        pool = record { shared = s; workers = workers };
        joined = [];
        gone = map (λ task. (task, Fate.started)) took;
      })

  -- A run, with all that joined and all that left.
  unfoldable pub run_pool : Pool Task → List (Action Task) → Option (Effect Task)
  run_pool p [] = some (only p)
  run_pool p (action ∷ actions) = perform p action >>= λ first.
      run_pool first.pool actions >>= λ rest. some (record {
        pool = rest.pool;
        joined = first.joined ++ rest.joined;
        gone = first.gone ++ rest.gone;
      })
