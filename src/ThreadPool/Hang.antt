-- ===== src/ThreadPool/Hang.antt =====
-- Two ways in which `stop` never ends.
use mathlib.Core.Option.{some-injective}
use mathlib.Core.Path.{subst}
use rift_net.Base.{
  ℕ, ◌≢◌, ◌≡◌, refl, sym, ap, ◌∙◌, zero, suc, ◌==◌, Option, replicate, true, false, >>=-eq-some,
  none, some, List, [], ◌∷◌, map, is_empty, arith,
}
use rift_net.ThreadPool.{
  Shared, Worker, Pool, Action, Effect, may_proceed, worker_turn, turn_at, perform, run_pool, wake,
  new_pool, is_mutex_free, enter,
}
use rift_net.ThreadPool.Turns.{
  is_exited, Turn, commit, leave, take, spin, sleep, finish, TurnOf, here, there, perform-TurnOf,
}

ready_free : (Task : Type 0) (n : ℕ) → is_mutex_free {Task = Task} (replicate n Worker.ready) ≡ true
unfolding is_mutex_free
ready_free Task zero = refl
ready_free Task (suc n) = ready_free Task n

module _ {Task : Type 0} where
  -- A stopped and paused pool with tasks, where nothing can happen any more.
  abbrev Stalled : Shared Task → Type 0
  Stalled s = (s.is_stopped ≡ true) × (s.is_paused ≡ true) × (is_empty s.tasks ≡ false)

  Turn-Stalled :
      {s s' : Shared Task} {w w' : Worker Task} {took : List Task}
      → Turn s s' w w' took
      → Stalled s
      → (s' ≡ s) × (is_exited w' ≡ is_exited w)
  unfolding may_proceed
  Turn-Stalled (commit h) v = (refl, refl)
  Turn-Stalled {s = s} (leave h k) v = absurd (ground (arith, v, k))
  Turn-Stalled (take task tasks h k) v = absurd (cc (h, v.1))
  Turn-Stalled (spin h k l) v = (refl, refl)
  Turn-Stalled sleep v = (refl, refl)
  Turn-Stalled (finish task) v = (refl, refl)

  TurnOf-Stalled :
      {s s' : Shared Task} {workers workers' : List (Worker Task)}
      → TurnOf s s' workers workers'
      → Stalled s
      → (s' ≡ s) × (map is_exited workers' ≡ map is_exited workers)
  TurnOf-Stalled (here workers t) v =
      let (same, out) = Turn-Stalled t v in (same, ap (λ b. b ∷ map is_exited workers) out)
  TurnOf-Stalled (there w t) v =
      let (same, out) = TurnOf-Stalled t v in (same, ap (λ l. is_exited w ∷ l) out)

  -- `stop` on a paused pool with queued tasks never ends: whatever turns its workers take, the queue
  -- and the flags stay as they are, and no further worker returns. (Unless another thread
  -- resumes the pool or clears its queue.)
  pub stop_while_paused :
      (schedule : List ℕ) (p : Pool Task) (e : Effect Task)
      → p.shared.is_stopped ≡ true
      → p.shared.is_paused ≡ true
      → is_empty p.shared.tasks ≡ false
      → run_pool p (map Action.turn schedule) ≡ some e
      → (e.pool.shared ≡ p.shared) × (map is_exited e.pool.workers ≡ map is_exited p.workers)
  unfolding run_pool
  stop_while_paused [] p e stopped paused queued h =
      let same = ap (λ (e : Effect Task). e.pool) (some-injective _ _ h) in
      (
        sym (ap (λ (q : Pool Task). q.shared) same),
        sym (ap (λ (q : Pool Task). map is_exited q.workers) same),
      )
  stop_while_paused (i ∷ schedule) p e stopped paused queued h =
      let (first, did, later) = >>=-eq-some (perform p (Action.turn i)) _ h in
      let (rest, ran, result) =
        >>=-eq-some (run_pool first.pool (map Action.turn schedule)) _ later in
      let (same, out) = TurnOf-Stalled (perform-TurnOf p i first did) (stopped, paused, queued) in
      let (s1, s2, s3) = subst Stalled (sym same) (stopped, paused, queued) in
      let (same', out') = stop_while_paused schedule first.pool rest s1 s2 s3 ran in
      let last = ap (λ (e : Effect Task). e.pool) (some-injective _ _ result) in
      (
        sym (ap (λ (q : Pool Task). q.shared) last) ∙ same' ∙ same,
        sym (ap (λ (q : Pool Task). map is_exited q.workers) last) ∙ out' ∙ out,
      )

  abbrev pub first_worker : List (Worker Task) → Option (Worker Task)
  first_worker [] = none
  first_worker (w ∷ workers) = some w

  Turn-is_stopped :
      {s s' : Shared Task} {w w' : Worker Task} {took : List Task}
      → Turn s s' w w' took
      → s'.is_stopped ≡ s.is_stopped
  Turn-is_stopped (commit h) = refl
  Turn-is_stopped (leave h k) = refl
  Turn-is_stopped (take task tasks h k) = refl
  Turn-is_stopped (spin h k l) = refl
  Turn-is_stopped sleep = refl
  Turn-is_stopped (finish task) = refl

  TurnOf-is_stopped :
      {s s' : Shared Task} {workers workers' : List (Worker Task)}
      → TurnOf s s' workers workers'
      → s'.is_stopped ≡ s.is_stopped
  TurnOf-is_stopped (here workers t) = Turn-is_stopped t
  TurnOf-is_stopped (there w t) = TurnOf-is_stopped t

  Turn-awake :
      {s s' : Shared Task} {w w' : Worker Task} {took : List Task}
      → Turn s s' w w' took
      → w ≢ Worker.sleeping
  Turn-awake (commit h) e = cc
  Turn-awake (leave h k) e = cc
  Turn-awake (take task tasks h k) e = cc
  Turn-awake (spin h k l) e = cc
  Turn-awake sleep e = cc
  Turn-awake (finish task) e = cc

  -- A turn leaves a sleeping worker asleep, and the flags.
  TurnOf-first_worker :
      {s s' : Shared Task} {workers workers' : List (Worker Task)}
      → TurnOf s s' workers workers'
      → first_worker workers ≡ some Worker.sleeping
      → (first_worker workers' ≡ some Worker.sleeping) × (s'.is_stopped ≡ s.is_stopped)
  TurnOf-first_worker (here workers t) asleep = absurd (Turn-awake t (some-injective _ _ asleep))
  TurnOf-first_worker (there w t) asleep = (asleep, TurnOf-is_stopped t)

  still_asleep :
      (schedule : List ℕ) (p : Pool Task) (e : Effect Task)
      → first_worker p.workers ≡ some Worker.sleeping
      → run_pool p (map Action.turn schedule) ≡ some e
      → (first_worker e.pool.workers ≡ some Worker.sleeping)
        × (e.pool.shared.is_stopped ≡ p.shared.is_stopped)
  unfolding run_pool
  still_asleep [] p e asleep h =
      let same = ap (λ (e : Effect Task). e.pool) (some-injective _ _ h) in
      (
        sym (ap (λ (q : Pool Task). first_worker q.workers) same) ∙ asleep,
        sym (ap (λ (q : Pool Task). q.shared.is_stopped) same),
      )
  still_asleep (i ∷ schedule) p e asleep h =
      let (first, did, later) = >>=-eq-some (perform p (Action.turn i)) _ h in
      let (rest, ran, result) =
        >>=-eq-some (run_pool first.pool (map Action.turn schedule)) _ later in
      let (still, stopped) = TurnOf-first_worker (perform-TurnOf p i first did) asleep in
      let (still', stopped') = still_asleep schedule first.pool rest still ran in
      let last = ap (λ (e : Effect Task). e.pool) (some-injective _ _ result) in
      (
        sym (ap (λ (q : Pool Task). first_worker q.workers) last) ∙ still',
        sym (ap (λ (q : Pool Task). q.shared.is_stopped) last) ∙ stopped' ∙ stopped,
      )

  ready_woken :
      (n : ℕ) → map (wake {Task = Task}) (replicate n Worker.ready) ≡ replicate n Worker.ready
  ready_woken zero = refl
  ready_woken (suc n) = ap (λ l. Worker.ready ∷ l) (ready_woken n)

  -- A stopped pool whose first worker sleeps, and the others are about to lock the mutex.
  abbrev pub slept : ℕ → Pool Task
  slept n = record {
    shared = record { tasks = []; is_stopped = true; is_paused = false };
    workers = Worker.sleeping ∷ replicate n Worker.ready;
  }

  falls_asleep :
      (n concurrency : ℕ)
      → run_pool
          (new_pool (suc n) concurrency)
          (Action.turn 0 ∷ Action.set_stop ∷ Action.notify_all ∷ Action.turn 0 ∷ [])
        ≡ some (record { pool = slept n; joined = []; gone = [] })
  unfolding run_pool perform turn_at worker_turn new_pool is_mutex_free enter may_proceed
  falls_asleep n concurrency =
      let some_threads : (suc n == 0) ≡ false = ground arith in
      simp (some_threads, ready_free Task n, ready_woken n) refl

  -- A wake-up is lost, in a new pool of any number of threads: the first worker finds the predicate
  -- false; `stop`, which does not lock the mutex, sets its flag and notifies before that worker is
  -- asleep; the worker falls asleep, in a stopped pool. Then, whatever turns the workers take, it
  -- never wakes up, so that the join of it never returns. (Unless another thread notifies again.)
  pub stop_lost_wakeup :
      (n concurrency : ℕ) (schedule : List ℕ) (e : Effect Task)
      → run_pool (slept n) (map Action.turn schedule) ≡ some e
      → (run_pool
            (new_pool (suc n) concurrency)
            (Action.turn 0 ∷ Action.set_stop ∷ Action.notify_all ∷ Action.turn 0 ∷ [])
          ≡ some (record { pool = slept n; joined = []; gone = [] }))
        × (first_worker e.pool.workers ≡ some Worker.sleeping)
        × (e.pool.shared.is_stopped ≡ true)
  stop_lost_wakeup n concurrency schedule e h =
      let (asleep, stopped) = still_asleep schedule (slept n) e refl h in
      (falls_asleep n concurrency, asleep, stopped)
