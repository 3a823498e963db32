-- ===== src/ThreadPool/Termination.antt =====
-- The workers of a stopped pool come to an end.
use mathlib.Core.Option.{some-injective}
use mathlib.Core.Path.{subst}
use rift_net.Base.{
  ℕ, suc, ◌+◌, ◌*◌, ◌≤◌, ◌<◌, ◌≡◌, ◌⊎◌, refl, ap, Bool, true, false, ◌>>=◌, >>=-eq-some, Option,
  none, some, List, [], ◌∷◌, map, length, inl, inr, arith, All,
}
use rift_net.ThreadPool.{
  Shared, Worker, Pool, Action, Effect, may_proceed, worker_turn, turn_at, perform, run_pool,
  is_mutex_free,
}
use rift_net.ThreadPool.Turns.{
  Turn, commit, leave, take, spin, sleep, finish, TurnOf, here, there, perform-TurnOf,
}

has_turn : {A B : Type 0} (m : Option A) (f : A → B) → (m >>= λ a. some (f a)) ≡ none → m ≡ none
has_turn none f h = refl
has_turn (some a) f h = cc h

module _ {Task : Type 0} where
  -- How many turns of its own a worker can still take when no task is left.
  abbrev weight : Worker Task → ℕ
  weight Worker.ready = 1
  weight Worker.committed = 1
  weight Worker.sleeping = 0
  weight Worker.exited = 0
  weight (Worker.running task) = 2

  abbrev weights : List (Worker Task) → ℕ
  weights [] = 0
  weights (w ∷ workers) = weight w + weights workers

  -- A bound on the turns that the workers of a stopped pool can take.
  abbrev pub turns_left : Pool Task → ℕ
  turns_left p = 2 * length p.shared.tasks + weights p.workers

  abbrev Stopping : Shared Task → Type 0
  Stopping s = (s.is_stopped ≡ true) × (s.is_paused ≡ false)

  Turn-weight :
      {s s' : Shared Task} {w w' : Worker Task} {took : List Task}
      → Turn s s' w w' took
      → Stopping s
      → Stopping s' × (2 * length s'.tasks + weight w' < 2 * length s.tasks + weight w)
  unfolding may_proceed
  Turn-weight {s = s} (commit h) (stopped, resumed) = absurd (ground (arith, h, stopped))
  Turn-weight (leave h k) v = (v, omega arith)
  Turn-weight (take task tasks h k) v = (v, omega (arith, ap length k))
  Turn-weight (spin h k l) v = absurd (cc (k, v.1))
  Turn-weight sleep v = (v, omega arith)
  Turn-weight (finish task) v = (v, omega arith)

  TurnOf-weight :
      {s s' : Shared Task} {workers workers' : List (Worker Task)}
      → TurnOf s s' workers workers'
      → Stopping s
      → Stopping s'
        × (2 * length s'.tasks + weights workers' < 2 * length s.tasks + weights workers)
  TurnOf-weight (here workers t) v = let (v', less) = Turn-weight t v in (v', omega arith)
  TurnOf-weight (there w t) v = let (v', less) = TurnOf-weight t v in (v', omega arith)

  -- Once `stop` was called on a pool that is not paused, its workers cannot go on for ever: any
  -- sequence of turns of them is at most `turns_left` long, two for each queued task, two for each
  -- running one and one for each other worker that is awake.
  pub stop_terminates :
      (schedule : List ℕ) (p : Pool Task) (e : Effect Task)
      → p.shared.is_stopped ≡ true
      → p.shared.is_paused ≡ false
      → run_pool p (map Action.turn schedule) ≡ some e
      → length schedule + turns_left e.pool ≤ turns_left p
  unfolding run_pool
  stop_terminates [] p e stopped resumed h =
      subst (λ (e : Effect Task). 0 + turns_left e.pool ≤ turns_left p) (some-injective _ _ h)
        (omega arith)
  stop_terminates (i ∷ schedule) p e stopped resumed h =
      let (first, did, later) = >>=-eq-some (perform p (Action.turn i)) _ h in
      let (rest, ran, result) =
        >>=-eq-some (run_pool first.pool (map Action.turn schedule)) _ later in
      let (v, less) = TurnOf-weight (perform-TurnOf p i first did) (stopped, resumed) in
      let more = stop_terminates schedule first.pool rest v.0 v.1 ran in
      subst (λ (e : Effect Task). suc (length schedule) + turns_left e.pool ≤ turns_left p)
        (some-injective _ _ result) (omega arith)

  abbrev Idle : Worker Task → Type 0
  Idle w = (w ≡ Worker.exited) ⊎ (w ≡ Worker.sleeping)

  workers-Idle :
      (s : Shared Task) (workers : List (Worker Task))
      → ((i : ℕ) → turn_at true s workers i ≡ none)
      → All Idle workers
  unfolding turn_at worker_turn
  workers-Idle s [] none_moves = tt
  workers-Idle s (Worker.ready ∷ workers) none_moves = absurd (cc (none_moves 0))
  workers-Idle s (Worker.committed ∷ workers) none_moves = absurd (cc (none_moves 0))
  workers-Idle s (Worker.running task ∷ workers) none_moves = absurd (cc (none_moves 0))
  workers-Idle s (Worker.sleeping ∷ workers) none_moves =
      (inr refl, workers-Idle s workers (λ i. has_turn _ _ (none_moves (suc i))))
  workers-Idle s (Worker.exited ∷ workers) none_moves =
      (inl refl, workers-Idle s workers (λ i. has_turn _ _ (none_moves (suc i))))

  unblocked :
      (is_free : Bool) (s : Shared Task) (workers : List (Worker Task))
      → ((i : ℕ) → turn_at is_free s workers i ≡ none)
      → is_mutex_free workers ≡ true
  unfolding turn_at worker_turn is_mutex_free
  unblocked is_free s [] none_moves = refl
  unblocked is_free s (Worker.ready ∷ workers) none_moves =
      unblocked is_free s workers (λ i. has_turn _ _ (none_moves (suc i)))
  unblocked is_free s (Worker.committed ∷ workers) none_moves = absurd (cc (none_moves 0))
  unblocked is_free s (Worker.running task ∷ workers) none_moves = absurd (cc (none_moves 0))
  unblocked is_free s (Worker.sleeping ∷ workers) none_moves =
      unblocked is_free s workers (λ i. has_turn _ _ (none_moves (suc i)))
  unblocked is_free s (Worker.exited ∷ workers) none_moves =
      unblocked is_free s workers (λ i. has_turn _ _ (none_moves (suc i)))

  -- When no worker can take a turn, every one of them has returned or is asleep.
  perform_stuck :
      (p : Pool Task)
      → ((i : ℕ) → perform p (Action.turn i) ≡ none)
      → All (λ w. (w ≡ Worker.exited) ⊎ (w ≡ Worker.sleeping)) p.workers
  unfolding perform
  perform_stuck p none_moves =
      let blocked : (i : ℕ) → turn_at (is_mutex_free p.workers) p.shared p.workers i ≡ none =
        λ i. has_turn _ _ (none_moves i) in
      workers-Idle p.shared p.workers (
        subst (λ b. (i : ℕ) → turn_at b p.shared p.workers i ≡ none)
          (unblocked (is_mutex_free p.workers) p.shared p.workers blocked) blocked)
