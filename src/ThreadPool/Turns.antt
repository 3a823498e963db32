-- ===== src/ThreadPool/Turns.antt =====
-- What one turn of a worker can be, as a relation.
use mathlib.Core.Option.{some-injective}
use mathlib.Core.Path.{subst}
use rift_net.Base.{
  ℕ, zero, suc, ◌≡◌, refl, Bool, true, false, ◌||◌, >>=-eq-some, some, List, [], ◌∷◌, is_empty,
}
use rift_net.ThreadPool.{
  Shared, Worker, Pool, Action, Effect, may_proceed, enter, worker_turn, turn_at, perform,
  is_mutex_free,
}

module _ {Task : Type 0} where
  abbrev pub is_exited : Worker Task → Bool
  is_exited Worker.exited = true
  is_exited Worker.ready = false
  is_exited Worker.committed = false
  is_exited Worker.sleeping = false
  is_exited (Worker.running task) = false

  -- Has some worker returned?
  unfoldable pub has_exited : List (Worker Task) → Bool
  has_exited [] = false
  has_exited (w ∷ workers) = is_exited w || has_exited workers

  abbrev pub Drained : Shared Task → Type 0
  Drained s = (s.is_stopped ≡ true) × (s.tasks ≡ [])

  -- A turn does not touch the flags.
  abbrev pub SameFlags : Shared Task → Shared Task → Type 0
  SameFlags s s' = (s'.is_stopped ≡ s.is_stopped) × (s'.is_paused ≡ s.is_paused)

  -- What one worker's step can be.
  pub data Turn (s : Shared Task)
      : Shared Task → Worker Task → Worker Task → List Task → Type 0 where
    commit : may_proceed s ≡ false → Turn s s Worker.ready Worker.committed []
    leave : s.is_stopped ≡ true → s.tasks ≡ [] → Turn s s Worker.ready Worker.exited []
    take :
        (task : Task) (tasks : List Task)
        → s.is_paused ≡ false
        → s.tasks ≡ task ∷ tasks
        → Turn s (record s { tasks = tasks }) Worker.ready (Worker.running task) (task ∷ [])
    spin :
        s.is_stopped ≡ true
        → s.is_paused ≡ true
        → is_empty s.tasks ≡ false
        → Turn s s Worker.ready Worker.ready []
    sleep : Turn s s Worker.committed Worker.sleeping []
    finish : (task : Task) → Turn s s (Worker.running task) Worker.ready []

  enter-Turn :
      (is_stopped is_paused : Bool) (tasks : List Task)
      → let s : Shared Task = record {
        tasks = tasks;
        is_stopped = is_stopped;
        is_paused = is_paused;
      } in
        Turn s (enter s).0 Worker.ready (enter s).1 (enter s).2
  unfolding enter may_proceed
  enter-Turn true true [] = leave refl refl
  enter-Turn true false [] = leave refl refl
  enter-Turn false true [] = commit (unfold may_proceed in refl)
  enter-Turn false false [] = commit (unfold may_proceed in refl)
  enter-Turn true true (task ∷ tasks) = spin refl refl refl
  enter-Turn true false (task ∷ tasks) = take task tasks refl refl
  enter-Turn false true (task ∷ tasks) = commit (unfold may_proceed in refl)
  enter-Turn false false (task ∷ tasks) = take task tasks refl refl

  abbrev TurnTo : Shared Task → Worker Task → Shared Task × Worker Task × List Task → Type 0
  TurnTo s w r = Turn s r.0 w r.1 r.2

  worker_turn-Turn :
      (is_free : Bool) (s : Shared Task) (w : Worker Task)
      (r : Shared Task × Worker Task × List Task)
      → worker_turn is_free s w ≡ some r
      → TurnTo s w r
  unfolding worker_turn
  worker_turn-Turn true s Worker.ready r e =
      subst (TurnTo s Worker.ready) (some-injective _ _ e)
        (enter-Turn s.is_stopped s.is_paused s.tasks)
  worker_turn-Turn false s Worker.ready r e = cc e
  worker_turn-Turn is_free s Worker.committed r e =
      subst (TurnTo s Worker.committed) (some-injective _ _ e) sleep
  worker_turn-Turn is_free s Worker.sleeping r e = cc e
  worker_turn-Turn is_free s Worker.exited r e = cc e
  worker_turn-Turn is_free s (Worker.running task) r e =
      subst (TurnTo s (Worker.running task)) (some-injective _ _ e) (finish task)

  -- One worker of a list takes a turn.
  pub data TurnOf (s : Shared Task)
      : Shared Task → List (Worker Task) → List (Worker Task) → Type 0 where
    here :
        {s' : Shared Task} {w w' : Worker Task} {took : List Task} (workers : List (Worker Task))
        → Turn s s' w w' took
        → TurnOf s s' (w ∷ workers) (w' ∷ workers)
    there :
        {s' : Shared Task} {workers workers' : List (Worker Task)} (w : Worker Task)
        → TurnOf s s' workers workers'
        → TurnOf s s' (w ∷ workers) (w ∷ workers')

  abbrev TurnOfTo :
      Shared Task → List (Worker Task) → Shared Task × List (Worker Task) × List Task → Type 0
  TurnOfTo s workers r = TurnOf s r.0 workers r.1

  turn_at-TurnOf :
      (is_free : Bool) (s : Shared Task) (workers : List (Worker Task)) (i : ℕ)
      (r : Shared Task × List (Worker Task) × List Task)
      → turn_at is_free s workers i ≡ some r
      → TurnOfTo s workers r
  unfolding turn_at
  turn_at-TurnOf is_free s [] i r e = cc e
  turn_at-TurnOf is_free s (w ∷ workers) zero r e =
      let (first, did, result) = >>=-eq-some (worker_turn is_free s w) _ e in
      subst (TurnOfTo s (w ∷ workers)) (some-injective _ _ result)
        (here workers (worker_turn-Turn is_free s w first did))
  turn_at-TurnOf is_free s (w ∷ workers) (suc i) r e =
      let (first, did, result) = >>=-eq-some (turn_at is_free s workers i) _ e in
      subst (TurnOfTo s (w ∷ workers)) (some-injective _ _ result)
        (there w (turn_at-TurnOf is_free s workers i first did))

  pub perform-TurnOf :
      (p : Pool Task) (i : ℕ) (e : Effect Task)
      → perform p (Action.turn i) ≡ some e
      → TurnOf p.shared e.pool.shared p.workers e.pool.workers
  unfolding perform
  perform-TurnOf p i e h =
      let (first, did, result) =
        >>=-eq-some (turn_at (is_mutex_free p.workers) p.shared p.workers i) _ h in
      subst (λ (e : Effect Task). TurnOf p.shared e.pool.shared p.workers e.pool.workers)
        (some-injective _ _ result)
        (turn_at-TurnOf (is_mutex_free p.workers) p.shared p.workers i first did)
