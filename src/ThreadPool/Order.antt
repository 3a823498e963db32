-- ===== src/ThreadPool/Order.antt =====
-- The queue is first in, first out.
use rift_net.Base.{
  ℕ, zero, suc, ◌≡◌, refl, sym, ap, ◌∙◌, Bool, true, false, not, if◌then◌else◌, >>=-eq-some, Option,
  some, List, [], ◌∷◌, ◌++◌, map, append-nil, append_assoc,
}
use mathlib.Core.Option.{some-injective}
use mathlib.Core.Path.{subst}
use rift_net.ThreadPool.{
  is_mutex_free, Shared, Worker, Pool, Fate, Action, Effect, may_proceed, enter, worker_turn,
  turn_at, perform, run_pool,
}

append_three :
    {A : Type 0} (a b c d e f g : List A)
    → a ++ b ≡ d ++ e
    → e ++ c ≡ f ++ g
    → a ++ (b ++ c) ≡ (d ++ f) ++ g
append_three a b c d e f g h k =
    sym (append_assoc a b c)
    ∙ ap (λ l. l ++ c) h
    ∙ append_assoc d e c
    ∙ ap (λ l. d ++ l) k
    ∙ sym (append_assoc d f g)

module _ {Task : Type 0} where
  enter_order :
      (is_stopped is_paused : Bool) (tasks : List Task)
      → let s : Shared Task = record {
        tasks = tasks;
        is_stopped = is_stopped;
        is_paused = is_paused;
      } in
        tasks ≡ (enter s).2 ++ (enter s).0.tasks
  unfolding enter may_proceed
  enter_order true true [] = refl
  enter_order true false [] = refl
  enter_order false true [] = refl
  enter_order false false [] = refl
  enter_order true true (task ∷ tasks) = refl
  enter_order true false (task ∷ tasks) = refl
  enter_order false true (task ∷ tasks) = refl
  enter_order false false (task ∷ tasks) = refl

  worker_turn_order :
      (is_free : Bool) (s s' : Shared Task) (w w' : Worker Task) (took : List Task)
      → worker_turn is_free s w ≡ some (s', w', took)
      → s.tasks ≡ took ++ s'.tasks
  unfolding worker_turn
  worker_turn_order true s s' Worker.ready w' took e =
      let r = some-injective _ _ e in
      enter_order s.is_stopped s.is_paused s.tasks ∙ ap (λ r. r.2 ++ r.0.tasks) r
  worker_turn_order false s s' Worker.ready w' took e = cc e
  worker_turn_order is_free s s' Worker.committed w' took e =
      ap (λ r. r.2 ++ r.0.tasks) (some-injective _ _ e)
  worker_turn_order is_free s s' Worker.sleeping w' took e = cc e
  worker_turn_order is_free s s' Worker.exited w' took e = cc e
  worker_turn_order is_free s s' (Worker.running task) w' took e =
      ap (λ r. r.2 ++ r.0.tasks) (some-injective _ _ e)

  turn_at_order :
      (is_free : Bool) (s s' : Shared Task) (workers workers' : List (Worker Task)) (i : ℕ)
      (took : List Task)
      → turn_at is_free s workers i ≡ some (s', workers', took)
      → s.tasks ≡ took ++ s'.tasks
  unfolding turn_at
  turn_at_order is_free s s' [] workers' i took e = cc e
  turn_at_order is_free s s' (w ∷ workers) workers' zero took e =
      let ((s1, w1, took1), did, result) = >>=-eq-some (worker_turn is_free s w) _ e in
      worker_turn_order is_free s s1 w w1 took1 did
      ∙ ap (λ r. r.2 ++ r.0.tasks) (some-injective _ _ result)
  turn_at_order is_free s s' (w ∷ workers) workers' (suc i) took e =
      let ((s1, workers1, took1), did, result) = >>=-eq-some (turn_at is_free s workers i) _ e in
      turn_at_order is_free s s1 workers workers1 i took1 did
      ∙ ap (λ r. r.2 ++ r.0.tasks) (some-injective _ _ result)

  -- The tasks of what left a queue.
  abbrev pub departed : List (Task × Fate) → List Task
  departed gone = map (λ g. g.0) gone

  departed_all :
      (fate : Fate) (tasks : List Task) → departed (map (λ task. (task, fate)) tasks) ≡ tasks
  departed_all fate [] = refl
  departed_all fate (task ∷ tasks) = ap (◌∷◌ task) (departed_all fate tasks)

  departed-append : (xs ys : List (Task × Fate)) → departed (xs ++ ys) ≡ departed xs ++ departed ys
  departed-append [] ys = refl
  departed-append (x ∷ xs) ys = ap (◌∷◌ x.0) (departed-append xs ys)

  -- What a step does to the queue.
  abbrev Orderly : Pool Task → Effect Task → Type 0
  Orderly p e = p.shared.tasks ++ e.joined ≡ departed e.gone ++ e.pool.shared.tasks

  if-Orderly :
      (p : Pool Task) (t : Bool) (x y : Option (Effect Task)) (e : Effect Task)
      → (x ≡ some e → Orderly p e)
      → (y ≡ some e → Orderly p e)
      → (if t then x else y) ≡ some e
      → Orderly p e
  if-Orderly p true x y e dx dy h = dx h
  if-Orderly p false x y e dx dy h = dy h

  perform-Orderly :
      (p : Pool Task) (action : Action Task) (e : Effect Task)
      → perform p action ≡ some e
      → Orderly p e
  unfolding perform
  perform-Orderly p (Action.enqueue task) e h =
      if-Orderly p (not (is_mutex_free p.workers)) _ _ e (λ n. cc n)
        (if-Orderly p p.shared.is_stopped _ _ e
          (λ r. subst (Orderly p) (some-injective _ _ r) (append-nil p.shared.tasks))
          (λ r. subst (Orderly p) (some-injective _ _ r) refl))
        h
  perform-Orderly p (Action.notify_one i) e h =
      subst (Orderly p) (some-injective _ _ h) (append-nil p.shared.tasks)
  perform-Orderly p Action.set_stop e h =
      subst (Orderly p) (some-injective _ _ h) (append-nil p.shared.tasks)
  perform-Orderly p Action.notify_all e h =
      subst (Orderly p) (some-injective _ _ h) (append-nil p.shared.tasks)
  perform-Orderly p Action.pause e h =
      subst (Orderly p) (some-injective _ _ h) (append-nil p.shared.tasks)
  perform-Orderly p Action.set_resumed e h =
      subst (Orderly p) (some-injective _ _ h) (append-nil p.shared.tasks)
  perform-Orderly p Action.clear_queue e h =
      if-Orderly p (is_mutex_free p.workers) _ _ e
        (λ r. subst (Orderly p) (some-injective _ _ r) (
          append-nil p.shared.tasks
          ∙ sym (append-nil _ ∙ departed_all Fate.cleared p.shared.tasks)))
        (λ n. cc n) h
  perform-Orderly p (Action.turn i) e h =
      let ((s, workers, took), did, result) =
        >>=-eq-some (turn_at (is_mutex_free p.workers) p.shared p.workers i) _ h in
      subst (Orderly p) (some-injective _ _ result) (
        append-nil p.shared.tasks
        ∙ turn_at_order (is_mutex_free p.workers) p.shared s p.workers workers i took did
        ∙ ap (λ l. l ++ s.tasks) (sym (departed_all Fate.started took)))

  -- In any run, of any number of threads in any order: the tasks that were in the queue and those
  -- that joined it, in that order, are the tasks that left it, in the order in which they left,
  -- followed by those still in it. So every task leaves at most once, started or cleared, first in
  -- first out, and none is lost.
  pub run_pool_order :
      (actions : List (Action Task)) (p : Pool Task) (e : Effect Task)
      → run_pool p actions ≡ some e
      → p.shared.tasks ++ e.joined ≡ departed e.gone ++ e.pool.shared.tasks
  unfolding run_pool
  run_pool_order [] p e h = subst (Orderly p) (some-injective _ _ h) (append-nil p.shared.tasks)
  run_pool_order (action ∷ actions) p e h =
      let (first, did, later) = >>=-eq-some (perform p action) _ h in
      let (rest, ran, result) = >>=-eq-some (run_pool first.pool actions) _ later in
      subst (Orderly p) (some-injective _ _ result) (
        append_three p.shared.tasks first.joined rest.joined (departed first.gone)
          first.pool.shared.tasks (departed rest.gone) rest.pool.shared.tasks
          (perform-Orderly p action first did) (run_pool_order actions first.pool rest ran)
        ∙ ap (λ l. l ++ rest.pool.shared.tasks) (sym (departed-append first.gone rest.gone)))
