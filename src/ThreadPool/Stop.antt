-- ===== src/ThreadPool/Stop.antt =====
-- Stopping the pool: when workers return.
use mathlib.Core.Option.{some-injective}
use mathlib.Core.Path.{subst}
use rift_net.Base.{
  ℕ, zero, suc, ◌≡◌, refl, sym, ap, ap₂, ◌∙◌, Bool, true, false, not, ◌||◌, if◌then◌else◌,
  >>=-eq-some, Option, some, List, [], ◌∷◌, map, replicate, Bool-cases, inl, inr,
}
use rift_net.ThreadPool.{
  Shared, Worker, Pool, Action, Effect, perform, run_pool, is_mutex_free, new_pool, wake, wake_at,
}
use rift_net.ThreadPool.Turns.{
  is_exited, has_exited, Drained, Turn, commit, leave, take, spin, sleep, finish, TurnOf, here,
  there, perform-TurnOf,
}

no_one_exited :
    (Task : Type 0) (count : ℕ) → has_exited {Task = Task} (replicate count Worker.ready) ≡ false
unfolding has_exited
no_one_exited Task zero = refl
no_one_exited Task (suc count) = no_one_exited Task count

module _ {Task : Type 0} where
  abbrev Sound : Shared Task → List (Worker Task) → Type 0
  Sound s workers = has_exited workers ≡ true → Drained s

  Turn-Drained :
      {s s' : Shared Task} {w w' : Worker Task} {took : List Task}
      → Turn s s' w w' took
      → Drained s
      → Drained s'
  Turn-Drained (commit h) d = d
  Turn-Drained (leave h k) d = d
  Turn-Drained (take task tasks h k) d = absurd (cc (k, d.1))
  Turn-Drained (spin h k l) d = d
  Turn-Drained sleep d = d
  Turn-Drained (finish task) d = d

  TurnOf-Drained :
      {s s' : Shared Task} {workers workers' : List (Worker Task)}
      → TurnOf s s' workers workers'
      → Drained s
      → Drained s'
  TurnOf-Drained (here workers t) d = Turn-Drained t d
  TurnOf-Drained (there w t) d = TurnOf-Drained t d

  TurnOf-Sound :
      {s s' : Shared Task} {workers workers' : List (Worker Task)}
      → TurnOf s s' workers workers'
      → Sound s workers
      → Sound s' workers'
  unfolding has_exited
  TurnOf-Sound (here workers (commit h)) v = v
  TurnOf-Sound (here workers (leave h k)) v = λ _. (h, k)
  TurnOf-Sound (here workers (take task tasks h k)) v = λ x. absurd (cc (k, (v x).1))
  TurnOf-Sound (here workers (spin h k l)) v = v
  TurnOf-Sound (here workers sleep) v = v
  TurnOf-Sound (here workers (finish task)) v = v
  TurnOf-Sound (there {workers' = after} w t) v = elim (Bool-cases (is_exited w)) [
    | inl out ↦ λ _. TurnOf-Drained t (v (rw out refl))
    | inr in_ ↦
        λ x. TurnOf-Sound t (λ y. v (rw in_ y)) (subst (λ b. (b || has_exited after) ≡ true) in_ x)
  ]

  has_exited-wake :
      (workers : List (Worker Task)) → has_exited (map wake workers) ≡ has_exited workers
  unfolding has_exited
  has_exited-wake [] = refl
  has_exited-wake (w ∷ workers) = ap₂ (◌||◌) (is_exited_wake w) (has_exited-wake workers)
    where
      is_exited_wake : (w : Worker Task) → is_exited (wake w) ≡ is_exited w
      is_exited_wake Worker.ready = refl
      is_exited_wake Worker.committed = refl
      is_exited_wake Worker.sleeping = refl
      is_exited_wake Worker.exited = refl
      is_exited_wake (Worker.running task) = refl

  has_exited-wake_at :
      (workers : List (Worker Task)) (i : ℕ) → has_exited (wake_at workers i) ≡ has_exited workers
  unfolding has_exited wake_at
  has_exited-wake_at [] i = refl
  has_exited-wake_at (Worker.ready ∷ workers) zero = refl
  has_exited-wake_at (Worker.committed ∷ workers) zero = refl
  has_exited-wake_at (Worker.sleeping ∷ workers) zero = refl
  has_exited-wake_at (Worker.exited ∷ workers) zero = refl
  has_exited-wake_at (Worker.running task ∷ workers) zero = refl
  has_exited-wake_at (w ∷ workers) (suc i) =
      ap (λ b. is_exited w || b) (has_exited-wake_at workers i)

  if-Sound :
      (p : Pool Task) (t : Bool) (x y : Option (Effect Task)) (e : Effect Task)
      → (t ≡ true → x ≡ some e → Sound e.pool.shared e.pool.workers)
      → (t ≡ false → y ≡ some e → Sound e.pool.shared e.pool.workers)
      → (if t then x else y) ≡ some e
      → Sound e.pool.shared e.pool.workers
  if-Sound p true x y e dx dy h = dx refl h
  if-Sound p false x y e dx dy h = dy refl h

  perform-Sound :
      (p : Pool Task) (action : Action Task) (e : Effect Task)
      → perform p action ≡ some e
      → Sound p.shared p.workers
      → Sound e.pool.shared e.pool.workers
  unfolding perform
  perform-Sound p (Action.enqueue task) e h v =
      if-Sound p (not (is_mutex_free p.workers)) _ _ e (λ _ n. cc n)
        (λ _.
          if-Sound p p.shared.is_stopped _ _ e
            (λ _ r.
              subst (λ (e : Effect Task). Sound e.pool.shared e.pool.workers) (some-injective _ _ r)
                v)
            (λ open_still r.
              subst (λ (e : Effect Task). Sound e.pool.shared e.pool.workers) (some-injective _ _ r)
                (λ x. absurd (cc (open_still, (v x).0)))))
        h
  perform-Sound p (Action.notify_one i) e h v =
      subst (λ (e : Effect Task). Sound e.pool.shared e.pool.workers) (some-injective _ _ h)
        (λ x. v (sym (has_exited-wake_at p.workers i) ∙ x))
  perform-Sound p Action.set_stop e h v =
      subst (λ (e : Effect Task). Sound e.pool.shared e.pool.workers) (some-injective _ _ h)
        (λ x. (refl, (v x).1))
  perform-Sound p Action.notify_all e h v =
      subst (λ (e : Effect Task). Sound e.pool.shared e.pool.workers) (some-injective _ _ h)
        (λ x. v (sym (has_exited-wake p.workers) ∙ x))
  perform-Sound p Action.pause e h v =
      subst (λ (e : Effect Task). Sound e.pool.shared e.pool.workers) (some-injective _ _ h) v
  perform-Sound p Action.set_resumed e h v =
      subst (λ (e : Effect Task). Sound e.pool.shared e.pool.workers) (some-injective _ _ h) v
  perform-Sound p Action.clear_queue e h v =
      if-Sound p (is_mutex_free p.workers) _ _ e
        (λ _ r.
          subst (λ (e : Effect Task). Sound e.pool.shared e.pool.workers) (some-injective _ _ r)
            (λ x. ((v x).0, refl)))
        (λ _ n. cc n) h
  perform-Sound p (Action.turn i) e h v = TurnOf-Sound (perform-TurnOf p i e h) v

  run_pool-Sound :
      (actions : List (Action Task)) (p : Pool Task) (e : Effect Task)
      → run_pool p actions ≡ some e
      → Sound p.shared p.workers
      → Sound e.pool.shared e.pool.workers
  unfolding run_pool
  run_pool-Sound [] p e h v =
      subst (λ (e : Effect Task). Sound e.pool.shared e.pool.workers) (some-injective _ _ h) v
  run_pool-Sound (action ∷ actions) p e h v =
      let (first, did, later) = >>=-eq-some (perform p action) _ h in
      let (rest, ran, result) = >>=-eq-some (run_pool first.pool actions) _ later in
      subst (λ (e : Effect Task). Sound e.pool.shared e.pool.workers) (some-injective _ _ result)
        (run_pool-Sound actions first.pool rest ran (perform-Sound p action first did v))

  -- A worker returns only from a pool that is stopped and whose queue is empty, and both stay so: in
  -- any run of a new pool, once some worker has returned, no accepted task waits in the queue.
  pub run_pool-Drained :
      (threads concurrency : ℕ) (actions : List (Action Task)) (e : Effect Task)
      → run_pool (new_pool threads concurrency) actions ≡ some e
      → has_exited e.pool.workers ≡ true
      → (e.pool.shared.is_stopped ≡ true) × (e.pool.shared.tasks ≡ [])
  unfolding new_pool
  run_pool-Drained threads concurrency actions e h out =
      run_pool-Sound actions (new_pool threads concurrency) e h
        (λ x. absurd (cc (no_one_exited Task _, x))) out
