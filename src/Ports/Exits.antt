-- ===== src/Ports/Exits.antt =====
-- `Stop` can join its workers.
use rift_net.Base.{
  ℕ, zero, suc, ◌+◌, ◌-◌, ◌≤◌, ◌≡◌, ◌≢◌, refl, sym, ap, ◌∙◌, inl, inr, Bool, false, not, ◌==◌,
  if◌then◌else◌, if-either, if_true, Bool-cases, Option, none, some, List, [], ◌∷◌, arith,
}
use mathlib.Core.Path.{subst}
use rift_net.Ports.{
  IocpManager, Packet, poison_pill, operation, Phase, testing, waiting, handling, exited, PortEvent,
  takes_turn, operation_ends, stop_begins, begin_stop, take_packet, step_worker, phase_at,
  set_phase, turn, turn_of, happen, run_port,
}

-- How many turns a worker takes at most before it is out of the loop, once `Stop` has begun.
abbrev turns_left : Phase → ℕ
turns_left testing = 1
turns_left waiting = 3
turns_left (handling context bytes) = 2
turns_left exited = 0

abbrev pub turns_of : ℕ → List PortEvent → ℕ
turns_of i [] = 0
turns_of i (takes_turn j times_out ∷ events) = (if i == j then 1 else 0) + turns_of i events
turns_of i (operation_ends context bytes succeeded ∷ events) = turns_of i events
turns_of i (stop_begins ∷ events) = turns_of i events

take_packet-turns_left : (queue : List Packet) → turns_left (take_packet queue).0 ≤ 2
unfolding take_packet
take_packet-turns_left [] = omega arith
take_packet-turns_left (poison_pill ∷ queue) = omega arith
take_packet-turns_left (operation context bytes succeeded ∷ queue) = omega arith

step_worker-turns_left :
    (s : IocpManager) (phase : Phase) (times_out : Bool)
    → s.is_running ≡ false
    → turns_left (step_worker s phase times_out).0 ≤ turns_left phase - 1
unfolding step_worker
step_worker-turns_left s testing times_out stopped = simp stopped (omega arith)
step_worker-turns_left s waiting times_out stopped =
    if-either (λ (r : Phase × List Packet × List (ℕ × ℕ)). turns_left r.0 ≤ 2) times_out _ _
      (λ e. omega arith) (λ e. take_packet-turns_left s.queue)
step_worker-turns_left s (handling context bytes) times_out stopped = omega arith
step_worker-turns_left s exited times_out stopped = omega arith

phase_at-set_phase_self :
    (i : ℕ) (old new : Phase) (phases : List Phase)
    → phase_at i phases ≡ some old
    → phase_at i (set_phase i new phases) ≡ some new
phase_at-set_phase_self i old new [] h = cc h
phase_at-set_phase_self zero old new (phase ∷ phases) h = refl
phase_at-set_phase_self (suc i) old new (phase ∷ phases) h =
    phase_at-set_phase_self i old new phases h

phase_at-set_phase_ne :
    (i j : ℕ) (new : Phase) (phases : List Phase)
    → i ≢ j
    → phase_at i (set_phase j new phases) ≡ phase_at i phases
phase_at-set_phase_ne i j new [] h = refl
phase_at-set_phase_ne zero zero new (phase ∷ phases) h = absurd (h refl)
phase_at-set_phase_ne zero (suc j) new (phase ∷ phases) h = refl
phase_at-set_phase_ne (suc i) zero new (phase ∷ phases) h = refl
phase_at-set_phase_ne (suc i) (suc j) new (phase ∷ phases) h =
    phase_at-set_phase_ne i j new phases (λ e. h (ap suc e))

-- A worker of a stopped port with at most `n` turns left.
abbrev Nears : ℕ → ℕ → IocpManager → Type 0
Nears i n s =
    (s.is_running ≡ false)
    × (phase : Phase) × (phase_at i s.worker_threads ≡ some phase)
    × (turns_left phase ≤ n)

Nears-le : (s : IocpManager) (i : ℕ) {n m : ℕ} → Nears i n s → n ≤ m → Nears i m s
Nears-le s i (stopped, phase, at, few) h = (stopped, phase, at, omega arith)

own_turn :
    (s : IocpManager) (i n : ℕ) (times_out : Bool)
    → Nears i n s
    → Nears i (n - 1) (turn s i times_out).0
unfolding turn turn_of
own_turn s i n times_out (stopped, phase, at, near) =
    let r = step_worker s phase times_out in
    subst (λ found. Nears i (n - 1) (turn_of s i found times_out).0) (sym at)
      (
        stopped,
        r.0,
        phase_at-set_phase_self i phase r.0 s.worker_threads at,
        omega (arith, step_worker-turns_left s phase times_out stopped),
      )

other_turn :
    (s : IocpManager) (i j n : ℕ) (times_out : Bool)
    → i ≢ j
    → Nears i n s
    → Nears i n (turn s j times_out).0
unfolding turn
other_turn s i j n times_out apart near = of_phase (phase_at j s.worker_threads)
  where
    of_phase : (found : Option Phase) → Nears i n (turn_of s j found times_out).0
    of_phase none = near
    of_phase (some other) =
        let (stopped, phase, at, few) = near in
        (
          stopped,
          phase,
          phase_at-set_phase_ne i j (step_worker s other times_out).0 s.worker_threads apart ∙ at,
          few,
        )

begin_stop_again : (s : IocpManager) → s.is_running ≡ false → begin_stop s ≡ s
unfolding begin_stop
begin_stop_again s stopped = if_true (not s.is_running) _ _ (ap not stopped)

happen-Nears :
    (s : IocpManager) (i n : ℕ) (event : PortEvent)
    → Nears i n s
    → Nears i (n - turns_of i (event ∷ [])) (happen s event).0
unfolding happen
happen-Nears s i n (takes_turn j times_out) near = elim (Bool-cases (i == j)) [
  | inl e ↦
      let same : j ≡ i = ground arith in
      let one : n - 1 ≡ n - ((if i == j then 1 else 0) + 0) = ground arith in
      subst (λ m. Nears i m (turn s j times_out).0) one
        (subst (λ k. Nears i (n - 1) (turn s k times_out).0) (sym same)
          (own_turn s i n times_out near))
  | inr e ↦
      let none : n ≡ n - ((if i == j then 1 else 0) + 0) = ground arith in
      subst (λ m. Nears i m (turn s j times_out).0) none
        (other_turn s i j n times_out (ground arith) near)
]
happen-Nears s i n (operation_ends context bytes succeeded) near = Nears-le s i near (omega arith)
happen-Nears s i n stop_begins near =
    subst (Nears i (n - 0)) (sym (begin_stop_again s near.0)) (Nears-le s i near (omega arith))

turns_of-cons :
    (i : ℕ) (event : PortEvent) (events : List PortEvent)
    → turns_of i (event ∷ events) ≡ turns_of i (event ∷ []) + turns_of i events
turns_of-cons i (takes_turn j times_out) events = omega arith
turns_of-cons i (operation_ends context bytes succeeded) events = omega arith
turns_of-cons i stop_begins events = omega arith

run_port-Nears :
    (s : IocpManager) (i n : ℕ) (events : List PortEvent)
    → Nears i n s
    → Nears i (n - turns_of i events) (run_port s events).0
unfolding run_port
run_port-Nears s i n [] near = Nears-le s i near (omega arith)
run_port-Nears s i n (event ∷ events) near =
    let s1 = (happen s event).0 in
    let rest =
      run_port-Nears s1 i (n - turns_of i (event ∷ [])) events (happen-Nears s i n event near) in
    subst (λ m. Nears i m (run_port s1 events).0) (omega (arith, turns_of-cons i event events)) rest

turns_left_at_most : (phase : Phase) → turns_left phase ≤ 3
turns_left_at_most testing = omega arith
turns_left_at_most waiting = omega arith
turns_left_at_most (handling context bytes) = omega arith
turns_left_at_most exited = omega arith

out_of_turns : (phase : Phase) → turns_left phase ≤ 0 → phase ≡ exited
out_of_turns testing h = absurd (omega arith)
out_of_turns waiting h = absurd (omega arith)
out_of_turns (handling context bytes) h = absurd (omega arith)
out_of_turns exited h = refl

-- After `Stop` has begun, a worker is out of its loop once it has taken three turns (the end of a
-- wait, a call of the callback, a test of the loop's condition), whatever the other workers do,
-- whatever operations end, and whether its waits time out: so the joins of `Stop` return, if the
-- callback does.
pub run_port_exits :
    (s : IocpManager) (i : ℕ) (phase : Phase) (events : List PortEvent)
    → s.is_running ≡ false
    → phase_at i s.worker_threads ≡ some phase
    → 3 ≤ turns_of i events
    → phase_at i (run_port s events).0.worker_threads ≡ some exited
run_port_exits s i phase events stopped at enough =
    let first : Nears i 3 s = (stopped, phase, at, turns_left_at_most phase) in
    let (_, last, there, none_left) = run_port-Nears s i 3 events first in
    there ∙ ap some (out_of_turns last (omega arith))
