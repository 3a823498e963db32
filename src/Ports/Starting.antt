-- ===== src/Ports/Starting.antt =====
-- `Start` and the workers that it makes.
use rift_net.Base.{
  ℕ, zero, suc, ◌<◌, ◌≡◌, ◌⊎◌, refl, ap, ◌∙◌, inl, inr, Bool, true, false, not, ltb, if-either,
  List, [], ◌++◌, length, replicate, arith,
}
use rift_net.Ports.{
  IocpManager, Phase, testing, null_handle, open_handle, determine_num_worker_threads, start,
  begin_stop, finish_stop,
}

length-replicate : (n : ℕ) (phase : Phase) → length (replicate n phase) ≡ n
length-replicate zero phase = refl
length-replicate (suc n) phase = omega (arith, length-replicate n phase)

determine_num_worker_threads_positive :
    (concurrent hardware : ℕ) → 0 < determine_num_worker_threads concurrent hardware
unfolding determine_num_worker_threads
determine_num_worker_threads_positive concurrent hardware = ground arith

-- What `Start` returns with: the state before, and the result.
abbrev pub Started : IocpManager → ℕ → IocpManager × Bool → Type 0
Started s count (s', ok) =
    ((s.is_running ≡ true) × (ok ≡ true) × (s' ≡ s))
    ⊎ ((s.is_running ≡ false)
        × (ok ≡ true)
        × (s'.is_running ≡ true)
        × (s'.iocp_handle ≡ open_handle)
        × (length s'.worker_threads ≡ count)
        × (0 < length s'.worker_threads))
    ⊎ ((s.is_running ≡ false)
        × (ok ≡ false)
        × (s'.is_running ≡ false)
        × (s'.iocp_handle ≡ null_handle)
        × (s'.worker_threads ≡ []))

-- A running manager's `Start` changes nothing and succeeds. Else it either succeeds, with the port
-- open and as many workers as were asked for (or as the hardware has, or four), at least one; or it
-- fails, and there is then no port and no worker, also when some of the threads had been made. (A
-- manager that is not running has no workers.)
pub start-Started :
    (s : IocpManager) (concurrent hardware : ℕ) (port_created : Bool) (spawned : ℕ)
    → s.worker_threads ≡ []
    → Started s
        (determine_num_worker_threads concurrent hardware)
        (start s concurrent hardware port_created spawned)
unfolding start begin_stop finish_stop
start-Started s concurrent hardware port_created spawned h =
    let count = determine_num_worker_threads concurrent hardware in
    let P : IocpManager × Bool → Type 0 = Started s count in
    let many : length (s.worker_threads ++ replicate count testing) ≡ count =
      ap (λ (ws : List Phase). length (ws ++ replicate count testing)) h
      ∙ length-replicate count testing in
    if-either P s.is_running _ _ (λ running. inl (running, refl, refl))
      (λ idle.
        if-either P (not port_created) _ _ (λ e. inr (inr (idle, refl, idle, refl, h)))
          (λ created.
            if-either P (ltb spawned count) _ _ (λ few. inr (inr (idle, refl, refl, refl, refl)))
              (λ made. inr (
                inl (
                  idle,
                  refl,
                  refl,
                  refl,
                  many,
                  omega (arith, many, determine_num_worker_threads_positive concurrent hardware),
                )))))
