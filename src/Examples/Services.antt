-- ===== src/Examples/Services.antt =====
-- A registry with one service, two stored values and two queued tasks.
use access_control.Prelude.{
  ℕ, ◌≡◌, refl, true, false, [], ◌∷◌, ok, nat_eq, ◌==◌, if◌then◌else◌, Bool-cases, inl, inr,
  out_of_range,
}
use access_control.Services.{
  ServiceRegistry, service_registered, forget, register_service, unregister_service,
  unregister_interface,
}
use access_control.Services.Invariant.{IsValid, Reach, start, later, registers, Reach-IsValid}
use access_control.Services.Leaving.{unregister_service_free, unregister_interface_held}
use access_control.Registry.{Registry}
use access_control.Tasks.{
  Scheduler, Task, acts, enqueues, raises, new_task, new_scheduler, set_on_failure, main, enqueue,
  update, queue_of,
}
use access_control.Tasks.Fifo.{IsFifo, Reach-IsFifo, enqueues_task}
use access_control.Tasks.Fifo as Fifo
use access_control.Tasks.Rounds.{AllQuiet, Served, update-Served}

abbrev one_service : ServiceRegistry
one_service = record {
  services = (4, 0) ∷ [];
  registrations = record { service_interface = 4; raw_service = 9; unique_service = 0 } ∷ [];
  held = [];
  events = service_registered 4 ∷ [];
}

one_service_reached : Reach one_service
unfolding register_service
one_service_reached = later start (registers 4 9 0 refl)

Reach-IsValid_example : IsValid one_service
Reach-IsValid_example = Reach-IsValid one_service_reached

abbrev in_use : ServiceRegistry
in_use = record one_service { held = 0 ∷ [] }

in_use-IsValid : IsValid in_use
in_use-IsValid =
    let v = Reach-IsValid one_service_reached in
    record { distinct = v.distinct; typed = v.typed; made = v.made; heard = v.heard }

unregister_service_free_example : unregister_service 0 in_use ≡ ok (false, in_use)
unregister_service_free_example = unregister_service_free in_use in_use-IsValid 4 0 refl

unregister_interface_held_example : unregister_interface 4 in_use ≡ (true, forget 4 in_use)
unregister_interface_held_example = unregister_interface_held in_use in_use-IsValid 4 0 refl

abbrev kept : Registry ℕ ℕ
kept = record {
  expiry = (1, 50) ∷ [];
  store = (1, record { type_id = 1; value = 7 }) ∷ (2, record { type_id = 1; value = 8 }) ∷ [];
}

-- Task 1 enqueues task 2, and every other task fails.
unfoldable jobs : ℕ → Task
unfolding new_task set_on_failure
jobs n =
    if n == 1
    then new_task (acts 5 ∷ enqueues main 2 ∷ []) true
    else set_on_failure (acts 6 ∷ []) (new_task (raises out_of_range ∷ []) true)

abbrev waiting : Scheduler
waiting = enqueue 3 main (enqueue 1 main (new_scheduler jobs))

Reach-IsFifo_example : IsFifo waiting
Reach-IsFifo_example =
    Reach-IsFifo
      (Fifo.later (Fifo.later (Fifo.start jobs) (enqueues_task 1 main)) (enqueues_task 3 main))

waiting_quiet : AllQuiet waiting
unfolding jobs enqueue new_scheduler
waiting_quiet i = elim (Bool-cases (i == 1)) [
  | inl first ↦ rw first (refl, refl, refl)
  | inr other ↦ rw other (refl, refl, refl)
]

update-Served_example :
    (u : Scheduler) × (update main (λ n. 8 ∷ []) waiting ≡ ok u)
    × Served main (queue_of main waiting) [] waiting u
update-Served_example = update-Served main (λ n. 8 ∷ []) waiting waiting_quiet

waiting_queue : queue_of main waiting ≡ 1 ∷ 3 ∷ []
unfolding enqueue new_scheduler
waiting_queue = refl
