-- ===== src/Workers/Tests.antt =====
-- Tests of the worker pool, and its theorems at concrete inputs.
use a_meet.Prelude.{◌≡◌, refl, true, false, none, [], ◌∷◌}
use a_meet.Workers.{
  Pool, empty, worker_count, create_workers, on_died, are_workers_alive, get_worker, close_workers,
}

abbrev three : Pool
three = record { workers = 101 ∷ 102 ∷ 103 ∷ []; next_worker_idx = 1; a_worker_died = false }

started :
    create_workers (101 ∷ 102 ∷ []) (on_died empty)
    ≡ record { workers = 101 ∷ 102 ∷ []; next_worker_idx = 0; a_worker_died = false }
unfolding create_workers on_died empty
started = refl

counts : (worker_count 0 8 ≡ 8) × (worker_count 3 8 ≡ 3)
unfolding worker_count
counts = (refl, refl)

ready :
    (are_workers_alive three ≡ true)
    × (are_workers_alive (on_died three) ≡ false)
    × (are_workers_alive (close_workers three) ≡ false)
unfolding are_workers_alive on_died close_workers
ready = (refl, refl, refl)

not_started : get_worker empty ≡ none
unfolding get_worker empty
not_started = refl
