-- ===== src/Workers/RoundRobin.antt =====
-- The order in which workers.ts hands its workers out.
use a_meet.Prelude.{
  ℕ, zero, suc, ◌+◌, ◌%◌, ◌<◌, ◌≡◌, refl, ap, ◌∙◌, Option, none, some, List, [], ◌∷◌, arith, length,
  length-append, get_elem?, ◌⊎◌, inl,
}
use native.Mathlib.Nat.{mod-add-mod}
use a_meet.Workers.{Pool, create_workers, on_died, get_worker, close_workers}

-- The index points at a worker whenever there is one.
pub record IsValid (p : Pool) : Type 0 where
  pub in_range : (p.next_worker_idx ≡ 0) ⊎ (p.next_worker_idx < length p.workers)

-- The operations of the pool.
pub data Op : Type 0 where
  create : List ℕ → Op
  died take_worker close : Op

pub apply : Op → Pool → Pool
apply (create pids) p = create_workers pids p
apply died p = on_died p
apply take_worker p = elim (get_worker p) [ none ↦ p | some (w, q) ↦ q ]
apply close p = close_workers p

-- Every operation of the pool leaves the index at a worker, or at 0 in an empty pool.
pub apply-IsValid : (op : Op) (p : Pool) → IsValid p → IsValid (apply op p)
unfolding apply create_workers on_died get_worker close_workers
apply-IsValid (create pids) p v = record { in_range = ground (arith, length-append p.workers pids) }
apply-IsValid died p v = record { in_range = v.in_range }
apply-IsValid take_worker p v = record { in_range = grind arith }
apply-IsValid close p v = record { in_range = inl refl }

-- The workers of `k` calls in a row.
pub take_workers : ℕ → Pool → List (Option ℕ)
take_workers zero p = []
take_workers (suc k) p = elim (get_worker p) [ none ↦ [] | some (w, q) ↦ w ∷ take_workers k q ]

mod_step : (i k n : ℕ) → ((i + 1) % n + k) % n ≡ (i + suc k) % n
mod_step i k n = mod-add-mod (i + 1) n k ∙ ap (λ (t : ℕ). t % n) (omega arith)

abbrev pub advance : Pool → Pool
advance p = record p { next_worker_idx = (p.next_worker_idx + 1) % length p.workers }

pub get_worker-some :
    (p : Pool)
    → 0 < length p.workers
    → get_worker p ≡ some (get_elem? p.workers p.next_worker_idx, advance p)
unfolding get_worker
get_worker-some p h = ground arith

-- Of calls in a row on a pool with workers, the one at place `j` gets the worker that stands `j`
-- places behind the index, counted round the pool.
pub take_workers-nth :
    (k j : ℕ) (p : Pool)
    → 0 < length p.workers
    → p.next_worker_idx < length p.workers
    → j < k
    → get_elem? (take_workers k p) j
      ≡ some (get_elem? p.workers ((p.next_worker_idx + j) % length p.workers))
unfolding take_workers
take_workers-nth zero j p h i lt = absurd (omega arith)
take_workers-nth (suc k) zero p h i lt =
    let at : (p.next_worker_idx + 0) % length p.workers ≡ p.next_worker_idx = grind arith in
    rw (get_worker-some p h, take_workers) (rw at)
take_workers-nth (suc k) (suc j) p h i lt =
    let bound : (p.next_worker_idx + 1) % length p.workers < length p.workers = grind arith in
    rw (get_worker-some p h, take_workers)
      (take_workers-nth k j (advance p) h bound (omega arith)
        ∙ ap (λ (t : ℕ). some (get_elem? p.workers t))
            (mod_step p.next_worker_idx j (length p.workers)))
