-- ===== src/Workers.antt =====
-- server/src/sfu/workers.ts: the pool of mediasoup workers, known by their process ids, which
-- mediasoup gives out.
pub mod RoundRobin
mod Tests
use a_meet.Prelude.{
  ℕ, zero, suc, ◌+◌, ◌%◌, ◌<◌, Bool, true, false, not, ◌&&◌, Option, none, some, List, [], ◌∷◌,
  ◌++◌, ltb, nat_beq, if◌then◌else◌, length, get_elem?,
}

pub record Pool : Type 0 where
  pub workers : List ℕ
  pub next_worker_idx : ℕ
  pub a_worker_died : Bool

unfoldable pub empty : Pool
empty = record { workers = []; next_worker_idx = 0; a_worker_died = false }

-- `env.mediasoup.numWorkers || os.cpus().length`
pub worker_count : ℕ → ℕ → ℕ
worker_count num_workers cpus = if nat_beq num_workers 0 then cpus else num_workers

-- The pids are those of the workers that mediasoup starts, `worker_count` of them.
unfoldable pub create_workers : List ℕ → Pool → Pool
create_workers pids p = record p { workers = p.workers ++ pids; a_worker_died = false }

unfoldable pub on_died : Pool → Pool
on_died p = record p { a_worker_died = true }

unfoldable pub are_workers_alive : Pool → Bool
are_workers_alive p = ltb 0 (length p.workers) && not p.a_worker_died

-- `none` is the error that the pool is not initialised. An index out of range is no worker.
unfoldable pub get_worker : Pool → Option (Option ℕ × Pool)
get_worker p =
    if nat_beq (length p.workers) 0
    then none
    else some (
      get_elem? p.workers p.next_worker_idx,
      record p { next_worker_idx = (p.next_worker_idx + 1) % length p.workers },
    )

unfoldable pub close_workers : Pool → Pool
close_workers p = record { workers = []; next_worker_idx = 0; a_worker_died = false }
