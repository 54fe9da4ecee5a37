-- ===== src/Pipeline/Pool.antt =====
-- `WorkerPool` of include/dpi/pipeline/worker_pool.h and src/pipeline/worker_pool.cpp, with the
-- queues of its worker threads. The threads themselves run in `Pipeline.QueueLaws`.
use packet_dpi_engine.Base.{
  ℕ, ◌+◌, ◌%◌, ◌^◌, Bool, true, false, List, Option, none, some, if◌then◌else◌, not, length,
  get_elem?, set, replicate, map, max, ◌==◌,
}
use packet_dpi_engine.Packet.Types.{PacketRecord}
use packet_dpi_engine.Flow.Key.{hash_key}
use packet_dpi_engine.Pipeline.Queue.{
  BoundedQueue, Outcome, blocked, done, new_queue, push, shutdown,
}
use packet_dpi_engine.Pipeline.Router.{extract_flow_key}

pub record PacketJob : Type 0 where
  pub rec : PacketRecord
  pub is_nanoseconds : Bool

-- `workers_` shows the queue of each thread; `unroutable_count_` wraps at 2 ^ 64.
pub record WorkerPool : Type 0 where
  pub workers : List (BoundedQueue PacketJob)
  pub running : Bool
  pub unroutable_count : ℕ

-- The constructor; `hardware` stands for `hardware_concurrency()`.
unfoldable pub new_pool : ℕ → ℕ → ℕ → WorkerPool
new_pool hardware num_workers queue_capacity = record {
  workers =
      replicate (if num_workers == 0 then max 1 hardware else num_workers)
        (new_queue queue_capacity);
  running = false;
  unroutable_count = 0;
}

unfoldable pub start : WorkerPool → WorkerPool
start p = record p { running = true }

-- `stop`: every queue is shut down; the joins wait for the threads to drain them.
unfoldable pub stop : WorkerPool → WorkerPool
stop p = if p.running then record p { workers = map shutdown p.workers; running = false } else p

-- `routable`, the key and the index that the dispatcher takes; `none` for a read out of bounds.
unfoldable pub target_worker : List ℕ → ℕ → Option (Bool × ℕ)
target_worker payload count = elim (extract_flow_key payload (length payload)) [
  | none ↦ none
  | some none ↦ some (false, 0)
  | some (some key) ↦ some (true, hash_key key % count)
]

unfoldable pub count_unroutable : Bool → WorkerPool → WorkerPool
count_unroutable routable p =
    if routable then p else record p { unroutable_count = (p.unroutable_count + 1) % 2 ^ 64 }

-- `workers_[i]->enqueue(job)`; the outer `none` is an index out of range.
unfoldable pub enqueue : WorkerPool → ℕ → PacketJob → Option (Outcome (WorkerPool × Bool))
enqueue p i job = elim (get_elem? p.workers i) [
  | none ↦ none
  | some q ↦ elim (push job q) [
    | blocked ↦ some blocked
    | done (q', ok) ↦ some (done (record p { workers = set p.workers i q' }, ok))
  ]
]

-- `dispatch`: `none` is undefined behaviour, `blocked` waits on a full queue.
unfoldable pub dispatch : WorkerPool → PacketJob → Option (Outcome (WorkerPool × Bool))
dispatch p job =
    if not p.running
    then some (done (p, false))
    else elim (target_worker job.rec.payload (length p.workers)) [
      | none ↦ none
      | some (routable, i) ↦ enqueue (count_unroutable routable p) i job
    ]
