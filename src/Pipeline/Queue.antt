-- ===== src/Pipeline/Queue.antt =====
-- `BoundedQueue` of include/dpi/pipeline/bounded_queue.h. A call runs under the mutex, so it is one
-- step; a call whose wait condition is false is `blocked` and changes nothing.
use packet_dpi_engine.Base.{
  ℕ, Bool, true, false, List, [], ◌∷◌, ◌++◌, ltb, ◌||◌, not, if◌then◌else◌, length,
}

pub record BoundedQueue {ℓ} (A : Type ℓ) : Type ℓ where
  pub capacity : ℕ
  pub queue : List A
  pub is_shutdown : Bool

-- What a call does: it waits, or it returns with a new state.
pub data Outcome {ℓ} (A : Type ℓ) : Type ℓ where
  blocked : Outcome A
  done : A → Outcome A

-- What a call of `pop` gives: an item, or the news that the queue is shut down and empty.
pub data Popped {ℓ} (A : Type ℓ) : Type ℓ where
  item : A → Popped A
  drained : Popped A

module _ {ℓ} {A : Type ℓ} where
  -- The constructor.
  unfoldable pub new_queue : ℕ → BoundedQueue A
  new_queue capacity = record {
    capacity = if ltb 0 capacity then capacity else 1024;
    queue = [];
    is_shutdown = false;
  }

  -- `push`, with the queue after it and its result.
  unfoldable pub push : A → BoundedQueue A → Outcome (BoundedQueue A × Bool)
  push x q =
      if not (ltb (length q.queue) q.capacity || q.is_shutdown)
      then blocked
      else if q.is_shutdown
      then done (q, false)
      else done (record q { queue = q.queue ++ x ∷ [] }, true)

  unfoldable pub pop_from : BoundedQueue A → List A → Outcome (BoundedQueue A × Popped A)
  pop_from q [] = if q.is_shutdown then done (q, drained) else blocked
  pop_from q (x ∷ xs) = done (record q { queue = xs }, item x)

  unfoldable pub pop : BoundedQueue A → Outcome (BoundedQueue A × Popped A)
  unfolding pop_from
  pop q = pop_from q q.queue

  unfoldable pub shutdown : BoundedQueue A → BoundedQueue A
  shutdown q = if q.is_shutdown then q else record q { is_shutdown = true }
