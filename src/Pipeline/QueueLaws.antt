-- ===== src/Pipeline/QueueLaws.antt =====
-- The queue under any interleaving of producers, the consumer and the shutdown.
use mathlib.Core.List.{append_assoc}
use packet_dpi_engine.Base.{
  ℕ, zero, suc, ◌+◌, ◌≤◌, ◌<◌, ◌≡◌, ◌≢◌, refl, sym, ap, ◌∙◌, true, false, List, [], ◌∷◌, ◌++◌,
  length, length-append, arith, Option, none, some,
}
use packet_dpi_engine.Pipeline.Queue.{
  BoundedQueue, blocked, done, item, drained, new_queue, push, pop_from, pop, shutdown,
}

-- The queue with its history: what was accepted, and what was handed to the consumer.
pub record Trace {ℓ} (A : Type ℓ) : Type ℓ where
  pub queue : BoundedQueue A
  pub accepted : List A
  pub delivered : List A

module _ {ℓ} {A : Type ℓ} where
  -- One completed call of any thread. A blocked call is no step.
  pub data Step (t : Trace A) : Trace A → Type ℓ where
    accepts :
        (x : A) {q : BoundedQueue A}
        → push x t.queue ≡ done (q, true)
        → Step t (record t { queue = q; accepted = t.accepted ++ x ∷ [] })
    refuses :
        (x : A) {q : BoundedQueue A}
        → push x t.queue ≡ done (q, false)
        → Step t (record t { queue = q })
    delivers :
        (x : A) {q : BoundedQueue A}
        → pop t.queue ≡ done (q, item x)
        → Step t (record t { queue = q; delivered = t.delivered ++ x ∷ [] })
    ends : {q : BoundedQueue A} → pop t.queue ≡ done (q, drained) → Step t (record t { queue = q })
    shuts : Step t (record t { queue = shutdown t.queue })

  pub data Reach (s : Trace A) : Trace A → Type ℓ where
    here : Reach s s
    next : {t u : Trace A} → Reach s t → Step t u → Reach s u

  pub record IsFifo (t : Trace A) : Type ℓ where
    pub fifo : t.accepted ≡ t.delivered ++ t.queue.queue
    pub bounded : length t.queue.queue ≤ t.queue.capacity

  push-append :
      (x : A) (q : BoundedQueue A) {r : BoundedQueue A}
      → push x q ≡ done (r, true)
      → (r.queue ≡ q.queue ++ x ∷ [])
        × (r.capacity ≡ q.capacity)
        × (length q.queue < q.capacity)
        × (q.is_shutdown ≡ false)
  unfolding push
  push-append x q e = ground arith

  push_refused :
      (x : A) (q : BoundedQueue A) {r : BoundedQueue A}
      → push x q ≡ done (r, false)
      → (r ≡ q) × (q.is_shutdown ≡ true)
  unfolding push
  push_refused x q e = ground arith

  pop_from-cons :
      (q : BoundedQueue A) (xs : List A) {r : BoundedQueue A} {x : A}
      → pop_from q xs ≡ done (r, item x)
      → (xs ≡ x ∷ r.queue) × (r.capacity ≡ q.capacity)
  unfolding pop_from
  pop_from-cons q [] e = ground arith
  pop_from-cons q (y ∷ ys) e = ground arith

  pop_from_drained :
      (q : BoundedQueue A) (xs : List A) {r : BoundedQueue A}
      → pop_from q xs ≡ done (r, drained)
      → (xs ≡ []) × (r ≡ q) × (q.is_shutdown ≡ true)
  unfolding pop_from
  pop_from_drained q [] e = ground arith
  pop_from_drained q (y ∷ ys) e = ground arith

  pop_from-shutdown :
      (q : BoundedQueue A) (xs : List A) {r : BoundedQueue A} {x : A}
      → pop_from q xs ≡ done (r, item x)
      → r.is_shutdown ≡ q.is_shutdown
  unfolding pop_from
  pop_from-shutdown q [] e = ground arith
  pop_from-shutdown q (y ∷ ys) e = ground arith

  Step-IsFifo : {t u : Trace A} → Step t u → IsFifo t → IsFifo u
  unfolding pop shutdown
  Step-IsFifo {t} (accepts x {q} e) v =
      let (grown, cap, room, _) = push-append x t.queue e in
      record {
        fifo =
            rw (v.fifo, append_assoc t.delivered t.queue.queue (x ∷ []))
              (ap (◌++◌ t.delivered) (sym grown));
        bounded = rw (grown, cap) (omega (arith, length-append t.queue.queue (x ∷ [])));
      }
  Step-IsFifo {t} (refuses x e) v = rw ((push_refused x t.queue e).0) v
  Step-IsFifo {t} (delivers x {q} e) v =
      let (front, cap) = pop_from-cons t.queue t.queue.queue e in
      record {
        fifo =
            v.fifo ∙ ap (◌++◌ t.delivered) front ∙ sym (append_assoc t.delivered (x ∷ []) q.queue);
        bounded = rw cap (omega (arith, v.bounded, ap length front));
      }
  Step-IsFifo {t} (ends e) v = rw ((pop_from_drained t.queue t.queue.queue e).1) v
  Step-IsFifo {t} shuts v = ground (arith, v)

  Reach-IsFifo : {s t : Trace A} → IsFifo s → Reach s t → IsFifo t
  Reach-IsFifo v here = v
  Reach-IsFifo v (next r st) = Step-IsFifo st (Reach-IsFifo v r)

  abbrev pub fresh : ℕ → Trace A
  fresh capacity = record { queue = new_queue capacity; accepted = []; delivered = [] }

  fresh-IsFifo : (capacity : ℕ) → IsFifo (fresh capacity)
  unfolding new_queue
  fresh-IsFifo capacity = ground arith

  -- Whatever the threads do, the accepted items are those delivered followed by those waiting, in
  -- the order of acceptance: none is lost, doubled or reordered, and the queue keeps its capacity.
  pub Reach-fresh-IsFifo : (capacity : ℕ) {t : Trace A} → Reach (fresh capacity) t → IsFifo t
  Reach-fresh-IsFifo capacity r = Reach-IsFifo (fresh-IsFifo capacity) r

  Step-after_shutdown :
      {t u : Trace A}
      → Step t u
      → t.queue.is_shutdown ≡ true
      → (u.queue.is_shutdown ≡ true) × (u.accepted ≡ t.accepted)
  unfolding pop shutdown
  Step-after_shutdown {t} (accepts x e) h = ground (arith, push-append x t.queue e)
  Step-after_shutdown {t} (refuses x e) h = rw ((push_refused x t.queue e).0) (h, refl)
  Step-after_shutdown {t} (delivers x e) h = (pop_from-shutdown t.queue t.queue.queue e ∙ h, refl)
  Step-after_shutdown {t} (ends e) h = rw ((pop_from_drained t.queue t.queue.queue e).1) (h, refl)
  Step-after_shutdown {t} shuts h = rw h (refl, refl)

  Reach-closed :
      {s t : Trace A}
      → Reach s t
      → s.queue.is_shutdown ≡ true
      → (t.queue.is_shutdown ≡ true) × (t.accepted ≡ s.accepted)
  Reach-closed here h = (h, refl)
  Reach-closed (next r st) h =
      let (down, same) = Reach-closed r h in
      let (down', same') = Step-after_shutdown st down in (down', same' ∙ same)

  push_closed : (x : A) (q : BoundedQueue A) → q.is_shutdown ≡ true → push x q ≡ done (q, false)
  unfolding push
  push_closed x q h = ground (arith, h)

  shutdown-is_shutdown : (q : BoundedQueue A) → (shutdown q).is_shutdown ≡ true
  unfolding shutdown
  shutdown-is_shutdown q = ground arith

  -- Whatever the threads do after a call of `shutdown`, nothing more is accepted: the accepted items
  -- are those from before the call, and every push returns false at once and leaves the queue as it
  -- is.
  pub Reach-after_shutdown :
      (s : Trace A) {t : Trace A}
      → Reach (record s { queue = shutdown s.queue }) t
      → (t.accepted ≡ s.accepted) × ((x : A) → push x t.queue ≡ done (t.queue, false))
  Reach-after_shutdown s {t} r =
      let (down, same) = Reach-closed r (shutdown-is_shutdown s.queue) in
      (same, λ x. push_closed x t.queue down)

  Step-capacity : {t u : Trace A} → Step t u → u.queue.capacity ≡ t.queue.capacity
  unfolding pop shutdown
  Step-capacity {t} (accepts x e) = (push-append x t.queue e).1
  Step-capacity {t} (refuses x e) = rw ((push_refused x t.queue e).0)
  Step-capacity {t} (delivers x e) = (pop_from-cons t.queue t.queue.queue e).1
  Step-capacity {t} (ends e) = rw ((pop_from_drained t.queue t.queue.queue e).1)
  Step-capacity {t} shuts = ground arith

  Reach-positive : (capacity : ℕ) {t : Trace A} → Reach (fresh capacity) t → 0 < t.queue.capacity
  unfolding new_queue
  Reach-positive capacity here = ground arith
  Reach-positive capacity (next r st) = rw (Step-capacity st) (Reach-positive capacity r)

  push_blocked_open : (x : A) (q : BoundedQueue A) → push x q ≡ blocked → q.is_shutdown ≡ false
  unfolding push
  push_blocked_open x q e = ground arith

  push_blocked_full :
      (x : A) (q : BoundedQueue A) → push x q ≡ blocked → q.capacity ≤ length q.queue
  unfolding push
  push_blocked_full x q e = ground arith

  pop_from-ne-blocked : (q : BoundedQueue A) (xs : List A) → 0 < length xs → pop_from q xs ≢ blocked
  unfolding pop_from
  pop_from-ne-blocked q [] h = absurd (omega arith)
  pop_from-ne-blocked q (y ∷ ys) h = λ e. cc

  push_blocked_pop :
      (x : A) (q : BoundedQueue A) → 0 < q.capacity → push x q ≡ blocked → pop q ≢ blocked
  unfolding pop
  push_blocked_pop x q pos e =
      pop_from-ne-blocked q q.queue (omega (arith, push_blocked_full x q e))

  -- A producer that waits does not wait for a consumer that waits too, and nobody waits after the
  -- shutdown.
  pub not_both_blocked :
      (capacity : ℕ) {t : Trace A} (x : A)
      → Reach (fresh capacity) t
      → push x t.queue ≡ blocked
      → (pop t.queue ≢ blocked) × (t.queue.is_shutdown ≡ false)
  not_both_blocked capacity {t} x r e =
      let pos = Reach-positive capacity r in
      (push_blocked_pop x t.queue pos e, push_blocked_open x t.queue e)

  -- `while (queue_.pop(item))`, with the items in the order in which they come; `none` when the
  -- fuel runs out or the call blocks.
  unfoldable pub consume : ℕ → BoundedQueue A → Option (List A)
  consume zero q = none
  consume (suc fuel) q = elim (pop q) [
    | blocked ↦ none
    | done (q', p) ↦ elim p [
      | drained ↦ some []
      | item x ↦ elim (consume fuel q') [ none ↦ none | some xs ↦ some (x ∷ xs) ]
    ]
  ]

  consume_queue :
      (xs : List A) (fuel : ℕ) (q : BoundedQueue A)
      → q.queue ≡ xs
      → q.is_shutdown ≡ true
      → length xs < fuel
      → consume fuel q ≡ some xs
  unfolding consume pop pop_from
  consume_queue xs zero q e d h = absurd (omega arith)
  consume_queue [] (suc fuel) q e d h = ground arith
  consume_queue (x ∷ xs) (suc fuel) q e d h =
      ground (arith, consume_queue xs fuel (record q { queue = xs }) refl d)

  -- After the shutdown, and with no producer left, the consumer's loop ends, and has handled all
  -- that was waiting, in order; one round more than there are items is enough.
  pub consume-shutdown :
      (q : BoundedQueue A) → consume (length q.queue + 1) (shutdown q) ≡ some q.queue
  unfolding shutdown
  consume-shutdown q =
      consume_queue q.queue (length q.queue + 1) (shutdown q) (ground arith) (ground arith)
        (omega arith)
