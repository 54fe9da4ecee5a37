-- ===== src/Pipeline/PoolLaws.antt =====
-- The dispatcher: the worker that a packet goes to, and what becomes of the other workers.
use packet_dpi_engine.Base.{
  ℕ, zero, suc, ◌+◌, ◌%◌, ◌<◌, ◌≡◌, ◌≢◌, ◌⊎◌, inl, inr, refl, ◌∙◌, Bool, true, List, [], ◌∷◌, none,
  some, length, get_elem?, set, arith, Option-cases, get_elem?-set_self, get_elem?-set_ne, ap,
  if◌then◌else◌, ◌^◌,
}
use packet_dpi_engine.Memory.{AllBytes}
use packet_dpi_engine.Protocols.Types.{ParsedPacket, is_valid}
use packet_dpi_engine.Protocols.Parser.{parse}
use packet_dpi_engine.Flow.Key.{hash_key, from_packet}
use packet_dpi_engine.Pipeline.Affinity.{is_flow_packet, extract_flow_key-parse}
use packet_dpi_engine.Pipeline.Router.{extract_flow_key-ne-none}
use packet_dpi_engine.Pipeline.Queue.{BoundedQueue, Outcome, blocked, done, push}
use packet_dpi_engine.Pipeline.Pool.{
  PacketJob, WorkerPool, target_worker, count_unroutable, enqueue, dispatch,
}

target_worker-flow :
    (buf : List ℕ) (p : ParsedPacket) (count : ℕ)
    → AllBytes buf
    → parse buf ≡ some p
    → is_valid p ≡ true
    → is_flow_packet p ≡ true
    → target_worker buf count ≡ some (true, hash_key (from_packet p).0 % count)
unfolding target_worker
target_worker-flow buf p count bytes eq ok tracked =
    ground (arith, extract_flow_key-parse buf p bytes eq ok tracked)

-- Two flow packets that the workers' parser accepts go to the same worker whenever they belong to
-- the same flow, so that worker alone sees the flow. (`create_symmetric` says that both directions
-- of a conversation are one flow.)
pub same_flow_same_worker :
    (buf buf' : List ℕ) (p p' : ParsedPacket) (count : ℕ)
    → AllBytes buf
    → AllBytes buf'
    → parse buf ≡ some p
    → parse buf' ≡ some p'
    → is_valid p ≡ true
    → is_valid p' ≡ true
    → is_flow_packet p ≡ true
    → is_flow_packet p' ≡ true
    → (from_packet p).0 ≡ (from_packet p').0
    → target_worker buf count ≡ target_worker buf' count
same_flow_same_worker buf buf' p p' count b b' e e' v v' t t' same =
    cc (target_worker-flow buf p count b e v t, target_worker-flow buf' p' count b' e' v' t')

get_elem?-lt {ℓ} : {A : Type ℓ} (xs : List A) (i : ℕ) → i < length xs → get_elem? xs i ≢ none
get_elem?-lt [] i h = elim h [ ]
get_elem?-lt (x ∷ xs) zero h = λ e. cc
get_elem?-lt (x ∷ xs) (suc i) h = get_elem?-lt xs i (omega arith)

get_elem?-within {ℓ} :
    {A : Type ℓ} (xs : List A) (i : ℕ) {x : A} → get_elem? xs i ≡ some x → i < length xs
get_elem?-within [] i e = cc
get_elem?-within (x ∷ xs) zero e = omega arith
get_elem?-within (x ∷ xs) (suc i) e = omega (arith, get_elem?-within xs i e)

target_worker-lt :
    (buf : List ℕ) (count : ℕ) {b : Bool} {i : ℕ}
    → 0 < count
    → target_worker buf count ≡ some (b, i)
    → i < count
unfolding target_worker
target_worker-lt buf count pos e = ground arith

target_worker-ne-none : (buf : List ℕ) (count : ℕ) → target_worker buf count ≢ none
unfolding target_worker
target_worker-ne-none buf count =
    ground (arith, extract_flow_key-ne-none buf (length buf) (omega arith))

enqueue-ne-none :
    (p : WorkerPool) (i : ℕ) (job : PacketJob) → i < length p.workers → enqueue p i job ≢ none
unfolding enqueue
enqueue-ne-none p i job h = ground (arith, get_elem?-lt p.workers i)

-- With at least one worker, a call of `dispatch` reads nothing outside the packet and names a worker
-- that exists.
pub dispatch-ne-none :
    (p : WorkerPool) (job : PacketJob) → 0 < length p.workers → dispatch p job ≢ none
unfolding dispatch count_unroutable
dispatch-ne-none p job pos =
    elim (Option-cases (target_worker job.rec.payload (length p.workers))) [
      | inl e ↦ absurd (target_worker-ne-none _ _ e)
      | inr ((routable, i), e) ↦
          let within = target_worker-lt job.rec.payload (length p.workers) pos e in
          ground (arith, enqueue-ne-none (count_unroutable routable p) i job)
    ]

enqueue_effect :
    (p : WorkerPool) (i : ℕ) (job : PacketJob) {q : BoundedQueue PacketJob} {p' : WorkerPool}
    {ok : Bool}
    → get_elem? p.workers i ≡ some q
    → enqueue p i job ≡ some (done (p', ok))
    → (q' : BoundedQueue PacketJob) × (push job q ≡ done (q', ok))
      × (p'.workers ≡ set p.workers i q')
      × (p'.unroutable_count ≡ p.unroutable_count)
unfolding enqueue
enqueue_effect p i job {q} h e = elim (Outcome-cases (push job q)) [
  | inl b ↦ absurd (ground arith)
  | inr ((q', ok'), d) ↦ (q', ground arith, ground arith, ground arith)
]
  where
    Outcome-cases :
        (o : Outcome (BoundedQueue PacketJob × Bool))
        → (o ≡ blocked) ⊎ ((r : BoundedQueue PacketJob × Bool) × (o ≡ done r))
    Outcome-cases blocked = inl refl
    Outcome-cases (done r) = inr (r, refl)

-- A call of `dispatch` that returns while the pool runs has pushed the job onto the queue of the
-- target worker, with the result of that push, left every other worker's queue alone, and counted
-- the packet as unroutable exactly if it has no key.
pub dispatch_effect :
    (p : WorkerPool) (job : PacketJob) (routable : Bool) (i : ℕ) (q : BoundedQueue PacketJob)
    (p' : WorkerPool) (ok : Bool)
    → p.running ≡ true
    → target_worker job.rec.payload (length p.workers) ≡ some (routable, i)
    → get_elem? p.workers i ≡ some q
    → dispatch p job ≡ some (done (p', ok))
    → (q' : BoundedQueue PacketJob) × (push job q ≡ done (q', ok))
      × (get_elem? p'.workers i ≡ some q')
      × ((j : ℕ) → i ≢ j → get_elem? p'.workers j ≡ get_elem? p.workers j)
      × (p'.unroutable_count
          ≡ (if routable then p.unroutable_count else (p.unroutable_count + 1) % 2 ^ 64))
unfolding dispatch count_unroutable
dispatch_effect p job routable i q p' ok run t at e =
    let moved : enqueue (count_unroutable routable p) i job ≡ some (done (p', ok)) = ground arith in
    let same : (count_unroutable routable p).workers ≡ p.workers = ground arith in
    let (q', pushed, written, count) =
      enqueue_effect (count_unroutable routable p) i job (ap (λ w. get_elem? w i) same ∙ at)
        moved in
    (
      q',
      pushed,
      rw (written, same) (get_elem?-set_self p.workers i q' (get_elem?-within p.workers i at)),
      (λ j ne. rw (written, same) (get_elem?-set_ne p.workers q' ne)),
      ground (arith, count),
    )
