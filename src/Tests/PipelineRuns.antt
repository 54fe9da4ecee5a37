-- ===== src/Tests/PipelineRuns.antt =====
-- The theorems on `Pipeline` at concrete frames and queues.
use packet_dpi_engine.Base.{
  ℕ, ◌+◌, ◌%◌, ◌^◌, ◌≡◌, ◌≢◌, refl, [], ◌∷◌, arith, true, false, some, none, get_elem?,
  if◌then◌else◌,
}
use packet_dpi_engine.Flow.Address.{endpoint_lt, ip_lt}
use packet_dpi_engine.Protocols.Types.{to_u32}
use packet_dpi_engine.Flow.Key.{from_packet, create, from_ports}
use packet_dpi_engine.Pipeline.Router.{extract_flow_key}
use packet_dpi_engine.Pipeline.Affinity.{extract_flow_key-parse}
use packet_dpi_engine.Pipeline.Queue.{BoundedQueue, push, pop, blocked, done, shutdown, new_queue}
use packet_dpi_engine.Pipeline.QueueLaws.{
  Trace, Reach, here, next, accepts, refuses, delivers, fresh, IsFifo, Reach-fresh-IsFifo,
  Reach-after_shutdown, not_both_blocked, consume, consume-shutdown,
}
use packet_dpi_engine.Pipeline.Pool.{
  PacketJob, WorkerPool, target_worker, dispatch, count_unroutable, enqueue,
}
use packet_dpi_engine.Pipeline.PoolLaws.{same_flow_same_worker, dispatch-ne-none, dispatch_effect}
use packet_dpi_engine.Tests.Packets.{
  syn_frame, syn_ack_frame, syn_packet, syn_ack_packet, parse-syn_frame, parse-syn_ack_frame,
}

extract_flow_key-parse_example :
    extract_flow_key syn_frame 55 ≡ some (some (from_packet syn_packet).0)
extract_flow_key-parse_example =
    extract_flow_key-parse syn_frame syn_packet (omega arith) parse-syn_frame refl refl

same_key : (from_packet syn_packet).0 ≡ (from_packet syn_ack_packet).0
unfolding from_packet from_ports create endpoint_lt ip_lt to_u32
same_key = refl

same_flow_same_worker_example : target_worker syn_frame 4 ≡ target_worker syn_ack_frame 4
same_flow_same_worker_example =
    same_flow_same_worker syn_frame syn_ack_frame syn_packet syn_ack_packet 4 (omega arith)
      (omega arith) parse-syn_frame parse-syn_ack_frame refl refl refl refl same_key

abbrev one_item : Trace ℕ
one_item = record {
  queue = record { capacity = 1; queue = 5 ∷ []; is_shutdown = false };
  accepted = 5 ∷ [];
  delivered = [];
}

Reach-one : Reach (fresh 1) one_item
unfolding push new_queue
Reach-one = next here (accepts 5 refl)

Reach-fresh-IsFifo_example : IsFifo one_item
Reach-fresh-IsFifo_example = Reach-fresh-IsFifo 1 Reach-one

abbrev shut_item : Trace ℕ
shut_item = record one_item { queue = shutdown one_item.queue }

abbrev emptied : Trace ℕ
emptied = record {
  queue = record { capacity = 1; queue = []; is_shutdown = true };
  accepted = 5 ∷ [];
  delivered = 5 ∷ [];
}

-- A push that is refused, and the item that was waiting.
Reach-emptied : Reach shut_item emptied
unfolding push pop shutdown
Reach-emptied = next (next here (refuses 6 refl)) (delivers 5 refl)

Reach-after_shutdown_example :
    (emptied.accepted ≡ one_item.accepted)
    × ((x : ℕ) → push x emptied.queue ≡ done (emptied.queue, false))
Reach-after_shutdown_example = Reach-after_shutdown one_item Reach-emptied

not_both_blocked_example : (pop one_item.queue ≢ blocked) × (one_item.queue.is_shutdown ≡ false)
unfolding push
not_both_blocked_example = not_both_blocked 1 {t = one_item} 6 Reach-one refl

consume-shutdown_example : consume 2 (shutdown one_item.queue) ≡ some (5 ∷ [])
consume-shutdown_example = consume-shutdown one_item.queue

abbrev job : PacketJob
job = record {
  rec = record {
    header = record { ts_sec = 1; ts_usec = 2; incl_len = 3; orig_len = 3 };
    payload = 1 ∷ 2 ∷ 3 ∷ [];
  };
  is_nanoseconds = false;
}

abbrev two_workers : WorkerPool
two_workers = record {
  workers =
      record { capacity = 2; queue = []; is_shutdown = false }
      ∷ record { capacity = 2; queue = []; is_shutdown = false }
      ∷ [];
  running = true;
  unroutable_count = 0;
}

dispatch-ne-none_example : dispatch two_workers job ≢ none
dispatch-ne-none_example = dispatch-ne-none two_workers job (omega arith)

abbrev first_queue : BoundedQueue PacketJob
first_queue = record { capacity = 2; queue = []; is_shutdown = false }

-- Three bytes have no key: the job goes to the first worker and is counted.
abbrev after_job : WorkerPool
after_job = record {
  workers = record first_queue { queue = job ∷ [] } ∷ first_queue ∷ [];
  running = true;
  unroutable_count = 1;
}

no_target : target_worker job.rec.payload 2 ≡ some (false, 0)
unfolding target_worker extract_flow_key
no_target = refl

dispatched : dispatch two_workers job ≡ some (done (after_job, true))
unfolding dispatch target_worker extract_flow_key count_unroutable enqueue push
dispatched = refl

dispatch_effect_example :
    (q' : BoundedQueue PacketJob) × (push job first_queue ≡ done (q', true))
    × (get_elem? after_job.workers 0 ≡ some q')
    × ((j : ℕ) → 0 ≢ j → get_elem? after_job.workers j ≡ get_elem? two_workers.workers j)
    × (after_job.unroutable_count ≡ (
        if false
        then two_workers.unroutable_count
        else (two_workers.unroutable_count + 1) % 2 ^ 64))
dispatch_effect_example =
    dispatch_effect two_workers job false 0 first_queue after_job true refl no_target refl
      dispatched
