-- ===== src/Threat/AlertBuffer.antt =====
-- `BoundedAlertBuffer` of include/dpi/threat/bounded_alert_buffer.h, a ring of alerts. The items are
-- of any type with a default, since the code looks at none of their fields.
use packet_dpi_engine.Base.{
  ℕ, zero, suc, ◌+◌, ◌%◌, ◌^◌, List, [], ◌∷◌, Option, some, ltb, if◌then◌else◌, get_elem?, set,
  replicate,
}
use packet_dpi_engine.Memory.{◌>>=◌}

pub record AlertBuffer {ℓ} (A : Type ℓ) : Type ℓ where
  pub capacity : ℕ
  pub buffer : List A
  pub head : ℕ
  pub tail : ℕ
  pub size : ℕ
  pub dropped_count : ℕ
  pub total_generated_count : ℕ

module _ {ℓ} {A : Type ℓ} where
  -- The constructor, with the default alert.
  unfoldable pub new_buffer : A → ℕ → AlertBuffer A
  new_buffer default capacity =
      let n = if ltb 0 capacity then capacity else 1 in
      record {
        capacity = n;
        buffer = replicate n default;
        head = 0;
        tail = 0;
        size = 0;
        dropped_count = 0;
        total_generated_count = 0;
      }

  -- `push`; the counters are 64 bits wide.
  unfoldable pub push_alert : A → AlertBuffer A → AlertBuffer A
  push_alert alert b =
      if ltb b.size b.capacity
      then record b {
        buffer = set b.buffer b.head alert;
        head = (b.head + 1) % b.capacity;
        size = b.size + 1;
        total_generated_count = (b.total_generated_count + 1) % 2 ^ 64;
      }
      else record b {
        buffer = set b.buffer b.tail alert;
        tail = (b.tail + 1) % b.capacity;
        head = (b.tail + 1) % b.capacity;
        dropped_count = (b.dropped_count + 1) % 2 ^ 64;
        total_generated_count = (b.total_generated_count + 1) % 2 ^ 64;
      }

  -- The element that turn `i` of the loop of `get_snapshot` reads; none is a read outside the buffer.
  unfoldable pub read_alert : AlertBuffer A → ℕ → Option A
  read_alert b i = get_elem? b.buffer ((b.tail + i) % b.capacity)

  -- The `n` turns of the loop from turn `i` on.
  unfoldable pub collect : AlertBuffer A → ℕ → ℕ → Option (List A)
  collect b zero i = some []
  collect b (suc n) i = do a ← read_alert b i; rest ← collect b n (suc i); some (a ∷ rest)

  unfoldable pub get_snapshot : AlertBuffer A → Option (List A)
  unfolding collect
  get_snapshot b = collect b b.size 0

  unfoldable pub clear_alerts : AlertBuffer A → AlertBuffer A
  clear_alerts b = record b { head = 0; tail = 0; size = 0 }
