-- ===== src/Threat/AlertBufferLaws.antt =====
-- The ring of alerts holds the most recent alerts, in their order.
use native.Mathlib.Nat.{mod-lt, mod-eq_of_lt, mod-eq-sub-mod, mod-add-mod, add-mod_right}
use packet_dpi_engine.Base.{
  ℕ, zero, suc, ◌+◌, ◌-◌, ◌%◌, ◌<◌, ◌≤◌, ◌≡◌, ◌≢◌, refl, sym, ap, subst, ◌∙◌, List, [], ◌∷◌, ◌++◌,
  some, ltb, get_elem?, set, length, drop, arith, length-set, length-append, length-drop,
  length-replicate, get_elem?-set_self, get_elem?-set_ne, get_elem?-append_left,
  get_elem?-append_last, get_elem?-drop_one, drop-get_elem?, drop-length, Bool-cases, inl, inr,
  true, false, lt→ltb, ltb→lt,
}
use packet_dpi_engine.Threat.Recent.{keep, keep_all, keep_all-drop}
use packet_dpi_engine.Threat.AlertBuffer.{
  AlertBuffer, new_buffer, push_alert, read_alert, collect, get_snapshot,
}

-- Around a ring of `c` places, a way shorter than the ring does not lead back to its start.
ring_apart : (c t d : ℕ) → t < c → 0 < d → d < c → t ≢ (t + d) % c
ring_apart c t d h p q = elim (Bool-cases (ltb (t + d) c)) [
  | inl short ↦
      let e = mod-eq_of_lt {n = t + d} {m = c} (ground arith) in λ k. omega (arith, e, k, p)
  | inr long ↦
      let e = mod-eq-sub-mod {n = t + d} {m = c} (ground arith) in
      let e' = mod-eq_of_lt {n = t + d - c} {m = c} (omega arith) in
      let far : c ≤ t + d = ground arith in λ k. omega (arith, e, e', k, q, far, h)
]

module _ {ℓ} {A : Type ℓ} where
  -- The buffer holds the alerts `xs`, the oldest first.
  record Holds (xs : List A) (b : AlertBuffer A) : Type ℓ where
    positive : 0 < b.capacity
    filled : length b.buffer ≡ b.capacity
    sized : b.size ≡ length xs
    bounded : b.size ≤ b.capacity
    tail_fits : b.tail < b.capacity
    head_follows : b.head ≡ (b.tail + b.size) % b.capacity
    starts : b.size < b.capacity → b.tail ≡ 0
    reads : (i : ℕ) → i < length xs → read_alert b i ≡ get_elem? xs i

  push_room :
      (xs : List A) (b : AlertBuffer A) (x : A)
      → b.size < b.capacity
      → Holds xs b
      → Holds (xs ++ (x ∷ [])) (push_alert x b)
  unfolding push_alert read_alert
  push_room xs b x room v =
      let at_start = v.starts room in
      let slot =
        mod-eq_of_lt {n = b.tail + b.size} {m = b.capacity} (omega (arith, at_start, room)) in
      let next = mod-eq_of_lt {n = b.head + 1} {m = b.capacity} in
      rw room_lt (record {
        positive = v.positive;
        filled = length-set b.buffer b.head x ∙ v.filled;
        sized = omega (arith, v.sized, length-append xs (x ∷ []));
        bounded = omega (arith, room);
        tail_fits = v.tail_fits;
        head_follows = ap (λ n. n % b.capacity) (omega (arith, v.head_follows, slot));
        starts = λ h. at_start;
        reads = λ i h. elim (Bool-cases (ltb i (length xs))) [
          | inl early ↦
              let lt : i < length xs = ltb→lt i (length xs) early in
              let place = mod-eq_of_lt {n = b.tail + i} {m = b.capacity} (omega arith) in
              get_elem?-set_ne b.buffer x
                (λ same. omega (arith, same, place, slot, v.head_follows, v.sized, lt))
              ∙ v.reads i lt
              ∙ sym (get_elem?-append_left xs (x ∷ []) i lt)
          | inr late ↦
              let last : i ≡ length xs = ground (arith, length-append xs (x ∷ [])) in
              ap (λ n. get_elem? (set b.buffer b.head x) ((b.tail + n) % b.capacity))
                (last ∙ sym v.sized)
              ∙ ap (get_elem? (set b.buffer b.head x)) (sym v.head_follows)
              ∙ get_elem?-set_self b.buffer b.head x (omega arith)
              ∙ sym (get_elem?-append_last xs x i last)
        ];
      })
    where
      room_lt : ltb b.size b.capacity ≡ true
      room_lt = lt→ltb b.size b.capacity room

  push_full :
      (xs : List A) (b : AlertBuffer A) (x : A)
      → ltb b.size b.capacity ≡ false
      → Holds xs b
      → Holds (drop 1 xs ++ (x ∷ [])) (push_alert x b)
  unfolding push_alert read_alert
  push_full xs b x full v =
      let all_used : b.size ≡ b.capacity = ground arith in
      let n = b.capacity in
      let shorter = length-drop 1 xs in
      let moved : (i : ℕ) → ((b.tail + 1) % n + i) % n ≡ (b.tail + suc i) % n =
        λ i. mod-add-mod (b.tail + 1) n i ∙ ap (λ k. k % n) (omega arith) in
      rw full (record {
        positive = v.positive;
        filled = length-set b.buffer b.tail x ∙ v.filled;
        sized =
            omega
              (arith, v.sized, v.positive, all_used, shorter, length-append (drop 1 xs) (x ∷ []));
        bounded = v.bounded;
        tail_fits = mod-lt (b.tail + 1) v.positive;
        head_follows = sym (
            mod-add-mod (b.tail + 1) n b.size
            ∙ ap (λ k. (b.tail + 1 + k) % n) all_used
            ∙ add-mod_right (b.tail + 1) n);
        starts = λ h. absurd (omega (arith, h, all_used));
        reads = λ i h. elim (Bool-cases (ltb (suc i) n)) [
          | inl early ↦
              let near : suc i < n = ltb→lt (suc i) n early in
              let there : suc i < length xs = omega (arith, near, v.sized, all_used) in
              ap (get_elem? (set b.buffer b.tail x)) (moved i)
              ∙ get_elem?-set_ne b.buffer x
                  (ring_apart n b.tail (suc i) v.tail_fits (omega arith) near)
              ∙ v.reads (suc i) there
              ∙ sym (get_elem?-drop_one xs i)
              ∙ sym (get_elem?-append_left (drop 1 xs) (x ∷ []) i (omega (arith, there, shorter)))
          | inr late ↦
              let last : i ≡ length (drop 1 xs) =
                ground (arith, shorter, length-append (drop 1 xs) (x ∷ []), v.sized, v.positive) in
              let round : suc i ≡ n = omega (arith, last, shorter, v.sized, v.positive, all_used) in
              ap (get_elem? (set b.buffer b.tail x)) (
                moved i
                ∙ ap (λ k. (b.tail + k) % n) round
                ∙ add-mod_right b.tail n
                ∙ mod-eq_of_lt v.tail_fits)
              ∙ get_elem?-set_self b.buffer b.tail x (omega (arith, v.filled, v.tail_fits))
              ∙ sym (get_elem?-append_last (drop 1 xs) x i last)
        ];
      })

  push_alert-Holds :
      (xs : List A) (b : AlertBuffer A) (x : A)
      → Holds xs b
      → Holds (keep b.capacity xs x) (push_alert x b)
  unfolding keep
  push_alert-Holds xs b x v = elim (Bool-cases (ltb b.size b.capacity)) [
    | inl room ↦ rw (← v.sized, room) (push_room xs b x (ltb→lt b.size b.capacity room) v)
    | inr full ↦ rw (← v.sized, full) (push_full xs b x full v)
  ]

  push_alert-capacity : (x : A) (b : AlertBuffer A) → (push_alert x b).capacity ≡ b.capacity
  unfolding push_alert
  push_alert-capacity x b = ground arith

  unfoldable pub push_all : List A → AlertBuffer A → AlertBuffer A
  push_all [] b = b
  push_all (x ∷ xs) b = push_all xs (push_alert x b)

  push_all-Holds :
      (n : ℕ) (live xs : List A) (b : AlertBuffer A)
      → b.capacity ≡ n
      → Holds live b
      → Holds (keep_all n live xs) (push_all xs b)
  unfolding push_all keep_all
  push_all-Holds n live [] b e v = v
  push_all-Holds n live (x ∷ xs) b e v =
      push_all-Holds n (keep n live x) xs (push_alert x b) (push_alert-capacity x b ∙ e)
        (subst (λ c. Holds (keep c live x) (push_alert x b)) e (push_alert-Holds live b x v))

  new_buffer-Holds : (default : A) (n : ℕ) → 0 < n → Holds [] (new_buffer default n)
  unfolding new_buffer read_alert
  new_buffer-Holds default n h = rw (lt→ltb 0 n h) (record {
    positive = h;
    filled = length-replicate n default;
    sized = refl;
    bounded = omega arith;
    tail_fits = h;
    head_follows = sym (mod-eq_of_lt h);
    starts = λ _. refl;
    reads = λ i k. elim k [ ];
  })

  capacity_of : (default : A) (n : ℕ) → 0 < n → (new_buffer default n).capacity ≡ n
  unfolding new_buffer
  capacity_of default n h = rw (lt→ltb 0 n h) refl

  collect-Holds :
      (xs : List A) (b : AlertBuffer A) (n i : ℕ)
      → Holds xs b
      → i + n ≡ length xs
      → collect b n i ≡ some (drop i xs)
  unfolding collect
  collect-Holds xs b zero i v e = ap some (sym (drop-length xs i (omega (arith, e))))
  collect-Holds xs b (suc n) i v e =
      let lt : i < length xs = omega (arith, e) in
      let (a, here, rest) = drop-get_elem? xs i lt in
      rw (v.reads i lt ∙ here, collect-Holds xs b n (suc i) v (omega (arith, e)), rest) refl

  get_snapshot-Holds : (xs : List A) (b : AlertBuffer A) → Holds xs b → get_snapshot b ≡ some xs
  unfolding get_snapshot
  get_snapshot-Holds xs b v = collect-Holds xs b b.size 0 v (omega (arith, v.sized))

  -- Whatever was pushed, a fresh buffer of `n` places reads nothing outside itself and its snapshot
  -- is the last `n` alerts, the oldest first (all of them, if there were no more).
  pub get_snapshot-push_all :
      (default : A) (n : ℕ) (xs : List A)
      → 0 < n
      → get_snapshot (push_all xs (new_buffer default n)) ≡ some (drop (length xs - n) xs)
  get_snapshot-push_all default n xs pos =
      get_snapshot-Holds (keep_all n [] xs) (push_all xs (new_buffer default n)) (
        push_all-Holds n [] xs (new_buffer default n) (capacity_of default n pos)
          (new_buffer-Holds default n pos))
      ∙ ap some (keep_all-drop n [] xs pos (omega arith) ∙ ap (λ k. drop k xs) (omega arith))
