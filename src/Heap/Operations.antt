-- ===== src/Heap/Operations.antt =====
-- The public operations: they end, keep the heap order, and change the multiset of the values as
-- their names say. `extractMin` returns a least value.
use nica.Base.{
  ℕ, zero, suc, ◌+◌, ◌-◌, ◌≤◌, ◌<◌, ◌≡◌, Bool, true, false, ◌%◌, arith, some, inl, inr, leb,
  Bool-cases, count, count-store, count-store_above, store, if◌then◌else◌, ◌∙◌,
}
use nica.Heap.{Heap, Ordered, insert, update, extract_min, up, down, uint}
use nica.Heap.Order.{above, max_size, key, IsHeap, UpInv, DownInv, Settled}
use nica.Heap.Up.{up-Settles}
use nica.Heap.Down.{down-Settles}

-- 1 if the value counts, else 0.
abbrev pub one {ℓ} : {T : Type ℓ} → (T → Bool) → T → ℕ
one p x = if p x then 1 else 0

module _ {T : Type 0} (o : Ordered T) where
  root_least_below :
      (k : ℕ) (h : Heap T) (i : ℕ) → IsHeap o h → i < k → i < h.size → key o h 0 ≤ key o h i
  root_least_below zero h i heap f p = absurd (omega arith)
  root_least_below (suc k) h i heap f p =
      ground (arith, heap i, root_least_below k h (above i) heap)

  -- The root of a heap holds a least key.
  pub root_least : (h : Heap T) (i : ℕ) → IsHeap o h → i < h.size → key o h 0 ≤ key o h i
  root_least h i heap p = root_least_below (suc i) h i heap (omega arith) p

  -- What `insert` leaves: a heap in which `val` stands at the returned index, with one value more,
  -- or in place of the old root where the array was full.
  pub record Inserted (capacity : ℕ) (h : Heap T) (val : T) (r : Heap T × ℕ) : Type 0 where
    pub ordered : IsHeap o r.0
    pub size : r.0.size ≡ (if leb capacity h.size then h.size else h.size + 1)
    pub at : r.0.entries r.1 ≡ val
    pub inside : r.1 < r.0.size
    pub values :
        (p : T → Bool)
        → count p r.0.size r.0.entries + (if leb capacity h.size then one p (h.entries 0) else 0)
          ≡ count p h.size h.entries + one p val

  insert-full :
      (capacity : ℕ) (h : Heap T) (val : T)
      → IsHeap o h
      → 0 < h.size
      → h.size ≤ max_size
      → leb capacity h.size ≡ true
      → (r : Heap T × ℕ) × (insert o capacity h val ≡ some r) × Inserted capacity h val r
  unfolding insert
  insert-full capacity h val heap pos small full =
      let h' = record h { entries = store h.entries 0 val } in
      let inv : DownInv o h' 0 = record {
        edges = λ c p q e. ground (arith, heap c);
        bridged = omega arith;
      } in
      let (r, run, s) = down-Settles o h' 0 small (omega arith) inv in
      (
        r,
        rw full run,
        record {
          ordered = s.ordered;
          size = rw full s.size;
          at = s.found;
          inside = omega (arith, s.inside pos);
          values = λ p. rw (full, s.size, s.same p) (count-store p h.size h.entries 0 val pos);
        },
      )

  insert-up :
      (capacity : ℕ) (h : Heap T) (val : T)
      → capacity ≤ max_size
      → leb capacity h.size ≡ false
      → insert o capacity h val
        ≡ up o (record { entries = store h.entries h.size val; size = suc h.size }) h.size
  unfolding insert
  insert-up capacity h val small room =
      let below : h.size < max_size = ground arith in
      let grown : (h.size + 1) % uint ≡ suc h.size = omega arith in
      let index : (suc h.size + uint - 1) % uint ≡ h.size = omega arith in rw (room, grown, index)

  insert-room :
      (capacity : ℕ) (h : Heap T) (val : T)
      → IsHeap o h
      → capacity ≤ max_size
      → leb capacity h.size ≡ false
      → (r : Heap T × ℕ) × (insert o capacity h val ≡ some r) × Inserted capacity h val r
  unfolding count
  insert-room capacity h val heap small room =
      let below : h.size < max_size = ground arith in
      let h' : Heap T = record { entries = store h.entries h.size val; size = suc h.size } in
      let inv : UpInv o h' h.size = record {
        inside = omega arith;
        edges = λ c p q n. ground (arith, heap c);
        bridged = omega arith;
      } in
      let (r, run, s) = up-Settles o h' h.size inv in
      (
        r,
        insert-up capacity h val small room ∙ run,
        record {
          ordered = s.ordered;
          size = rw room (s.size ∙ omega arith);
          at = s.found ∙ ground arith;
          inside = omega (arith, s.inside (omega arith), s.size);
          values = λ p.
              rw (room, s.size, s.same p)
                (ground (arith, count-store_above p h.size h.entries h.size val));
        },
      )

  -- `insert` on a heap in order that is not larger than its array, where the array is not empty
  -- and `int` indices suffice for it, ends and leaves a heap in order with the new value at the
  -- index that it returns; if the array was full, in place of the old root.
  pub insert_correct :
      (capacity : ℕ) (h : Heap T) (val : T)
      → IsHeap o h
      → 0 < capacity
      → h.size ≤ capacity
      → capacity ≤ max_size
      → (r : Heap T × ℕ) × (insert o capacity h val ≡ some r) × Inserted capacity h val r
  insert_correct capacity h val heap pos fits small = elim (Bool-cases (leb capacity h.size)) [
    | inl full ↦ insert-full capacity h val heap (ground arith) (omega arith) full
    | inr room ↦ insert-room capacity h val heap small room
  ]

  -- What `update` leaves: a heap with the new value in place of the old one.
  pub record Updated (h : Heap T) (idx : ℕ) (val : T) (r : Heap T × ℕ) : Type 0 where
    pub ordered : IsHeap o r.0
    pub size : r.0.size ≡ h.size
    pub at : r.0.entries r.1 ≡ val
    pub values :
        (p : T → Bool)
        → count p h.size r.0.entries + one p (h.entries idx) ≡ count p h.size h.entries + one p val

  Settled-Updated :
      (h : Heap T) (idx : ℕ) (val : T) (r : Heap T × ℕ)
      → idx < h.size
      → Settled o (record h { entries = store h.entries idx val }) idx r
      → Updated h idx val r
  Settled-Updated h idx val r inside s = record {
    ordered = s.ordered;
    size = s.size;
    at = s.found ∙ ground arith;
    values = λ p. rw (s.same p) (count-store p h.size h.entries idx val inside);
  }

  -- `update` at an index in use of a heap in order, for whose size `int` indices suffice, ends and
  -- leaves a heap in order with the new value in place of the old one.
  pub update_correct :
      (h : Heap T) (idx : ℕ) (val : T)
      → IsHeap o h
      → idx < h.size
      → h.size ≤ max_size
      → (r : Heap T × ℕ) × (update o h idx val ≡ some r) × Updated h idx val r
  unfolding update
  update_correct h idx val heap inside small =
      let compare_old = o.lt-rank (h.entries idx) val in
      let h' = record h { entries = store h.entries idx val } in
      elim (Bool-cases (o.lt (h.entries idx) val)) [
        | inl grows ↦
            let inv : DownInv o h' idx = record {
              edges = λ c p q n. ground (arith, heap c, compare_old);
              bridged = λ c p q e t. ground (arith, heap c, heap idx);
            } in
            let (r, run, s) = down-Settles o h' idx small (omega arith) inv in
            (r, rw grows run, Settled-Updated h idx val r inside s)
        | inr falls ↦
            let inv : UpInv o h' idx = record {
              inside = inside;
              edges = λ c p q n. ground (arith, heap c, compare_old);
              bridged = λ c p q e t. ground (arith, heap c, heap idx);
            } in
            let (r, run, s) = up-Settles o h' idx inv in
            (r, rw falls run, Settled-Updated h idx val r inside s)
      ]

  -- What `extractMin` leaves: a least value, and a heap of the others.
  pub record Extracted (h : Heap T) (r : T × Heap T) : Type 0 where
    pub least : (i : ℕ) → i < h.size → o.rank r.0 ≤ key o h i
    pub ordered : IsHeap o r.1
    pub size : r.1.size + 1 ≡ h.size
    pub values :
        (p : T → Bool) → count p r.1.size r.1.entries + one p r.0 ≡ count p h.size h.entries

  without_root :
      (p : T → Bool) (h : Heap T) (n : ℕ)
      → h.size ≡ suc n
      → count p n (store h.entries 0 (h.entries n)) + one p (h.entries 0) ≡ count p h.size h.entries
  unfolding count
  without_root p h zero e = rw e (omega arith)
  without_root p h (suc n) e =
      rw e (omega (arith, count-store p (suc n) h.entries 0 (h.entries (suc n)) (omega arith)))

  extract_min-down :
      (h : Heap T) {r : Heap T × ℕ}
      → 0 < h.size
      → h.size ≤ max_size
      → down o
          (record { entries = store h.entries 0 (h.entries (h.size - 1)); size = h.size - 1 })
          0
        ≡ some r
      → extract_min o h ≡ some (h.entries 0, r.0)
  unfolding extract_min
  extract_min-down h pos small run =
      let last : (h.size + uint - 1) % uint ≡ h.size - 1 = omega arith in
      rw (last, extract_min, run)

  -- `extractMin` on a heap in order that is not empty, for whose size `int` indices suffice, ends,
  -- returns a least value, and leaves a heap in order of the others.
  pub extract_min_correct :
      (h : Heap T)
      → IsHeap o h
      → 0 < h.size
      → h.size ≤ max_size
      → (r : T × Heap T) × (extract_min o h ≡ some r) × Extracted h r
  extract_min_correct h heap pos small =
      let h' : Heap T = record {
        entries = store h.entries 0 (h.entries (h.size - 1));
        size = h.size - 1;
      } in
      let inv : DownInv o h' 0 = record {
        edges = λ c p q n. ground (arith, heap c);
        bridged = omega arith;
      } in
      let (r, run, s) = down-Settles o h' 0 (omega arith) (omega arith) inv in
      (
        (h.entries 0, r.0),
        extract_min-down h pos small run,
        record {
          least = λ i q. root_least h i heap q;
          ordered = s.ordered;
          size = omega (arith, s.size);
          values = λ p. rw (s.size, s.same p) (without_root p h (h.size - 1) (omega arith));
        },
      )
