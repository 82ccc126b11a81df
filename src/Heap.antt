-- ===== src/Heap.antt =====
-- ikernels/hls/heap.hpp: `heap<T, Size>`, a min-heap in a statically allocated array.
-- `_data` is a function of the index; the template's `Size` is the argument `capacity`. The index
-- arithmetic on `unsigned int` wraps at 32 bits. `none` is a loop that ran out of fuel, or a loop
-- whose test reads past the array; the theorems in the child modules rule it out.
pub mod Order
pub mod Up
pub mod Down
pub mod Operations
pub mod Tests
use nica.Base.{
  ℕ, zero, suc, ◌+◌, ◌-◌, ◌*◌, ◌/◌, ◌%◌, ◌^◌, ◌≡◌, Bool, true, false, Option, none, some, ltb, leb,
  ◌==◌, if◌then◌else◌, store, swap,
}

-- The comparisons of the element type: `<` and `>` compare a number, as those of `int` and of
-- the (entity, frequency) pairs do.
pub record Ordered (T : Type 0) : Type 0 where
  pub rank : T → ℕ
  pub lt : T → T → Bool
  pub gt : T → T → Bool
  pub lt-rank : (a b : T) → lt a b ≡ ltb (rank a) (rank b)
  pub gt-rank : (a b : T) → gt a b ≡ ltb (rank b) (rank a)

pub record Heap (T : Type 0) : Type 0 where
  pub entries : ℕ → T
  pub size : ℕ

abbrev pub uint : ℕ
uint = 2 ^ 32

module _ {T : Type 0} where
  -- `none` is -1. At index 0 the source computes `(int)(0u - 1) / 2`, which is 0.
  unfoldable pub parent : Heap T → ℕ → Option ℕ
  parent h idx = if leb h.size 1 then none else some ((idx - 1) / 2)

  unfoldable pub child : Heap T → ℕ → Option ℕ
  child h idx =
      if leb h.size 1
      then none
      else if leb h.size ((2 * idx + 1) % uint)
      then none
      else some ((2 * idx + 1) % uint)

  abbrev pub swap_at : Heap T → ℕ → ℕ → Heap T
  swap_at h i j = record h { entries = swap h.entries i j }

  unfoldable pub is_empty : Heap T → Bool
  is_empty h = h.size == 0

  unfoldable pub get_item : Heap T → ℕ → T
  get_item h idx = h.entries idx

  unfoldable pub peek : Heap T → T
  peek h = h.entries 0

  -- The constructor; the array's contents are not initialised.
  unfoldable pub new : (ℕ → T) → Heap T
  new junk = record { entries = junk; size = 0 }

module _ {T : Type 0} (o : Ordered T) where
  unfoldable pub bubble_up : ℕ → Heap T → ℕ → Option (Heap T × ℕ)
  bubble_up zero h idx = none
  bubble_up (suc fuel) h idx = elim (parent h idx) [
    | none ↦ some (h, idx)
    | some p ↦
        let rest = bubble_up fuel (swap_at h p idx) p in
        if o.gt (h.entries p) (h.entries idx) then rest else some (h, idx)
  ]

  unfoldable pub get_min_idx : Heap T → ℕ → ℕ → ℕ → ℕ
  get_min_idx h a b c =
      let is_left_smaller = o.lt (h.entries a) (h.entries b) in
      if leb h.size c
      then (if is_left_smaller then a else b)
      else if is_left_smaller
      then (if o.lt (h.entries a) (h.entries c) then a else c)
      else if o.lt (h.entries b) (h.entries c)
      then b
      else c

  unfoldable pub bubble_down : ℕ → Heap T → ℕ → Option (Heap T × ℕ)
  bubble_down zero h idx = none
  bubble_down (suc fuel) h idx = elim (child h idx) [
    | none ↦ some (h, idx)
    | some c ↦
        let m = get_min_idx h idx c (c + 1) in
        let rest = bubble_down fuel (swap_at h m idx) m in if m == idx then some (h, idx) else rest
  ]

  -- The fuel of a call: the index for the way up, the size for the way down.
  unfoldable pub up : Heap T → ℕ → Option (Heap T × ℕ)
  up h idx = bubble_up (suc idx) h idx

  unfoldable pub down : Heap T → ℕ → Option (Heap T × ℕ)
  down h idx = bubble_down (suc h.size) h idx

  unfoldable pub insert : ℕ → Heap T → T → Option (Heap T × ℕ)
  insert capacity h val =
      if leb capacity h.size
      then down (record h { entries = store h.entries 0 val }) 0
      else up (record { entries = store h.entries h.size val; size = (h.size + 1) % uint })
          (((h.size + 1) % uint + uint - 1) % uint)

  unfoldable pub update : Heap T → ℕ → T → Option (Heap T × ℕ)
  update h idx new_val =
      let h' = record h { entries = store h.entries idx new_val } in
      if o.lt (h.entries idx) new_val then down h' idx else up h' idx

  -- The value returned, and the heap after it.
  unfoldable pub extract_min : Heap T → Option (T × Heap T)
  extract_min h =
      let last = (h.size + uint - 1) % uint in
      elim (down (record { entries = store h.entries 0 (h.entries last); size = last }) 0) [
        | none ↦ none
        | some (h', _) ↦ some (h.entries 0, h')
      ]
