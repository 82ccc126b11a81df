-- ===== src/IndexedHeap/Refines.antt =====
-- Without its cache the indexed heap is the heap of heap.hpp.
use nica.Base.{
  ℕ, zero, suc, ◌+◌, ◌≡◌, refl, arith, inl, inr, Option-cases, Bool-cases, leb, ◌∙◌, Option, none,
  some,
}
use nica.Heap
use nica.Heap.{Heap, Ordered, parent, child, get_min_idx}
use nica.IndexedHeap.{
  CacheLib, IndexedHeap, swap_entries, bubble_up, bubble_down, up, down, place, note, insert,
  update,
}

module _ {T K : Type 0} (o : Ordered T) (entity : T → K) (lib : CacheLib K) where
  abbrev pub forget : Option (IndexedHeap o entity lib × ℕ) → Option (Heap T × ℕ)
  forget none = none
  forget (some (s, i)) = some (s.heap, i)

  bubble_up-refines :
      (fuel : ℕ) (s : IndexedHeap o entity lib) (i : ℕ)
      → forget (bubble_up o entity lib fuel s i) ≡ Heap.bubble_up o fuel s.heap i
  unfolding bubble_up Heap.bubble_up swap_entries
  bubble_up-refines zero s i = refl
  bubble_up-refines (suc fuel) s i = elim (Option-cases (parent s.heap i)) [
    | inl e ↦ rw (e, bubble_up, Heap.bubble_up)
    | inr (p, e) ↦
        let ih = bubble_up-refines fuel (swap_entries o entity lib s p i) p in
        rw (e, bubble_up, Heap.bubble_up) (ground (arith, ih))
  ]

  bubble_down-refines :
      (fuel : ℕ) (s : IndexedHeap o entity lib) (i : ℕ)
      → forget (bubble_down o entity lib fuel s i) ≡ Heap.bubble_down o fuel s.heap i
  unfolding bubble_down Heap.bubble_down swap_entries
  bubble_down-refines zero s i = refl
  bubble_down-refines (suc fuel) s i = elim (Option-cases (child s.heap i)) [
    | inl e ↦ rw (e, bubble_down, Heap.bubble_down)
    | inr (c, e) ↦
        let m = get_min_idx o s.heap i c (c + 1) in
        let ih = bubble_down-refines fuel (swap_entries o entity lib s m i) m in
        rw (e, bubble_down, Heap.bubble_down) (ground (arith, ih))
  ]

  forget-note :
      (val : T) (r : Option (IndexedHeap o entity lib × ℕ))
      → forget (note o entity lib val r) ≡ forget r
  unfolding note
  forget-note val none = refl
  forget-note val (some (s, i)) = refl

  -- `insert` does to the values and returns what `insert` of heap.hpp does and returns.
  pub insert-refines :
      (capacity : ℕ) (s : IndexedHeap o entity lib) (val : T)
      → forget (insert o entity lib capacity s val) ≡ Heap.insert o capacity s.heap val
  unfolding insert place Heap.insert up down Heap.up Heap.down
  insert-refines capacity s val =
      forget-note val (place o entity lib s val capacity)
      ∙ (elim (Bool-cases (leb capacity s.heap.size)) [
        | inl full ↦ rw full (bubble_down-refines _ _ _)
        | inr room ↦ rw room (bubble_up-refines _ _ _)
      ])

  -- `update` does to the values and returns what `update` of heap.hpp does and returns.
  pub update-refines :
      (s : IndexedHeap o entity lib) (i : ℕ) (val : T)
      → forget (update o entity lib s i val) ≡ Heap.update o s.heap i val
  unfolding update Heap.update up down Heap.up Heap.down
  update-refines s i val = elim (Bool-cases (o.lt (s.heap.entries i) val)) [
    | inl grows ↦ rw grows (bubble_down-refines _ _ _)
    | inr falls ↦ rw falls (bubble_up-refines _ _ _)
  ]
