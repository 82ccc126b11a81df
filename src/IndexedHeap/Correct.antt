-- ===== src/IndexedHeap/Correct.antt =====
-- The operations of the indexed heap end, do what the heap's do, and keep the index sound.
use mathlib.Core.Path.{subst}
use nica.Base.{ℕ, ◌≤◌, ◌<◌, ◌≡◌, refl, ◌∙◌, Option, none, some}
use nica.Heap.{Heap, Ordered}
use nica.Heap.Order.{max_size, IsHeap}
use nica.Heap.Operations.{Inserted, insert_correct, Updated, update_correct}
use nica.IndexedHeap.{CacheLib, IndexedHeap, insert, update}
use nica.IndexedHeap.Refines.{forget, insert-refines, update-refines}
use nica.IndexedHeap.Sift.{IsIndexed}
use nica.IndexedHeap.Index.{insert-IsIndexed, update-IsIndexed}

module _ {T K : Type 0} (o : Ordered T) (entity : T → K) (lib : CacheLib K) where
  abbrev pub bare : IndexedHeap o entity lib × ℕ → Heap T × ℕ
  bare r = (r.0.heap, r.1)

  forget-some :
      (x : Option (IndexedHeap o entity lib × ℕ)) {q : Heap T × ℕ}
      → forget o entity lib x ≡ some q
      → (r : IndexedHeap o entity lib × ℕ) × (x ≡ some r) × (q ≡ bare r)
  forget-some none e = absurd (none_ne e)
    where
      none_ne : {q : Heap T × ℕ} → none ≡ some q → ⊥
      none_ne e = cc
  forget-some (some r) e = (r, refl, cc)

  -- `insert` on a heap in order with a sound index, not larger than its array, where the array is
  -- not empty and `int` indices suffice for it, ends with a heap in order that holds the new value
  -- (in place of the old root if the array was full) and a sound index.
  pub IsIndexed-insert_correct :
      (capacity : ℕ) (s : IndexedHeap o entity lib) (val : T)
      → IsHeap o s.heap
      → IsIndexed o entity lib s
      → 0 < capacity
      → s.heap.size ≤ capacity
      → capacity ≤ max_size
      → (r : IndexedHeap o entity lib × ℕ) × (insert o entity lib capacity s val ≡ some r)
        × Inserted o capacity s.heap val (bare r)
        × IsIndexed o entity lib r.0
  IsIndexed-insert_correct capacity s val heap index pos fits small =
      let (q, run, done) = insert_correct o capacity s.heap val heap pos fits small in
      let (r, run', same) =
        forget-some (insert o entity lib capacity s val)
          (insert-refines o entity lib capacity s val ∙ run) in
      (
        r,
        run',
        subst (Inserted o capacity s.heap val) same done,
        insert-IsIndexed o entity lib capacity s val r pos small fits index run',
      )

  -- `update`, by a value of the same entity, at an index in use of a heap in order with a sound
  -- index, for whose size `int` indices suffice, ends with a heap in order that has the new value
  -- in place of the old one, and a sound index.
  pub IsIndexed-update_correct :
      (s : IndexedHeap o entity lib) (i : ℕ) (val : T)
      → IsHeap o s.heap
      → IsIndexed o entity lib s
      → i < s.heap.size
      → s.heap.size ≤ max_size
      → entity val ≡ entity (s.heap.entries i)
      → (r : IndexedHeap o entity lib × ℕ) × (update o entity lib s i val ≡ some r)
        × Updated o s.heap i val (bare r)
        × IsIndexed o entity lib r.0
  IsIndexed-update_correct s i val heap index inside small same_entity =
      let (q, run, done) = update_correct o s.heap i val heap inside small in
      let (r, run', same) =
        forget-some (update o entity lib s i val) (update-refines o entity lib s i val ∙ run) in
      (
        r,
        run',
        subst (Updated o s.heap i val) same done,
        (update-IsIndexed o entity lib s i val r inside same_entity index run').0,
      )
