-- ===== src/IndexedHeap/Index.antt =====
-- The public operations keep the index sound: what the cache finds is where the entity stands.
use nica.Base.{
  ℕ, suc, ◌+◌, ◌-◌, ◌%◌, ◌<◌, ◌≤◌, ◌≡◌, ◌≢◌, refl, sym, ◌∙◌, ap, arith, inl, inr, none, some, leb,
  Bool-cases, Option-cases, store,
}
use mathlib.Core.Path.{subst}
use nica.Heap.{Ordered, uint}
use nica.Heap.Order.{max_size}
use nica.IndexedHeap.{CacheLib, IndexedHeap, up, down, place, note, insert, update}
use nica.IndexedHeap.Sift.{IsIndexed, Keeps, bubble_up-Keeps, bubble_down-Keeps, store_other}

module _ {T K : Type 0} (o : Ordered T) (entity : T → K) (lib : CacheLib K) where
  -- The start of `insert`: the sift that it calls keeps the index.
  place-Keeps :
      (capacity : ℕ) (s : IndexedHeap o entity lib) (val : T)
      → 0 < capacity
      → capacity ≤ max_size
      → s.heap.size ≤ capacity
      → IsIndexed o entity lib s
      → (size : ℕ) × Keeps o entity lib size val (place o entity lib s val capacity)
  unfolding place up down
  place-Keeps capacity s val pos small fits v =
      let h = s.heap in
      elim (Bool-cases (leb capacity h.size)) [
        | inl full ↦
            let start : IndexedHeap o entity lib = record {
              heap = record h { entries = store h.entries 0 val };
              cache = lib.erase s.cache (entity (h.entries 0));
            } in
            let v' : IsIndexed o entity lib start = λ k w found.
              let (other, found') = lib.find-erase s.cache (entity (h.entries 0)) k w found in
              let (inside, key) = v k w found' in
              let n : w ≢ 0 = λ e. other (sym key ∙ ap (λ i. entity (h.entries i)) e) in
              (inside, rw (store_other o entity lib h.entries 0 w val n) key) in
            (
              h.size,
              rw full
                  (bubble_down-Keeps o entity lib (suc h.size) start 0 refl (ground arith) refl v'),
            )
        | inr room ↦
            let start : IndexedHeap o entity lib = record s {
              heap = record { entries = store h.entries h.size val; size = suc h.size };
            } in
            let v' : IsIndexed o entity lib start = λ k w found.
              let (inside, key) = v k w found in
              let n : w ≢ h.size = omega arith in
              (omega arith, rw (store_other o entity lib h.entries h.size w val n) key) in
            let below : h.size < max_size = ground arith in
            let grown : (h.size + 1) % uint ≡ suc h.size = omega arith in
            let index : (suc h.size + uint - 1) % uint ≡ h.size = omega arith in
            (
              suc h.size,
              rw (room, grown, index)
                  (bubble_up-Keeps o entity lib (suc h.size) start h.size refl (omega arith)
                    (ground arith) v'),
            )
      ]

  note-none : (val : T) (r : IndexedHeap o entity lib × ℕ) → ¬ (note o entity lib val none ≡ some r)
  unfolding note
  note-none val r e = cc

  note-IsIndexed :
      (t : IndexedHeap o entity lib) (i : ℕ) (val : T) (r : IndexedHeap o entity lib × ℕ)
      → i < t.heap.size
      → t.heap.entries i ≡ val
      → IsIndexed o entity lib t
      → note o entity lib val (some (t, i)) ≡ some r
      → IsIndexed o entity lib r.0
  unfolding note
  note-IsIndexed t i val r inside at v run =
      let t' : IndexedHeap o entity lib = record t { cache = lib.insert t.cache (entity val) i } in
      let same : (t', i) ≡ r = cc in
      subst (λ (q : IndexedHeap o entity lib × ℕ). IsIndexed o entity lib q.0) same
        λ k w found. elim (lib.find-insert t.cache (entity val) k i w found) [
          | inl (key, e) ↦ rw e (inside, ap entity at ∙ sym key)
          | inr (_, found') ↦ v k w found'
        ]

  -- `insert` keeps the index sound.
  pub insert-IsIndexed :
      (capacity : ℕ) (s : IndexedHeap o entity lib) (val : T) (r : IndexedHeap o entity lib × ℕ)
      → 0 < capacity
      → capacity ≤ max_size
      → s.heap.size ≤ capacity
      → IsIndexed o entity lib s
      → insert o entity lib capacity s val ≡ some r
      → IsIndexed o entity lib r.0
  unfolding insert
  insert-IsIndexed capacity s val r pos small fits v run =
      let (size, keeps) = place-Keeps capacity s val pos small fits v in
      elim (Option-cases (place o entity lib s val capacity)) [
        | inl e ↦ absurd (note-none val r (rw e at run))
        | inr ((t, i), e) ↦
            let (inside, same, at, v') = keeps (t, i) e in
            note-IsIndexed t i val r (omega arith) at v' (rw e at run)
      ]

  -- `update` at an index in use, by a value of the same entity, keeps the index sound.
  pub update-IsIndexed :
      (s : IndexedHeap o entity lib) (i : ℕ) (val : T) (r : IndexedHeap o entity lib × ℕ)
      → i < s.heap.size
      → entity val ≡ entity (s.heap.entries i)
      → IsIndexed o entity lib s
      → update o entity lib s i val ≡ some r
      → IsIndexed o entity lib r.0 × (r.0.heap.entries r.1 ≡ val)
  unfolding update up down
  update-IsIndexed s i val r h same v run =
      let changed = record s { heap = record s.heap { entries = store s.heap.entries i val } } in
      let at : changed.heap.entries i ≡ val = ground arith in
      let v' : IsIndexed o entity lib changed =
        λ k w found. ((v k w found).0, ground (arith, v k w found)) in
      let goes : Keeps o entity lib s.heap.size val (update o entity lib s i val) =
        elim (Bool-cases (o.lt (s.heap.entries i) val)) [
          | inl grows ↦
              rw grows (bubble_down-Keeps o entity lib (suc s.heap.size) changed i refl h at v')
          | inr falls ↦ rw falls (bubble_up-Keeps o entity lib (suc i) changed i refl h at v')
        ] in
      let kept = goes r run in (kept.3, kept.2)
