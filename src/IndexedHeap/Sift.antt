-- ===== src/IndexedHeap/Sift.antt =====
-- The sifts keep the index: what the cache finds is where the entity stands.
use nica.Base.{
  ℕ, zero, suc, ◌+◌, ◌<◌, ◌≤◌, ◌≡◌, ◌≢◌, sym, ◌∙◌, ap, arith, inl, inr, Option, some, ◌==◌,
  Bool-cases, Option-cases, store,
}
use mathlib.Core.Path.{subst}
use nica.Heap.{Heap, Ordered, parent, child, get_min_idx, swap_at}
use nica.IndexedHeap.{CacheLib, IndexedHeap, swap_entries, bubble_up, bubble_down}

module _ {T K : Type 0} (o : Ordered T) (entity : T → K) (lib : CacheLib K) where
  -- Every index that `find` returns is in use, by a value of that entity.
  abbrev pub IsIndexed : IndexedHeap o entity lib → Type 0
  IsIndexed s =
      (k : K) (w : ℕ)
      → lib.find s.cache k ≡ some w
      → (w < s.heap.size) × (entity (s.heap.entries w) ≡ k)

  swap_at_right : (h : Heap T) (a b : ℕ) → (swap_at h a b).entries b ≡ h.entries a
  swap_at_right h a b = ground arith

  swap_at_left : (h : Heap T) (a b : ℕ) → (swap_at h a b).entries a ≡ h.entries b
  swap_at_left h a b = ground arith

  swap_at_other : (h : Heap T) (a b w : ℕ) → w ≢ a → w ≢ b → (swap_at h a b).entries w ≡ h.entries w
  swap_at_other h a b w n m = ground arith

  pub store_other : (a : ℕ → T) (i w : ℕ) (x : T) → w ≢ i → store a i x w ≡ a w
  store_other a i w x n = ground arith

  swap_entries-IsIndexed :
      (s : IndexedHeap o entity lib) (a b : ℕ)
      → a < s.heap.size
      → b < s.heap.size
      → IsIndexed s
      → IsIndexed (swap_entries o entity lib s a b)
  unfolding swap_entries
  swap_entries-IsIndexed s a b ha hb v k w found =
      let h = s.heap in
      let h' = swap_at h a b in
      let first = lib.insert s.cache (entity (h'.entries a)) a in
      elim (lib.find-insert first (entity (h'.entries b)) k b w found) [
        | inl (key, at) ↦ rw at (hb, sym key)
        | inr (other, found') ↦
            elim (lib.find-insert s.cache (entity (h'.entries a)) k a w found') [
              | inl (key, at) ↦ rw at (ha, sym key)
              | inr (other', found'') ↦
                  let (inside, key) = v k w found'' in
                  let not_a : w ≢ a = λ e. other (
                    sym key
                    ∙ ap (λ i. entity (h.entries i)) e
                    ∙ ap entity (sym (swap_at_right h a b))) in
                  let not_b : w ≢ b = λ e. other' (
                    sym key
                    ∙ ap (λ i. entity (h.entries i)) e
                    ∙ ap entity (sym (swap_at_left h a b))) in
                  (inside, rw (swap_at_other h a b w not_a not_b) key)
            ]
      ]

  parent-le : (h : Heap T) (i : ℕ) {p : ℕ} → parent h i ≡ some p → p ≤ i
  unfolding parent
  parent-le h i e = ground arith

  child-lt : (h : Heap T) (i : ℕ) {c : ℕ} → child h i ≡ some c → c < h.size
  unfolding child
  child-lt h i e = ground arith

  get_min_idx-lt :
      (h : Heap T) (i c : ℕ) → i < h.size → c < h.size → get_min_idx o h i c (c + 1) < h.size
  unfolding get_min_idx
  get_min_idx-lt h i c hi hc = ground arith

  -- A sift that starts inside the heap ends inside it, with the same size, at the value that it
  -- started with, and keeps the index.
  abbrev pub Kept : ℕ → T → IndexedHeap o entity lib × ℕ → Type 0
  Kept size x r = (r.1 < size) × (r.0.heap.size ≡ size) × (r.0.heap.entries r.1 ≡ x) × IsIndexed r.0

  abbrev pub Keeps : ℕ → T → Option (IndexedHeap o entity lib × ℕ) → Type 0
  Keeps size x result = (r : IndexedHeap o entity lib × ℕ) → result ≡ some r → Kept size x r

  swap_entries-size :
      (s : IndexedHeap o entity lib) (a b : ℕ) {size : ℕ}
      → s.heap.size ≡ size
      → (swap_entries o entity lib s a b).heap.size ≡ size
  unfolding swap_entries
  swap_entries-size s a b e = e

  swap_entries-at :
      (s : IndexedHeap o entity lib) (a b : ℕ) {x : T}
      → s.heap.entries b ≡ x
      → (swap_entries o entity lib s a b).heap.entries a ≡ x
  unfolding swap_entries
  swap_entries-at s a b e = swap_at_left s.heap a b ∙ e

  Keeps-stop :
      (s : IndexedHeap o entity lib) (i : ℕ) {x : T} {size : ℕ}
      → s.heap.size ≡ size
      → i < size
      → s.heap.entries i ≡ x
      → IsIndexed s
      → Keeps size x (some (s, i))
  Keeps-stop s i {x} {size} n h at v r e =
      let same : (s, i) ≡ r = cc in subst (Kept size x) same (h, n, at, v)

  pub bubble_up-Keeps :
      (fuel : ℕ) (s : IndexedHeap o entity lib) (i : ℕ) {x : T} {size : ℕ}
      → s.heap.size ≡ size
      → i < size
      → s.heap.entries i ≡ x
      → IsIndexed s
      → Keeps size x (bubble_up o entity lib fuel s i)
  unfolding bubble_up
  bubble_up-Keeps zero s i n h at v = λ r e. cc
  bubble_up-Keeps (suc fuel) s i n h at v = elim (Option-cases (parent s.heap i)) [
    | inl e ↦ rw (e, bubble_up) (Keeps-stop s i n h at v)
    | inr (p, e) ↦
        let hp : p ≤ i = parent-le s.heap i e in
        let rest =
          bubble_up-Keeps fuel (swap_entries o entity lib s p i) p (swap_entries-size s p i n)
            (omega arith) (swap_entries-at s p i at)
            (swap_entries-IsIndexed s p i (omega arith) (omega arith) v) in
        elim (Bool-cases (o.gt (s.heap.entries p) (s.heap.entries i))) [
          | inl g ↦ rw (e, bubble_up, g) rest
          | inr g ↦ rw (e, bubble_up, g) (Keeps-stop s i n h at v)
        ]
  ]

  pub bubble_down-Keeps :
      (fuel : ℕ) (s : IndexedHeap o entity lib) (i : ℕ) {x : T} {size : ℕ}
      → s.heap.size ≡ size
      → i < size
      → s.heap.entries i ≡ x
      → IsIndexed s
      → Keeps size x (bubble_down o entity lib fuel s i)
  unfolding bubble_down
  bubble_down-Keeps zero s i n h at v = λ r e. cc
  bubble_down-Keeps (suc fuel) s i n h at v = elim (Option-cases (child s.heap i)) [
    | inl e ↦ rw (e, bubble_down) (Keeps-stop s i n h at v)
    | inr (c, e) ↦
        let m = get_min_idx o s.heap i c (c + 1) in
        let hm = get_min_idx-lt s.heap i c (omega arith) (child-lt s.heap i e) in
        let rest =
          bubble_down-Keeps fuel (swap_entries o entity lib s m i) m (swap_entries-size s m i n)
            (omega arith) (swap_entries-at s m i at)
            (swap_entries-IsIndexed s m i (omega arith) (omega arith) v) in
        elim (Bool-cases (m == i)) [
          | inl g ↦ rw (e, bubble_down, g) (Keeps-stop s i n h at v)
          | inr g ↦ rw (e, bubble_down, g) rest
        ]
  ]
