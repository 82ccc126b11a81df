-- ===== src/IndexedHeap.antt =====
-- ikernels/hls/indexed_heap.hpp: `indexed_heap<T, K, HeapSize, CacheSize>`, the heap of heap.hpp
-- with a cache from an entity to its index. The cache is `ntl::cache`, which lies in a submodule:
-- it is the parameter `CacheLib`, with what the code relies on as its laws.
pub mod Refines
pub mod Sift
pub mod Index
pub mod Correct
mod Tests
use nica.Base.{
  ℕ, zero, suc, ◌+◌, ◌-◌, ◌*◌, ◌/◌, ◌%◌, ◌^◌, ◌≡◌, ◌≢◌, ◌⊎◌, Bool, Option, none, some, leb, ◌==◌,
  if◌then◌else◌, store,
}
use nica.Heap.{Heap, Ordered, parent, child, swap_at, get_min_idx, uint}

pub record CacheLib (K : Type 0) : Type 1 where
  pub Cache : Type 0
  pub insert : Cache → K → ℕ → Cache
  pub erase : Cache → K → Cache
  pub find : Cache → K → Option ℕ
  -- What a lookup finds was stored last under the key. A store may evict other keys.
  pub find-insert :
      (c : Cache) (j k : K) (v w : ℕ)
      → find (insert c j v) k ≡ some w
      → ((k ≡ j) × (w ≡ v)) ⊎ ((k ≢ j) × (find c k ≡ some w))
  pub find-erase :
      (c : Cache) (j k : K) (w : ℕ) → find (erase c j) k ≡ some w → (k ≢ j) × (find c k ≡ some w)

module _ {T K : Type 0} (o : Ordered T) (entity : T → K) (lib : CacheLib K) where
  -- `_data` and `_size` are those of a heap.
  pub record IndexedHeap : Type 0 where
    pub heap : Heap T
    pub cache : lib.Cache

module _ {T K : Type 0} (o : Ordered T) (entity : T → K) (lib : CacheLib K) where
  abbrev State : Type 0
  State = IndexedHeap o entity lib

  -- The private `swap`: the values, then the cache entries of both places.
  unfoldable pub swap_entries : State → ℕ → ℕ → State
  swap_entries s a b =
      let h = swap_at s.heap a b in
      record {
        heap = h;
        cache = lib.insert (lib.insert s.cache (entity (h.entries a)) a) (entity (h.entries b)) b;
      }

  unfoldable pub bubble_up : ℕ → State → ℕ → Option (State × ℕ)
  bubble_up zero s idx = none
  bubble_up (suc fuel) s idx = elim (parent s.heap idx) [
    | none ↦ some (s, idx)
    | some p ↦
        let rest = bubble_up fuel (swap_entries s p idx) p in
        if o.gt (s.heap.entries p) (s.heap.entries idx) then rest else some (s, idx)
  ]

  unfoldable pub bubble_down : ℕ → State → ℕ → Option (State × ℕ)
  bubble_down zero s idx = none
  bubble_down (suc fuel) s idx = elim (child s.heap idx) [
    | none ↦ some (s, idx)
    | some c ↦
        let m = get_min_idx o s.heap idx c (c + 1) in
        let rest = bubble_down fuel (swap_entries s m idx) m in
        if m == idx then some (s, idx) else rest
  ]

  unfoldable pub up : State → ℕ → Option (State × ℕ)
  up s idx = bubble_up (suc idx) s idx

  unfoldable pub down : State → ℕ → Option (State × ℕ)
  down s idx = bubble_down (suc s.heap.size) s idx

  unfoldable pub place : State → T → ℕ → Option (State × ℕ)
  place s val capacity =
      let h = s.heap in
      if leb capacity h.size
      then down
          (record {
            heap = record h { entries = store h.entries 0 val };
            cache = lib.erase s.cache (entity (h.entries 0));
          })
          0
      else up
          (record s {
            heap = record { entries = store h.entries h.size val; size = (h.size + 1) % uint };
          })
          (((h.size + 1) % uint + uint - 1) % uint)

  -- The last write of `insert`, after the sift.
  unfoldable pub note : T → Option (State × ℕ) → Option (State × ℕ)
  note val none = none
  note val (some (s, idx)) = some (record s { cache = lib.insert s.cache (entity val) idx }, idx)

  unfoldable pub insert : ℕ → State → T → Option (State × ℕ)
  insert capacity s val = note val (place s val capacity)

  unfoldable pub update : State → ℕ → T → Option (State × ℕ)
  update s idx new_val =
      let h = s.heap in
      let s' = record s { heap = record h { entries = store h.entries idx new_val } } in
      if o.lt (h.entries idx) new_val then down s' idx else up s' idx

  unfoldable pub find : State → K → Option ℕ
  find s key = lib.find s.cache key
