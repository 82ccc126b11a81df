-- ===== src/Heap/Down.antt =====
-- The way down: `bubbleDown` restores the heap order.
use nica.Base.{
  ℕ, zero, suc, ◌+◌, ◌*◌, ◌≤◌, ◌<◌, ◌≡◌, ◌≢◌, ◌⊎◌, refl, arith, none, some, inl, inr, leb, leb→le,
  ◌==◌, Bool-cases,
}
use nica.Heap.{Heap, Ordered, child, swap_at, get_min_idx, bubble_down, down}
use nica.Heap.Order.{above, max_size, key, DownInv, Settled, Settles, Settled-swap}

module _ {T : Type 0} (o : Ordered T) where
  -- `m` holds the least key among `i` and its children.
  record IsLeast (h : Heap T) (i m : ℕ) : Type 0 where
    inside : m < h.size
    place : (m ≡ i) ⊎ ((m ≡ 2 * i + 1) ⊎ (m ≡ 2 * i + 2))
    le_parent : key o h m ≤ key o h i
    le_children : (c : ℕ) → 0 < c → c < h.size → above c ≡ i → key o h m ≤ key o h c

  child_of : (c i : ℕ) → 0 < c → above c ≡ i → (c ≡ 2 * i + 1) ⊎ (c ≡ 2 * i + 2)
  child_of c i p e = omega arith

  get_min_idx-IsLeast :
      (h : Heap T) (i : ℕ)
      → 2 * i + 1 < h.size
      → IsLeast h i (get_min_idx o h i (2 * i + 1) (2 * i + 1 + 1))
  unfolding get_min_idx
  get_min_idx-IsLeast h i p =
      let ab = o.lt-rank (h.entries i) (h.entries (2 * i + 1)) in
      let ac = o.lt-rank (h.entries i) (h.entries (2 * i + 1 + 1)) in
      let bc = o.lt-rank (h.entries (2 * i + 1)) (h.entries (2 * i + 1 + 1)) in
      record {
        inside = ground (arith, ab, ac, bc);
        place = ground (arith, ab, ac, bc);
        le_parent = ground (arith, ab, ac, bc);
        le_children = λ c q r e. ground (arith, child_of c i, ab, ac, bc);
      }

  swap-DownInv :
      (h : Heap T) (i m : ℕ) → DownInv o h i → IsLeast h i m → m ≢ i → DownInv o (swap_at h m i) m
  swap-DownInv h i m v s n = record {
    edges = λ c p q r. ground (arith, v.edges c, v.bridged m, s.le_children c);
    bridged = λ c p q e t. ground (arith, v.edges c);
  }

  Settled-here :
      (h : Heap T) (i : ℕ)
      → ((c : ℕ) → 0 < c → c < h.size → key o h (above c) ≤ key o h c)
      → Settled o h i (h, i)
  Settled-here h i ordered = record {
    ordered = ordered;
    size = refl;
    same = λ p. refl;
    found = refl;
    inside = λ q. q;
  }

  child-none :
      (h : Heap T) (i : ℕ) → h.size ≤ max_size → i ≤ h.size → h.size ≤ 2 * i + 1 → child h i ≡ none
  unfolding child
  child-none h i b c p = ground arith

  child-some :
      (h : Heap T) (i : ℕ) → h.size ≤ max_size → 2 * i + 1 < h.size → child h i ≡ some (2 * i + 1)
  unfolding child
  child-some h i b p = ground arith

  pub bubble_down-Settles :
      (fuel : ℕ) (h : Heap T) (i : ℕ)
      → h.size ≤ max_size
      → i ≤ h.size
      → h.size < fuel + i
      → DownInv o h i
      → Settles o h i (bubble_down o fuel h i)
  unfolding bubble_down
  bubble_down-Settles zero h i b w f v = absurd (omega arith)
  bubble_down-Settles (suc fuel) h i b w f v = elim (Bool-cases (leb h.size (2 * i + 1))) [
    | inl leaf ↦ (
      (h, i),
      rw (child-none h i b w (leb→le _ _ leaf), bubble_down),
      Settled-here h i (λ c p q. ground (arith, v.edges c)),
    )
    | inr inner ↦
        let deep : 2 * i + 1 < h.size = ground arith in
        let m = get_min_idx o h i (2 * i + 1) (2 * i + 1 + 1) in
        let least = get_min_idx-IsLeast h i deep in
        elim (Bool-cases (m == i)) [
          | inl done ↦ (
            (h, i),
            rw (child-some h i b deep, bubble_down, done),
            Settled-here h i (λ c p q. ground (arith, v.edges c, least.le_children c)),
          )
          | inr more ↦
              let ne : m ≢ i = ground arith in
              let (r, run, s) =
                bubble_down-Settles fuel (swap_at h m i) m b (omega (arith, least.inside))
                  (omega (arith, least.place)) (swap-DownInv h i m v least ne) in
              (
                r,
                rw (child-some h i b deep, bubble_down, more) run,
                Settled-swap o h i m (omega arith) least.inside s,
              )
        ]
  ]

  -- `bubbleDown` with the fuel of a call.
  pub down-Settles :
      (h : Heap T) (i : ℕ)
      → h.size ≤ max_size
      → i ≤ h.size
      → DownInv o h i
      → Settles o h i (down o h i)
  unfolding down
  down-Settles h i b w v = bubble_down-Settles (suc h.size) h i b w (omega arith) v
