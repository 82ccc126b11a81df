-- ===== src/Heap/Up.antt =====
-- The way up: `bubbleUp` restores the heap order.
use nica.Base.{ℕ, zero, suc, ◌≤◌, ◌<◌, ◌≡◌, refl, arith, inl, inr, ltb, leb, Bool-cases}
use nica.Heap.{Heap, Ordered, parent, swap_at, bubble_up, up}
use nica.Heap.Order.{above, key, UpInv, Settled, Settles, Settled-swap}

module _ {T : Type 0} (o : Ordered T) where
  swap-UpInv :
      (h : Heap T) (i : ℕ)
      → UpInv o h i
      → 0 < i
      → key o h i < key o h (above i)
      → UpInv o (swap_at h (above i) i) (above i)
  swap-UpInv h i v pos below = record {
    inside = omega arith;
    edges = λ c p q r. ground (arith, v.edges c, v.edges (above c), v.bridged c);
    bridged = λ c p q r t. ground (arith, v.edges c, v.edges (above i), v.bridged c);
  }

  Settled-here :
      (h : Heap T) (i : ℕ) → UpInv o h i → key o h (above i) ≤ key o h i → Settled o h i (h, i)
  Settled-here h i v le = record {
    ordered = λ c p q. ground (arith, v.edges c);
    size = refl;
    same = λ p. refl;
    found = refl;
    inside = λ q. q;
  }

  pub bubble_up-Settles :
      (fuel : ℕ) (h : Heap T) (i : ℕ)
      → i < fuel
      → UpInv o h i
      → Settles o h i (bubble_up o fuel h i)
  unfolding bubble_up parent
  bubble_up-Settles zero h i f v = absurd (omega arith)
  bubble_up-Settles (suc fuel) h i f v = elim (Bool-cases (leb h.size 1)) [
    | inl e ↦ (
      (h, i),
      rw (e, bubble_up),
      Settled-here h i v (let z : i ≡ 0 = ground arith in rw z (omega arith)),
    )
    | inr e ↦ elim (Bool-cases (o.gt (h.entries (above i)) (h.entries i))) [
      | inl g ↦
          let below : key o h i < key o h (above i) = ground (arith, gt i) in
          let (r, run, s) =
            bubble_up-Settles fuel (swap_at h (above i) i) (above i) (ground arith)
              (swap-UpInv h i v (ground arith) below) in
          (r, rw (e, bubble_up, g) run, Settled-swap o h i (above i) v.inside (omega arith) s)
      | inr g ↦ ((h, i), rw (e, bubble_up, g), Settled-here h i v (ground (arith, gt i)))
    ]
  ]
    where
      gt : (k : ℕ) → o.gt (h.entries (above k)) (h.entries k) ≡ ltb (key o h k) (key o h (above k))
      gt k = o.gt-rank (h.entries (above k)) (h.entries k)

  -- `bubbleUp` with the fuel of a call.
  pub up-Settles : (h : Heap T) (i : ℕ) → UpInv o h i → Settles o h i (up o h i)
  unfolding up
  up-Settles h i v = bubble_up-Settles (suc i) h i (omega arith) v
