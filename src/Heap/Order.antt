-- ===== src/Heap/Order.antt =====
-- The heap order, and what a sift must leave behind.
use nica.Base.{
  ℕ, ◌-◌, ◌/◌, ◌^◌, ◌≤◌, ◌<◌, ◌≡◌, ◌≢◌, arith, Option, some, SameValues, swap-SameValues, ◌∙◌,
}
use nica.Heap.{Heap, Ordered, swap_at}

abbrev pub above : ℕ → ℕ
above c = (c - 1) / 2

-- The largest heap for which `2 * idx + 2` does not wrap.
abbrev pub max_size : ℕ
max_size = 2 ^ 30

module _ {T : Type 0} (o : Ordered T) where
  abbrev pub key : Heap T → ℕ → ℕ
  key h i = o.rank (h.entries i)

  abbrev pub IsHeap : Heap T → Type 0
  IsHeap h = (c : ℕ) → 0 < c → c < h.size → key h (above c) ≤ key h c

  -- The order holds on every edge but the one above `i`, and across `i`.
  pub record UpInv (h : Heap T) (i : ℕ) : Type 0 where
    pub inside : i < h.size
    pub edges : (c : ℕ) → 0 < c → c < h.size → c ≢ i → key h (above c) ≤ key h c
    pub bridged : (c : ℕ) → 0 < c → c < h.size → above c ≡ i → 0 < i → key h (above i) ≤ key h c

  -- The order holds on every edge but those below `i`, and across `i`.
  pub record DownInv (h : Heap T) (i : ℕ) : Type 0 where
    pub edges : (c : ℕ) → 0 < c → c < h.size → above c ≢ i → key h (above c) ≤ key h c
    pub bridged : (c : ℕ) → 0 < c → c < h.size → above c ≡ i → 0 < i → key h (above i) ≤ key h c

  -- `r` is a heap of the values of `h`; the value at `i` is now at the returned index.
  pub record Settled (h : Heap T) (i : ℕ) (r : Heap T × ℕ) : Type 0 where
    pub ordered : IsHeap r.0
    pub size : r.0.size ≡ h.size
    pub same : SameValues h.size r.0.entries h.entries
    pub found : r.0.entries r.1 ≡ h.entries i
    pub inside : i < h.size → r.1 < h.size

  -- The call ends with a settled heap.
  abbrev pub Settles : Heap T → ℕ → Option (Heap T × ℕ) → Type 0
  Settles h i result = (r : Heap T × ℕ) × (result ≡ some r) × Settled h i r

  swap_at_lem : (h : Heap T) (i j : ℕ) → (swap_at h j i).entries j ≡ h.entries i
  swap_at_lem h i j = ground arith

  -- A settled heap after an exchange of `j` and `i` is one before it.
  pub Settled-swap :
      (h : Heap T) (i j : ℕ) {r : Heap T × ℕ}
      → i < h.size
      → j < h.size
      → Settled (swap_at h j i) j r
      → Settled h i r
  Settled-swap h i j hi hj s = record {
    ordered = s.ordered;
    size = s.size;
    same = λ p. s.same p ∙ swap-SameValues h.size h.entries j i hj hi p;
    found = s.found ∙ swap_at_lem h i j;
    inside = λ q. s.inside hj;
  }
