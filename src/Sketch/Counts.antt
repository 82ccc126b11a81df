-- ===== src/Sketch/Counts.antt =====
-- The counters of the sketch against the true counts.
use nica.Base.{
  ℕ, zero, suc, ◌+◌, ◌^◌, ◌≤◌, ◌<◌, ◌≡◌, refl, store-same, store-other, Bool, true, ◌==◌, List, [],
  ◌∷◌, arith, if◌then◌else◌, Bool-cases, inl, inr, ◌∙◌, ap, sym, ==_iff,
}
use nica.Sketch.{
  CountMinSketch, column, update, update_rows, bump, new_sketch, min_rows, estimate, signed_min,
  depth, int_max, totalcount,
}

-- The updates of a run: items and counts.
abbrev pub Updates : Type 0
Updates = List (ℕ × ℕ)

-- What the updates of the items in `p` add up to.
abbrev pub counted : (ℕ → Bool) → Updates → ℕ
counted p [] = 0
counted p ((item, c) ∷ us) = (if p item then c else 0) + counted p us

abbrev pub all_counts : Updates → ℕ
all_counts us = counted (λ (i : ℕ). true) us

abbrev pub true_count : ℕ → Updates → ℕ
true_count item us = counted (λ (i : ℕ). i == item) us

-- The updates, the first of the list last.
unfoldable pub after : (ℕ → ℕ → ℕ) → Updates → CountMinSketch
after hashes [] = new_sketch hashes
after hashes ((item, c) ∷ us) = update (after hashes us) item c

pub counted_mono :
    (p q : ℕ → Bool) (us : Updates)
    → ((i : ℕ) → p i ≡ true → q i ≡ true)
    → counted p us ≤ counted q us
counted_mono p q [] le = omega arith
counted_mono p q ((item, c) ∷ us) le =
    let rest = counted_mono p q us le in
    elim (Bool-cases (p item)) [
      | inl t ↦ rw (t, le item t) (omega (arith, rest))
      | inr f ↦ rw f (omega (arith, rest))
    ]

update_rows-above :
    (n : ℕ) (hashes cells : ℕ → ℕ → ℕ) (item c j : ℕ)
    → n ≤ j
    → update_rows n hashes cells item c j ≡ cells j
unfolding update_rows
update_rows-above zero hashes cells item c j le = refl
update_rows-above (suc n) hashes cells item c j le =
    let before = update_rows n hashes cells item c in
    store-other before n j (bump (before n) (column hashes n item) c) (omega arith)
    ∙ update_rows-above n hashes cells item c j (omega arith)

update_rows-last :
    (n : ℕ) (hashes cells : ℕ → ℕ → ℕ) (item c : ℕ)
    → update_rows (suc n) hashes cells item c n ≡ bump (cells n) (column hashes n item) c
unfolding update_rows
update_rows-last n hashes cells item c =
    let before = update_rows n hashes cells item c in
    store-same before n (bump (before n) (column hashes n item) c)
    ∙ ap (λ (r : ℕ → ℕ). bump r (column hashes n item) c)
        (update_rows-above n hashes cells item c n (omega arith))

-- A row of the updated cells: the item's column has `c` more.
update_rows-row :
    (n : ℕ) (hashes cells : ℕ → ℕ → ℕ) (item c j : ℕ)
    → j < n
    → update_rows n hashes cells item c j ≡ bump (cells j) (column hashes j item) c
unfolding update_rows
update_rows-row zero hashes cells item c j lt = absurd (omega arith)
update_rows-row (suc n) hashes cells item c j lt = elim (Bool-cases (n == j)) [
  | inl t ↦
      let same : j ≡ n = sym ((==_iff n j).0 t) in rw same (update_rows-last n hashes cells item c)
  | inr f ↦
      let before = update_rows n hashes cells item c in
      store-other before n j (bump (before n) (column hashes n item) c) (ground arith)
      ∙ update_rows-row n hashes cells item c j (ground arith)
]

after-hashes : (hashes : ℕ → ℕ → ℕ) (us : Updates) → (after hashes us).hashes ≡ hashes
unfolding after update new_sketch
after-hashes hashes [] = refl
after-hashes hashes ((item, c) ∷ us) = after-hashes hashes us

counted_all : (p : ℕ → Bool) (us : Updates) → counted p us ≤ all_counts us
counted_all p us = counted_mono p (λ (i : ℕ). true) us (λ (i : ℕ) (t : p i ≡ true). refl)

cell_step :
    (row : ℕ → ℕ) (h k c n : ℕ)
    → row k ≡ n
    → n + c < 2 ^ 32
    → bump row h c k ≡ (if h == k then c else 0) + n
unfolding bump
cell_step row h k c n e small = elim (Bool-cases (h == k)) [
  | inl t ↦ let same : h ≡ k = (==_iff h k).0 t in rw (t, same, e) (omega arith)
  | inr f ↦ rw f (omega arith)
]

-- While no counter reaches 2 ^ 31, each holds the sum of the counts of the items in its column.
cell_lem :
    (hashes : ℕ → ℕ → ℕ) (us : Updates) (j k : ℕ)
    → j < depth
    → all_counts us < 2 ^ 31
    → (after hashes us).cells j k ≡ counted (λ (i : ℕ). column hashes j i == k) us
unfolding after update new_sketch
cell_lem hashes [] j k lt small = refl
cell_lem hashes ((item, c) ∷ us) j k lt small =
    let before = after hashes us in
    let row = update_rows-row depth before.hashes before.cells item c j lt in
    let held = cell_lem hashes us j k lt (omega arith) in
    let few = counted_all (λ (i : ℕ). column hashes j i == k) us in
    ap (λ (r : ℕ → ℕ). r k) row
    ∙ rw (after-hashes hashes us) (
        cell_step (before.cells j) (column hashes j item) k c
          (counted (λ (i : ℕ). column hashes j i == k) us) held (omega arith))

total_lem :
    (hashes : ℕ → ℕ → ℕ) (us : Updates)
    → all_counts us < 2 ^ 31
    → totalcount (after hashes us) ≡ all_counts us
unfolding after update new_sketch totalcount
total_lem hashes [] small = refl
total_lem hashes ((item, c) ∷ us) small =
    let rest = total_lem hashes us (omega arith) in omega arith

signed_min_lem :
    (a b lo hi : ℕ)
    → (lo ≤ a) × (lo ≤ b) × (b ≤ hi) × (a < 2 ^ 31) × (hi < 2 ^ 31)
    → (lo ≤ signed_min a b) × (signed_min a b ≤ hi) × (signed_min a b < 2 ^ 31)
unfolding signed_min
signed_min_lem a b lo hi h = ground arith

-- The true count of an item is at most the sum in its column of any row.
cell_bounds :
    (hashes : ℕ → ℕ → ℕ) (us : Updates) (item j : ℕ)
    → j < depth
    → all_counts us < 2 ^ 31
    → (true_count item us ≤ (after hashes us).cells j (column hashes j item))
      × ((after hashes us).cells j (column hashes j item) ≤ all_counts us)
cell_bounds hashes us item j lt small =
    let k = column hashes j item in
    let p : ℕ → Bool = λ (i : ℕ). column hashes j i == k in
    let mono =
      counted_mono (λ (i : ℕ). i == item) p us
        (λ (i : ℕ) (t : (i == item) ≡ true). rw ((==_iff i item).0 t) ((==_iff k k).1 refl)) in
    rw (cell_lem hashes us j k lt small) (mono, counted_all p us)

-- The same, with the hashes that the sketch holds.
Between : ℕ → ℕ → ℕ → Type 0
Between lo x hi = (lo ≤ x) × (x ≤ hi)

hashed_bounds :
    (hashes : ℕ → ℕ → ℕ) (us : Updates) (item j : ℕ)
    → j < depth
    → all_counts us < 2 ^ 31
    → Between
        (true_count item us)
        ((after hashes us).cells j (column (after hashes us).hashes j item))
        (all_counts us)
unfolding Between
hashed_bounds hashes us item j lt small =
    rw (after-hashes hashes us) (cell_bounds hashes us item j lt small)

module _ (s : CountMinSketch) (item lo hi : ℕ) (low : lo ≤ int_max) (small : hi < 2 ^ 31) where
  min_rows-above :
      (n : ℕ)
      → ((j : ℕ) → j < n → Between lo (s.cells j (column s.hashes j item)) hi)
      → (lo ≤ min_rows n s item) × (min_rows n s item < 2 ^ 31)
  unfolding min_rows Between
  min_rows-above zero bounds = (low, omega arith)
  min_rows-above (suc n) bounds =
      let (le, lt) = min_rows-above n (λ (j : ℕ) (h : j < n). bounds j (omega arith)) in
      let (lo', hi') = bounds n (omega arith) in
      let (a, _, c) =
        signed_min_lem (min_rows n s item) (s.cells n (column s.hashes n item)) lo hi
          (le, lo', hi', lt, small) in
      (a, c)

  min_rows-bounds :
      (n : ℕ)
      → ((j : ℕ) → j < suc n → Between lo (s.cells j (column s.hashes j item)) hi)
      → Between lo (min_rows (suc n) s item) hi
  unfolding min_rows Between
  min_rows-bounds n bounds =
      let (le, lt) = min_rows-above n (λ (j : ℕ) (h : j < n). bounds j (omega arith)) in
      let (lo', hi') = bounds n (omega arith) in
      let (a, b, _) =
        signed_min_lem (min_rows n s item) (s.cells n (column s.hashes n item)) lo hi
          (le, lo', hi', lt, small) in
      (a, b)

-- After any updates whose counts add up to less than 2 ^ 31, whatever the hashes are, the estimate
-- of an item is at least the sum of its own counts, and at most `totalcount`.
pub estimate_bounds :
    (hashes : ℕ → ℕ → ℕ) (us : Updates) (item : ℕ)
    → all_counts us < 2 ^ 31
    → (true_count item us ≤ estimate (after hashes us) item)
      × (estimate (after hashes us) item ≤ totalcount (after hashes us))
unfolding estimate Between
estimate_bounds hashes us item small =
    let few = counted_all (λ (i : ℕ). i == item) us in
    let (lo, hi) =
      min_rows-bounds (after hashes us) item (true_count item us) (all_counts us)
        (omega (arith, few, small)) small 2
        (λ (j : ℕ) (lt : j < 3). hashed_bounds hashes us item j lt small) in
    (lo, rw (total_lem hashes us small) hi)
