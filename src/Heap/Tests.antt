-- ===== src/Heap/Tests.antt =====
-- The heap of heap.hpp at small inputs.
use nica.Base.{ℕ, zero, suc, ◌≡◌, refl, Option, none, some, arith, ltb, get_or, List, [], ◌∷◌}
use nica.Heap.{
  Heap, Ordered, insert, update, extract_min, up, down, bubble_up, bubble_down, parent, child,
  get_min_idx,
}
use nica.Heap.Order.{IsHeap}
use nica.Heap.Operations.{
  Inserted, insert_correct, Updated, update_correct, Extracted, extract_min_correct,
}

-- The order of numbers.
abbrev pub numbers : Ordered ℕ
numbers = record {
  rank = λ n. n;
  lt = ltb;
  gt = λ a b. ltb b a;
  lt-rank = λ a b. refl;
  gt-rank = λ a b. refl;
}

abbrev pub sample : Heap ℕ
sample = record { entries = λ i. get_or (2 ∷ 5 ∷ 4 ∷ 9 ∷ 5 ∷ []) i 0; size = 5 }

pub sample-IsHeap : IsHeap numbers sample
sample-IsHeap zero p q = absurd (omega arith)
sample-IsHeap (suc zero) p q = omega arith
sample-IsHeap (suc (suc zero)) p q = omega arith
sample-IsHeap (suc (suc (suc zero))) p q = omega arith
sample-IsHeap (suc (suc (suc (suc zero)))) p q = omega arith
sample-IsHeap (suc (suc (suc (suc (suc c))))) p q = absurd (omega arith)

-- The values of a result, from index 0 on.
abbrev shown : Option (Heap ℕ × ℕ) → List ℕ
shown none = []
shown (some (h, i)) =
    i
    ∷ h.size
    ∷ h.entries 0
    ∷ h.entries 1
    ∷ h.entries 2
    ∷ h.entries 3
    ∷ h.entries 4
    ∷ h.entries 5
    ∷ []

operations : Unit {0}
unfolding insert update extract_min up down bubble_up bubble_down parent child get_min_idx
operations = tt

insert_runs : shown (insert numbers 8 sample 3) ≡ 2 ∷ 6 ∷ 2 ∷ 5 ∷ 3 ∷ 9 ∷ 5 ∷ 4 ∷ []
unfolding operations
insert_runs = refl

insert_full_runs : shown (insert numbers 5 sample 7) ≡ 2 ∷ 5 ∷ 4 ∷ 5 ∷ 7 ∷ 9 ∷ 5 ∷ 0 ∷ []
unfolding operations
insert_full_runs = refl

update_runs : shown (update numbers sample 3 1) ≡ 0 ∷ 5 ∷ 1 ∷ 2 ∷ 4 ∷ 5 ∷ 5 ∷ 0 ∷ []
unfolding operations
update_runs = refl

insert_correct_example :
    (r : Heap ℕ × ℕ) × (insert numbers 5 sample 7 ≡ some r) × Inserted numbers 5 sample 7 r
insert_correct_example =
    insert_correct numbers 5 sample 7 sample-IsHeap (omega arith) (omega arith) (omega arith)

update_correct_example :
    (r : Heap ℕ × ℕ) × (update numbers sample 3 1 ≡ some r) × Updated numbers sample 3 1 r
update_correct_example = update_correct numbers sample 3 1 sample-IsHeap (omega arith) (omega arith)

extract_min_correct_example :
    (r : ℕ × Heap ℕ) × (extract_min numbers sample ≡ some r) × Extracted numbers sample r
extract_min_correct_example =
    extract_min_correct numbers sample sample-IsHeap (omega arith) (omega arith)
