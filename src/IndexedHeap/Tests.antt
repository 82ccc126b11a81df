-- ===== src/IndexedHeap/Tests.antt =====
-- The indexed heap at small inputs, over a cache that never forgets.
use nica.Base.{ℕ, ◌%◌, inl, inr, ◌≡◌, ◌≢◌, ◌⊎◌, refl, Option, none, some, arith, store}
use nica.Heap.Tests.{numbers, sample, sample-IsHeap}
use nica.IndexedHeap.{CacheLib, IndexedHeap, insert, update}
use nica.IndexedHeap.Sift.{IsIndexed}
use nica.IndexedHeap.Correct.{bare, IsIndexed-insert_correct, IsIndexed-update_correct}
use nica.Heap.Operations.{Inserted, Updated}

find-store :
    (c : ℕ → Option ℕ) (j k v w : ℕ)
    → store c j (some v) k ≡ some w
    → ((k ≡ j) × (w ≡ v)) ⊎ ((k ≢ j) × (c k ≡ some w))
find-store c j k v w e = ground arith

find-clear : (c : ℕ → Option ℕ) (j k w : ℕ) → store c j none k ≡ some w → (k ≢ j) × (c k ≡ some w)
find-clear c j k w e = ground arith

abbrev table : CacheLib ℕ
table = record {
  Cache = ℕ → Option ℕ;
  insert = λ c k v. store c k (some v);
  erase = λ c k. store c k none;
  find = λ c k. c k;
  find-insert = find-store;
  find-erase = find-clear;
}

-- Each number is its own entity.
abbrev start : IndexedHeap numbers (λ (n : ℕ). n) table
start = record { heap = sample; cache = λ k. none }

start-IsIndexed : IsIndexed numbers (λ (n : ℕ). n) table start
start-IsIndexed k w found = cc

IsIndexed-insert_correct_example :
    (r : IndexedHeap numbers (λ (n : ℕ). n) table × ℕ) × (insert numbers
        (λ (n : ℕ). n)
        table
        5
        start
        7
      ≡ some r)
    × Inserted numbers 5 sample 7 (bare numbers (λ (n : ℕ). n) table r)
    × IsIndexed numbers (λ (n : ℕ). n) table r.0
IsIndexed-insert_correct_example =
    IsIndexed-insert_correct numbers (λ (n : ℕ). n) table 5 start 7 sample-IsHeap start-IsIndexed
      (omega arith) (omega arith) (omega arith)

-- Three entities, whose entries the index knows in part: 2, 4 and 9.
abbrev group : ℕ → ℕ
group n = n % 4

abbrev indexed : IndexedHeap numbers group table
indexed = record {
  heap = sample;
  cache = store (store (store (λ k. none) 2 (some 0)) 0 (some 2)) 1 (some 3);
}

indexed-IsIndexed : IsIndexed numbers group table indexed
indexed-IsIndexed k w found =
    elim (find-store (store (store (λ k. none) 2 (some 0)) 0 (some 2)) 1 k 3 w found) [
      | inl (key, at) ↦ rw (key, at) (omega arith, refl)
      | inr (n1, found1) ↦ elim (find-store (store (λ k. none) 2 (some 0)) 0 k 2 w found1) [
        | inl (key, at) ↦ rw (key, at) (omega arith, refl)
        | inr (n2, found2) ↦ elim (find-store (λ k. none) 2 k 0 w found2) [
          | inl (key, at) ↦ rw (key, at) (omega arith, refl)
          | inr (n3, found3) ↦ cc
        ]
      ]
    ]

IsIndexed-update_correct_example :
    (r : IndexedHeap numbers group table × ℕ) × (update numbers group table indexed 3 1 ≡ some r)
    × Updated numbers sample 3 1 (bare numbers group table r)
    × IsIndexed numbers group table r.0
IsIndexed-update_correct_example =
    IsIndexed-update_correct numbers group table indexed 3 1 sample-IsHeap indexed-IsIndexed
      (omega arith) (omega arith) refl
