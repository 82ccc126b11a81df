-- ===== src/Memcached/Finds.antt =====
-- The answers of the cache to finds, which wait in `outstanding_reads` and in the memory.
use nica.Base.{ℕ, ◌≡◌, Option, some, List, [], ◌∷◌, ◌++◌, if◌then◌else◌}
use nica.Stream.{Stream}
use nica.Memcached.{Widen, Memory, can_post_find, find_result}
use nica.Memcached.Latest.{Request, put, delete, ask, take, latest, State, taken, served}

-- At most the value that is expected: no value, or that one.
abbrev pub AtMost : Option ℕ → Option ℕ → Type 0
AtMost x y = (v : ℕ) → x ≡ some v → y ≡ some v

-- The answers given are at most those expected of the first finds.
abbrev pub Expected : List (Option ℕ) → List (Option ℕ) → Type 0
Expected [] ys = Unit {0}
Expected (x ∷ xs) [] = ⊥
Expected (x ∷ xs) (y ∷ ys) = AtMost x y × Expected xs ys

module _ (key_size value_size : ℕ) (key_bits : Widen key_size) (value_bits : Widen value_size) where
  -- The answers given, then one for each response of the memory on its way with its key.
  Matched : List (Option ℕ) → List ℕ → List ℕ → List (Option ℕ) → Type 0
  Matched (x ∷ xs) ds ks (y ∷ ys) = AtMost x y × Matched xs ds ks ys
  Matched (x ∷ xs) ds ks [] = ⊥
  Matched [] (d ∷ ds) (k ∷ ks) (y ∷ ys) =
      AtMost (find_result key_size value_size key_bits value_bits d k) y × Matched [] ds ks ys
  Matched [] [] [] [] = Unit {0}
  Matched [] [] [] (y ∷ ys) = ⊥
  Matched [] [] (k ∷ ks) ys = ⊥
  Matched [] (d ∷ ds) [] ys = ⊥
  Matched [] (d ∷ ds) (k ∷ ks) [] = ⊥

  module _ (mem : Memory) (log_size : ℕ → ℕ) (start : mem.State) (depth : ℕ) where
    abbrev after :
        List Request → State key_size value_size key_bits value_bits mem log_size start depth
    after = served key_size value_size key_bits value_bits mem log_size start depth

    -- The answers given, the first one first.
    abbrev pub answers : List Request → List (Option ℕ)
    answers [] = []
    answers (take ∷ rs) =
        answers rs
        ++ (taken key_size value_size key_bits value_bits mem log_size start depth (after rs)).0
    answers (put k v ik ∷ rs) = answers rs
    answers (delete k ik ∷ rs) = answers rs
    answers (ask k ik ∷ rs) = answers rs

    -- For each find that is accepted, in order, the value that was stored last for its key and its
    -- ikernel when it was asked.
    abbrev pub asked : List Request → List (Option ℕ)
    asked [] = []
    asked (ask k ik ∷ rs) =
        if can_post_find key_size value_size key_bits value_bits mem (after rs).1
        then asked rs ++ latest rs k ik ∷ []
        else asked rs
    asked (put k v ik ∷ rs) = asked rs
    asked (delete k ik ∷ rs) = asked rs
    asked (take ∷ rs) = asked rs

    abbrev InStep : List Request → Type 0
    InStep rs = Matched (answers rs) (mem.pending (after rs).0) (after rs).1.items (asked rs)
