-- ===== src/Sketch/Tests.antt =====
-- The sketch at small inputs.
use nica.Base.{ℕ, ◌+◌, ◌*◌, ◌≤◌, ◌≡◌, refl, [], ◌∷◌, arith}
use nica.Sketch.{estimate, totalcount, hashstr}
use nica.Sketch.Counts.{Updates, after, true_count, estimate_bounds}

abbrev hashes : ℕ → ℕ → ℕ
hashes i j = 7 * i + 11 * j + 1

-- 300 and 28 differ by the width: they share a column in every row.
abbrev updates : Updates
updates = (300, 2) ∷ (28, 3) ∷ (300, 1) ∷ (5, 1) ∷ []

hashstr_runs : hashstr (97 ∷ 98 ∷ []) ≡ (5381 * 33 + 97) * 33 + 98
unfolding hashstr nica.Sketch.hash_loop
hashstr_runs = refl

estimate_runs : estimate (after hashes updates) 300 ≡ 6
unfolding estimate nica.Sketch.min_rows after nica.Sketch.update nica.Sketch.update_rows
    nica.Sketch.new_sketch
estimate_runs = refl

estimate_bounds_example :
    (true_count 300 updates ≤ estimate (after hashes updates) 300)
    × (estimate (after hashes updates) 300 ≤ totalcount (after hashes updates))
estimate_bounds_example = estimate_bounds hashes updates 300 (omega arith)
