-- ===== src/Sketch.antt =====
-- ikernels/hls/cms.cpp and cms.hpp: the count-min sketch. An `int` is its 32 bits in two's
-- complement, so a negative number is one from 2 ^ 31 up.
pub mod Counts
mod Tests
use nica.Base.{ℕ, zero, suc, ◌+◌, ◌-◌, ◌*◌, ◌/◌, ◌%◌, ◌^◌, List, [], ◌∷◌, ltb, store, if◌then◌else◌}

abbrev pub width : ℕ
width = 272

abbrev pub depth : ℕ
depth = 3

abbrev pub int_max : ℕ
int_max = 2 ^ 31 - 1

-- `C` is `cells`.
pub record CountMinSketch : Type 0 where
  pub total : ℕ
  pub cells : ℕ → ℕ → ℕ
  pub hashes : ℕ → ℕ → ℕ

-- The constructor, which leaves the hashes as they are in memory.
unfoldable pub new_sketch : (ℕ → ℕ → ℕ) → CountMinSketch
new_sketch hashes = record { total = 0; cells = λ (j k : ℕ). 0; hashes = hashes }

unfoldable pub get_cell : CountMinSketch → ℕ → ℕ → ℕ
get_cell s row col = s.cells row col

unfoldable pub set_hashes : CountMinSketch → (ℕ → ℕ → ℕ) → CountMinSketch
set_hashes s hashes = record s {
  hashes = λ (i : ℕ).
      if ltb i depth then store (store (s.hashes i) 0 (hashes i 0)) 1 (hashes i 1) else s.hashes i;
}

unfoldable pub totalcount : CountMinSketch → ℕ
totalcount s = s.total

-- `hashval` in row `j`: unsigned arithmetic.
unfoldable pub column : (ℕ → ℕ → ℕ) → ℕ → ℕ → ℕ
column hashes j item = (hashes j 0 * item + hashes j 1) % 2 ^ 32 % width

-- `C[j][hashval] = C[j][hashval] + c` in a row.
unfoldable pub bump : (ℕ → ℕ) → ℕ → ℕ → ℕ → ℕ
bump row hashval c = store row hashval ((row hashval + c) % 2 ^ 32)

-- The loop of `update` over the rows below `n`.
unfoldable pub update_rows : ℕ → (ℕ → ℕ → ℕ) → (ℕ → ℕ → ℕ) → ℕ → ℕ → ℕ → ℕ → ℕ
unfolding column bump
update_rows zero hashes cells item c = cells
update_rows (suc j) hashes cells item c =
    let above = update_rows j hashes cells item c in
    store above j (bump (above j) (column hashes j item) c)

unfoldable pub update : CountMinSketch → ℕ → ℕ → CountMinSketch
update s item c = record s {
  total = (s.total + c) % 2 ^ 32;
  cells = update_rows depth s.hashes s.cells item c;
}

unfoldable pub update_by_address : CountMinSketch → ℕ → ℕ → CountMinSketch
update_by_address s address value = record s {
  hashes = store s.hashes (address / 2) (store (s.hashes (address / 2)) (address % 2) value);
}

-- `std::min` on signed numbers: the sign bit is turned over for the comparison. It returns the
-- first argument unless the second is less.
unfoldable pub signed_min : ℕ → ℕ → ℕ
signed_min a b = if ltb ((b + 2 ^ 31) % 2 ^ 32) ((a + 2 ^ 31) % 2 ^ 32) then b else a

-- The loop of `estimate` over the rows below `n`.
unfoldable pub min_rows : ℕ → CountMinSketch → ℕ → ℕ
unfolding column signed_min
min_rows zero s item = int_max
min_rows (suc j) s item = signed_min (min_rows j s item) (s.cells j (column s.hashes j item))

unfoldable pub estimate : CountMinSketch → ℕ → ℕ
estimate s item = min_rows depth s item

-- A `char`, signed, as an `unsigned long`.
abbrev pub extend : ℕ → ℕ
extend c = if ltb c 128 then c else 2 ^ 64 - 256 + c

-- The loop of `hashstr`, and its result: the low 32 bits.
unfoldable pub hash_loop : ℕ → List ℕ → ℕ
hash_loop hash [] = hash
hash_loop hash (c ∷ cs) = hash_loop ((hash * 2 ^ 5 % 2 ^ 64 + hash + extend c) % 2 ^ 64) cs

unfoldable pub hashstr : List ℕ → ℕ
hashstr str = hash_loop 5381 str % 2 ^ 32

unfoldable pub update_str : CountMinSketch → List ℕ → ℕ → CountMinSketch
update_str s str c = update s (hashstr str) c

unfoldable pub estimate_str : CountMinSketch → List ℕ → ℕ
estimate_str s str = estimate s (hashstr str)
