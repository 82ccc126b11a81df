-- ===== src/Base/Bits.antt =====
-- `ap_uint` bit ranges and concatenation, as arithmetic on the native numbers.
use Prim.Native.Nat.{ℕ, ◌+◌, ◌-◌, ◌*◌, ◌/◌, ◌%◌, ◌^◌}

-- `d(hi, lo)`
abbrev pub range : ℕ → ℕ → ℕ → ℕ
range d hi lo = d / 2 ^ lo % 2 ^ (hi + 1 - lo)

-- `(a, b)`, where `b` has `w` bits.
abbrev pub cat : ℕ → ℕ → ℕ → ℕ
cat a w b = a * 2 ^ w + b
