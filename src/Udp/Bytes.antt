-- ===== src/Udp/Bytes.antt =====
-- The bytes of a word and the bits of its `keep`, which the loops of nica/hls/udp.cpp and
-- nica/hls/hls_helper.h take one by one.
use Prim.Native.Nat.{min}
use nica.Base.{
  ℕ, zero, suc, ◌+◌, ◌-◌, ◌*◌, ◌/◌, ◌%◌, ◌^◌, ◌≤◌, ◌<◌, ◌≡◌, refl, sym, ap, ◌∙◌, range, arith, Bool,
  true, false, not, ◌==◌, ◌&&◌, ltb, both, ==_iff, inl, inr, Bool-cases,
}
use native.Mathlib.Nat.{mod-eq-sub-div-mul, div-div-eq-div-mul, div-mul-le_self, pow-suc}

-- The low `p * 256` of a number are its low `p` and the byte above.
mod_byte : (d p : ℕ) → d % (p * 256) ≡ d % p + d / p % 256 * p
mod_byte d p =
    let q = d / p in
    let whole : d / (p * 256) ≡ q / 256 = sym (div-div-eq-div-mul d p 256) in
    let a : d % (p * 256) ≡ d - q / 256 * (p * 256) =
      mod-eq-sub-div-mul d (p * 256) ∙ ap (λ (n : ℕ). d - n * (p * 256)) whole in
    let b = mod-eq-sub-div-mul d p in
    let c = div-mul-le_self d p in
    let split : q ≡ q / 256 * 256 + q % 256 = omega arith in
    let products : q * p ≡ (q / 256 * 256 + q % 256) * p = ap (λ (n : ℕ). n * p) split in
    grind (arith, a, b, c, products)

pow_eight : (k : ℕ) → 2 ^ suc (suc (suc (suc (suc (suc (suc (suc k))))))) ≡ 2 ^ k * 256
pow_eight k =
    let a = suc (suc k) in
    let b = suc (suc a) in
    let c = suc (suc b) in
    omega (
      arith,
      pow-suc 2 (suc c),
      pow-suc 2 c,
      pow-suc 2 (suc b),
      pow-suc 2 b,
      pow-suc 2 (suc a),
      pow-suc 2 a,
      pow-suc 2 (suc k),
      pow-suc 2 k,
    )

pow_byte : (i : ℕ) → 2 ^ (8 * suc i) ≡ 2 ^ (8 * i) * 256
pow_byte i =
    let e : 8 * suc i ≡ suc (suc (suc (suc (suc (suc (suc (suc (8 * i)))))))) = omega arith in
    rw e (pow_eight (8 * i))

-- The bytes below `suc i` of a number are those below `i` and the byte `i`.
pub mod-suc_byte :
    (d i : ℕ) → d % 2 ^ (8 * suc i) ≡ d % 2 ^ (8 * i) + range d (8 * i + 7) (8 * i) * 2 ^ (8 * i)
mod-suc_byte d i =
    let width : 8 * i + 7 + 1 - 8 * i ≡ 8 = omega arith in
    rw (pow_byte i, width) (mod_byte d (2 ^ (8 * i)))

-- A test at all numbers below a bound.
abbrev all_below : ℕ → (ℕ → Bool) → Bool
all_below zero f = true
all_below (suc n) f = f n && all_below n f

at_all_below : (n : ℕ) (f : ℕ → Bool) (i : ℕ) → all_below n f ≡ true → i < n → f i ≡ true
at_all_below zero f i e h = absurd (omega arith)
at_all_below (suc n) f i e h =
    let (here, rest) = both (f n) (all_below n f) e in
    elim (Bool-cases (i == n)) [
      | inl t ↦ let last : i ≡ n = ground arith in rw last here
      | inr t ↦ at_all_below n f i rest (ground arith)
    ]

abbrev same_bool : Bool → Bool → Bool
same_bool true b = b
same_bool false b = not b

same_bool-eq : (a b : Bool) → same_bool a b ≡ true → a ≡ b
same_bool-eq true b e = sym e
same_bool-eq false true e = cc
same_bool-eq false false e = refl

abbrev clear_bit : ℕ → ℕ → Bool
clear_bit z j = same_bool (range (2 ^ 32 - 2 ^ z) j j == 0) (ltb j z)

keep_table : all_below 33 (λ (z : ℕ). all_below 32 (clear_bit z)) ≡ true
keep_table = refl

-- With the lowest `z` bytes of a word left out, exactly the lowest `z` bits of `keep` are 0.
pub keep_bit : (z j : ℕ) → z ≤ 32 → j < 32 → (range (2 ^ 32 - 2 ^ z) j j == 0) ≡ ltb j z
keep_bit z j hz hj = same_bool-eq (range (2 ^ 32 - 2 ^ z) j j == 0) (ltb j z) (
    at_all_below 32 (clear_bit z) j
      (at_all_below 33 (λ (y : ℕ). all_below 32 (clear_bit y)) z keep_table (omega arith)) hj)

fill_table :
    all_below 33 (λ (z : ℕ). 2 ^ 32 - 16 + (2 ^ 32 - 2 ^ z) % 16 == 2 ^ 32 - 2 ^ min z 4) ≡ true
fill_table = refl

-- `keep | 0xfffffff0` leaves out at most the lowest 4 bytes.
pub keep_fill : (z : ℕ) → z ≤ 32 → 2 ^ 32 - 16 + (2 ^ 32 - 2 ^ z) % 16 ≡ 2 ^ 32 - 2 ^ min z 4
keep_fill z h = (==_iff (2 ^ 32 - 16 + (2 ^ 32 - 2 ^ z) % 16) (2 ^ 32 - 2 ^ min z 4)).0 (
    at_all_below 33 (λ (y : ℕ). 2 ^ 32 - 16 + (2 ^ 32 - 2 ^ y) % 16 == 2 ^ 32 - 2 ^ min y 4) z
      fill_table (omega arith))
