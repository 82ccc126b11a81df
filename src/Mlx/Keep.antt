-- ===== src/Mlx/Keep.antt =====
-- The byte enables of a last word.
use nica.Base.{
  ℕ, zero, suc, ◌+◌, ◌-◌, ◌/◌, ◌%◌, ◌^◌, ◌≤◌, ◌<◌, ◌≡◌, ◌==◌, if◌then◌else◌, arith, refl, inl, inr,
  Bool-cases,
}
use nica.Mlx.{reversed, last_word_keep_num_bytes_valid}

pow_pos : (n : ℕ) → 1 ≤ 2 ^ n
pow_pos zero = omega arith
pow_pos (suc n) = omega (arith, pow_pos n)

reversed_zero : (w : ℕ) → reversed w 0 ≡ 0
unfolding reversed
reversed_zero zero = refl
reversed_zero (suc w) = omega (arith, reversed_zero w)

-- The reverse of `n` low ones of `w` bits is `n` high ones.
pub reversed_ones : (w n : ℕ) → n ≤ w → reversed w (2 ^ n - 1) + 2 ^ (w - n) ≡ 2 ^ w
unfolding reversed
reversed_ones zero zero h = omega arith
reversed_ones zero (suc n) h = absurd (omega arith)
reversed_ones (suc w) zero h =
    let half : (2 ^ 0 - 1) / 2 ≡ 0 = omega arith in
    let shift : suc w - 0 ≡ suc w = omega arith in rw (half, shift) (omega (arith, reversed_zero w))
reversed_ones (suc w) (suc n) h =
    let one : (2 ^ suc n - 1) % 2 ≡ 1 = omega (arith, pow_pos n) in
    let half : (2 ^ suc n - 1) / 2 ≡ 2 ^ n - 1 = omega (arith, pow_pos n) in
    let shift : suc w - suc n ≡ w - n = omega arith in
    rw (one, half, shift) (omega (arith, reversed_ones w n (omega arith)))

-- For every number of bytes below 32, the enables are the ones of that many bytes from the top of
-- the word, with 0 for the whole word: added to the value of the remaining bits they make 2 ^ 32.
pub last_word_keep_num_bytes_valid_lem :
    (n : ℕ)
    → n < 32
    → last_word_keep_num_bytes_valid n + (if n == 0 then 1 else 2 ^ (32 - n)) ≡ 2 ^ 32
unfolding last_word_keep_num_bytes_valid
last_word_keep_num_bytes_valid_lem n h = elim (Bool-cases (n == 0)) [
  | inl e ↦ rw e (omega arith)
  | inr e ↦ rw e (reversed_ones 32 n (omega arith))
]
