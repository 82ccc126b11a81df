-- ===== src/Udp/Checksum/Sums.antt =====
-- The splits of a sum, taken together.
use nica.Base.{
  ℕ, zero, suc, ◌+◌, ◌-◌, ◌*◌, ◌%◌, ◌^◌, ◌≤◌, ◌<◌, ◌≡◌, refl, List, [], ◌∷◌, length, range, store,
  arith,
}
use nica.Flit.{Flit}
use nica.Udp.Checksum.{
  add_to, data_loop, total, mask_last_word, num_splits, Intermediate, data_sums,
}

-- The sum of the first `n` splits.
abbrev pub plain : ℕ → (ℕ → ℕ) → ℕ
plain zero a = 0
plain (suc n) a = plain n a + a n

-- The sum of the first `n` words of 16 bits.
abbrev pub words : ℕ → ℕ → ℕ
words d zero = 0
words d (suc n) = words d n + range d (16 * n + 15) (16 * n)

plain-store_above : (n : ℕ) (a : ℕ → ℕ) (i v : ℕ) → n ≤ i → plain n (store a i v) ≡ plain n a
plain-store_above zero a i v h = refl
plain-store_above (suc n) a i v h = ground (arith, plain-store_above n a i v)

plain-store : (n : ℕ) (a : ℕ → ℕ) (i v : ℕ) → i < n → plain n (store a i v) + a i ≡ plain n a + v
plain-store zero a i v h = absurd (omega arith)
plain-store (suc n) a i v h = ground (arith, plain-store n a i v, plain-store_above n a i v)

plain_ge : (n : ℕ) (a : ℕ → ℕ) (i : ℕ) → i < n → a i ≤ plain n a
plain_ge n a i h = omega (arith, plain-store n a i 0 h)

pub plain-add_to :
    (n : ℕ) (a : ℕ → ℕ) (i x : ℕ)
    → i < n
    → plain n a + x < 2 ^ 32
    → plain n (add_to a i x) ≡ plain n a + x
unfolding add_to
plain-add_to n a i x h fits =
    omega (arith, plain-store n a i ((a i + x) % 2 ^ 32) h, plain_ge n a i h)

pub total-plain : (n : ℕ) (a : ℕ → ℕ) → plain n a < 2 ^ 32 → total n a ≡ plain n a
unfolding total
total-plain zero a h = refl
total-plain (suc n) a h = omega (arith, total-plain n a (omega arith))

word_bound : (d n : ℕ) → range d (16 * n + 15) (16 * n) ≤ 65535
word_bound d n = let width : 16 * n + 15 + 1 - 16 * n ≡ 16 = omega arith in rw width (omega arith)

words_bound : (d n : ℕ) → words d n ≤ 65535 * n
words_bound d zero = omega arith
words_bound d (suc n) = omega (arith, words_bound d n, word_bound d n)

-- The loop over the `n` words of a flit adds them to the splits, whichever split each goes to.
pub plain-data_loop :
    (a : ℕ → ℕ) (d n : ℕ)
    → plain num_splits a + 65535 * n < 2 ^ 32
    → plain num_splits (data_loop a d n) ≡ plain num_splits a + words d n
unfolding data_loop
plain-data_loop a d zero h = omega arith
plain-data_loop a d (suc n) h =
    let before = plain-data_loop a d n (omega arith) in
    let bound = words_bound d n in
    let added =
      plain-add_to num_splits (data_loop a d n) (n % num_splits) (range d (16 * n + 15) (16 * n))
        (omega arith) (omega (arith, word_bound d n)) in
    omega (arith, added, before)

-- The masked words of a packet's data.
abbrev pub data_words_of : List Flit → ℕ
data_words_of [] = 0
data_words_of (w ∷ ws) = words (mask_last_word w) 16 + data_words_of ws

abbrev pub add_flits : Intermediate → List Flit → Intermediate
add_flits c [] = c
add_flits c (w ∷ ws) = add_flits (data_sums c w) ws

pub plain-add_flits :
    (c : Intermediate) (ws : List Flit)
    → plain num_splits c.udp_checksum + 1048560 * length ws < 2 ^ 32
    → (plain num_splits (add_flits c ws).udp_checksum
        ≡ plain num_splits c.udp_checksum + data_words_of ws)
      × (plain num_splits (add_flits c ws).udp_checksum < 2 ^ 32)
unfolding data_sums
plain-add_flits c [] h = (omega arith, omega arith)
plain-add_flits c (w ∷ ws) h =
    let step = plain-data_loop c.udp_checksum (mask_last_word w) 16 (omega arith) in
    let bound = words_bound (mask_last_word w) 16 in
    let (rest, small) = plain-add_flits (data_sums c w) ws (omega arith) in
    (omega (arith, rest, step), small)
