-- ===== src/Udp/Checksum/Whole.antt =====
-- The data of packets whose last word is full, which `mask_last_word` leaves as they are.
use nica.Base.{
  ℕ, zero, suc, ◌+◌, ◌-◌, ◌*◌, ◌%◌, ◌^◌, ◌≤◌, ◌<◌, ◌≡◌, refl, ◌∙◌, Bool, true, false, ◌==◌, ◌&&◌,
  List, [], ◌∷◌, range, arith,
}
use native.Mathlib.Nat.{mod-eq_of_lt}
use nica.Flit.{Flit}
use nica.Udp.Bytes.{mod-suc_byte, keep_bit}
use nica.Udp.Checksum.{masked_bytes, mask_last_word}
use nica.Udp.Checksum.Sums.{words, data_words_of}

-- Words of 256 bits, and all bytes of the last one are valid.
abbrev pub AreWhole : List Flit → Type 0
AreWhole [] = Unit {0}
AreWhole (w ∷ ws) = (w.bits < 2 ^ 256) × (w.last ≡ true → w.keep ≡ 2 ^ 32 - 1) × AreWhole ws

-- The 16-bit words of the data.
abbrev pub payload_words : List Flit → ℕ
payload_words [] = 0
payload_words (w ∷ ws) = words w.bits 16 + payload_words ws

valid_bit :
    (last : Bool) (keep j : ℕ)
    → j < 32
    → (last ≡ true → keep ≡ 2 ^ 32 - 1)
    → (last && range keep j j == 0) ≡ false
valid_bit false keep j h e = refl
valid_bit true keep j h e =
    let all : keep ≡ 2 ^ 32 - 2 ^ 0 = e refl in
    let bit : (range (2 ^ 32 - 2 ^ 0) j j == 0) ≡ false =
      keep_bit 0 j (omega arith) h ∙ ground arith in
    rw all bit

masked_whole :
    (last : Bool) (keep d n : ℕ)
    → n ≤ 32
    → (last ≡ true → keep ≡ 2 ^ 32 - 1)
    → masked_bytes last keep d n ≡ d % 2 ^ (8 * n)
unfolding masked_bytes
masked_whole last keep d zero h e = omega arith
masked_whole last keep d (suc n) h e =
    let valid = valid_bit last keep (31 - n) (omega arith) e in
    let rest = masked_whole last keep d n (omega arith) e in
    rw valid (omega (arith, rest, mod-suc_byte d n))

pub data_words_of-AreWhole : (ws : List Flit) → AreWhole ws → data_words_of ws ≡ payload_words ws
unfolding mask_last_word
data_words_of-AreWhole [] f = refl
data_words_of-AreWhole (w ∷ ws) (small, full, f) =
    let same : mask_last_word w ≡ w.bits =
      masked_whole w.last w.keep w.bits 32 (omega arith) full ∙ mod-eq_of_lt small in
    let rest = data_words_of-AreWhole ws f in rw (same, rest) refl
