-- ===== src/Udp/Checksum/Folds.antt =====
-- Folding and complementing give the one's complement checksum of RFC 1071.
use nica.Base.{ℕ, ◌+◌, ◌*◌, ◌%◌, ◌^◌, ◌≤◌, ◌<◌, ◌≡◌, arith}
use nica.Udp.Checksum.{fold, complement}

fold_mod : (r : ℕ) → r < 2 ^ 32 → (fold r % 65535 ≡ r % 65535) × (fold r ≤ 2 * 65535)
unfolding fold
fold_mod r h = (omega arith, omega arith)

fold_small : (r : ℕ) → r ≤ 2 * 65535 → fold r < 2 ^ 16
unfolding fold
fold_small r h = omega arith

-- For every 32-bit sum, the two folds leave 16 bits, and the checksum added to the sum is a
-- multiple of 65535, the zero of one's complement.
pub fold-complement :
    (r : ℕ) → r < 2 ^ 32 → (fold (fold r) < 2 ^ 16) × ((r + complement (fold (fold r))) % 65535 ≡ 0)
unfolding complement
fold-complement r h =
    let (same, bound) = fold_mod r h in
    let small = fold_small (fold r) bound in
    let (same', _) = fold_mod (fold r) (omega arith) in (small, omega arith)
