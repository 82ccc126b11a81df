-- ===== src/Udp/Lengths/Counts.antt =====
-- The words that a total length asks for.
use nica.Base.{
  ℕ, ◌+◌, ◌-◌, ◌*◌, ◌%◌, ◌^◌, ◌≤◌, ◌<◌, ◌≡◌, ◌==◌, range, if◌then◌else◌, inl, inr, Bool-cases,
  arith,
}
use nica.Udp.Lengths.{lengths_of_total}

-- For a total length from 28 bytes, the two headers, to 65532: the words before the last one and
-- the bytes of the last one, where 0 stands for all 32, make the rest of the length, and there are
-- no words just if nothing is left.
pub lengths_of_total_lem :
    (tot_len : ℕ)
    → 28 ≤ tot_len
    → tot_len ≤ 65532
    → let p = lengths_of_total tot_len in
      (32 * p.word_count + p.last_word_data
        ≡ tot_len - 28 + (if p.last_word_data == 0 then 0 else 32))
      × (p.last_word_data < 32)
      × (p.word_count < 2 ^ 11)
      × ((p.word_count == 0) ≡ (tot_len == 28))
unfolding lengths_of_total
lengths_of_total_lem n h h' =
    let rest : (n + 2 ^ 16 - 28) % 2 ^ 16 ≡ n - 28 = omega arith in
    rw rest (elim (Bool-cases (range (n - 28) 4 0 == 0)) [
      | inl e ↦ rw e (omega arith, omega arith, omega arith, ground arith)
      | inr e ↦
          let left : 0 < range (n - 28) 4 0 = ground arith in
          rw e (omega arith, omega arith, omega arith, ground arith)
    ])
