-- ===== src/Udp/Checksum.antt =====
-- `checksum` and `checksum_validate` of nica/hls/udp.cpp, with `mask_last_word` of
-- nica/hls/hls_helper.h: the IP and UDP checksums of each packet.
pub mod Sums
pub mod Folds
pub mod Whole
pub mod Packets
use nica.Base.{
  ℕ, zero, suc, ◌+◌, ◌-◌, ◌*◌, ◌/◌, ◌%◌, ◌^◌, Bool, true, false, not, ◌==◌, ◌&&◌, ◌||◌, none, some,
  range, cat, store, if◌then◌else◌,
}
use nica.Stream.{Stream, full, read, write}
use nica.Flit.{Flit}
use nica.Udp.{
  HeaderBuffer, HeaderParser, IpHeader, header_of_bits, ip_bits, empty_packet, Checksums,
}

-- The value of the `n` low bytes, those cleared that `keep` leaves out when `last`.
unfoldable pub masked_bytes : Bool → ℕ → ℕ → ℕ → ℕ
masked_bytes last keep d zero = 0
masked_bytes last keep d (suc i) =
    (if last && range keep (31 - i) (31 - i) == 0 then 0 else range d (8 * i + 7) (8 * i))
      * 2 ^ (8 * i)
    + masked_bytes last keep d i

unfoldable pub mask_last_word : Flit → ℕ
unfolding masked_bytes
mask_last_word w = masked_bytes w.last w.keep w.bits 32

abbrev pub ip_splits : ℕ
ip_splits = 2

abbrev pub num_splits : ℕ
num_splits = 8

-- `intermediate_checksum`: two arrays of 32-bit sums.
pub record Intermediate : Type 0 where
  pub ip_checksum : ℕ → ℕ
  pub udp_checksum : ℕ → ℕ

-- The inner loop of `ipv4_checksum` over `n` words from bit `start` on.
unfoldable pub ip_loop : ℕ → ℕ → ℕ → ℕ
ip_loop d start zero = 0
ip_loop d start (suc n) =
    (ip_loop d start n + range d (start + 16 * n + 15) (start + 16 * n)) % 2 ^ 32

-- `ipv4_checksum`: 80 bits, five words, in each split.
unfoldable pub ipv4_checksum : IpHeader → ℕ → ℕ
unfolding ip_bits ip_loop
ipv4_checksum hdr split = ip_loop (ip_bits (record hdr { check = 0 })) (split * 80) 5

-- `a[i] += x`, of 32 bits.
unfoldable pub add_to : (ℕ → ℕ) → ℕ → ℕ → ℕ → ℕ
add_to a i x = store a i ((a i + x) % 2 ^ 32)

-- `udp_pseudoheader_checksum`, from cleared sums.
unfoldable pub udp_pseudoheader_checksum : HeaderParser → ℕ → ℕ
unfolding add_to
udp_pseudoheader_checksum h =
    let a0 = add_to (λ i. 0) (0 % num_splits) (range h.ip.saddr 15 0) in
    let a1 = add_to a0 (1 % num_splits) (range h.ip.saddr 31 16) in
    let a2 = add_to a1 (2 % num_splits) (range h.ip.daddr 15 0) in
    let a3 = add_to a2 (3 % num_splits) (range h.ip.daddr 31 16) in
    let a4 = add_to a3 (4 % num_splits) (cat h.ip.protocol 8 0) in
    let a5 = add_to a4 (5 % num_splits) h.udp.length in
    let a6 = add_to a5 (6 % num_splits) h.udp.source in
    let a7 = add_to a6 (7 % num_splits) h.udp.dest in add_to a7 (8 % num_splits) h.udp.length

-- `checksum_step_data_loop` for the first `n` words of 16 bits.
unfoldable pub data_loop : (ℕ → ℕ) → ℕ → ℕ → ℕ → ℕ
unfolding add_to
data_loop a d zero = a
data_loop a d (suc i) = add_to (data_loop a d i) (i % num_splits) (range d (16 * i + 15) (16 * i))

pub data Mode : Type 0 where
  idle data_words : Mode

-- The class with the streams of a call.
pub record Checksum : Type 0 where
  pub mode : Mode
  pub cur_checksum : Intermediate
  pub intermediate_stream : Stream Intermediate
  pub hdr_in : Stream HeaderBuffer
  pub data_in : Stream Flit
  pub checksum : Stream Checksums

unfoldable pub header_sums : HeaderParser → Intermediate
unfolding ipv4_checksum udp_pseudoheader_checksum
header_sums h = record {
  ip_checksum = ipv4_checksum h.ip;
  udp_checksum = udp_pseudoheader_checksum h;
}

unfoldable pub data_sums : Intermediate → Flit → Intermediate
unfolding data_loop mask_last_word
data_sums cur word = record cur {
  udp_checksum = data_loop cur.udp_checksum (mask_last_word word) 16;
}

unfoldable pub take_header : Checksum → HeaderBuffer → Checksum
unfolding header_sums header_of_bits empty_packet
take_header s buf =
    let hdr = header_of_bits buf.hdr in
    let cur = header_sums hdr in
    let s' = record s { cur_checksum = cur } in
    if empty_packet hdr.udp
    then record s' { intermediate_stream = write s.intermediate_stream cur }
    else record s' { mode = data_words }

unfoldable pub take_word : Checksum → Flit → Checksum
unfolding data_sums
take_word s word =
    let cur = data_sums s.cur_checksum word in
    let s' = record s { cur_checksum = cur } in
    if word.last
    then record s' { intermediate_stream = write s.intermediate_stream cur; mode = idle }
    else s'

unfoldable pub sum_in : Mode → Checksum → Checksum
unfolding take_header take_word
sum_in idle s = if full s.intermediate_stream then s else elim (read s.hdr_in) [
  | none ↦ s
  | some (buf, rest) ↦ take_header (record s { hdr_in = rest }) buf
]
sum_in data_words s = if full s.intermediate_stream then s else elim (read s.data_in) [
  | none ↦ s
  | some (word, rest) ↦ take_word (record s { data_in = rest }) word
]

unfoldable pub checksum_header_and_data : Checksum → Checksum
unfolding sum_in
checksum_header_and_data s = sum_in s.mode s

unfoldable pub run : ℕ → Checksum → Checksum
unfolding checksum_header_and_data
run zero s = s
run (suc n) s = run n (checksum_header_and_data s)

-- The sum of the first `n` splits, of 32 bits.
unfoldable pub total : ℕ → (ℕ → ℕ) → ℕ
total zero a = 0
total (suc n) a = (total n a + a n) % 2 ^ 32

-- One round of `result = result(15, 0) + result(31, 16)`.
unfoldable pub fold : ℕ → ℕ
fold r = (range r 15 0 + range r 31 16) % 2 ^ 32

-- `~result`, stored in 16 bits.
unfoldable pub complement : ℕ → ℕ
complement r = (2 ^ 32 - 1 - r) % 2 ^ 16

unfoldable pub checksums_of : Intermediate → Checksums
unfolding total fold complement
checksums_of cur = record {
  ip_checksum = complement (fold (fold (total ip_splits cur.ip_checksum)));
  udp_checksum = complement (fold (fold (total num_splits cur.udp_checksum)));
}

unfoldable pub finish_checksum : Checksum → Checksum
unfolding checksums_of
finish_checksum s = if full s.checksum then s else elim (read s.intermediate_stream) [
  | none ↦ s
  | some (cur, rest) ↦ record s {
    intermediate_stream = rest;
    checksum = write s.checksum (checksums_of cur);
  }
]

unfoldable pub checksum_step : Checksum → Checksum
unfolding checksum_header_and_data finish_checksum
checksum_step s = finish_checksum (checksum_header_and_data s)

-- `checksum_validate::operator()`
unfoldable pub validate : Checksums → HeaderBuffer → Bool
unfolding header_of_bits
validate sum buf =
    let hdr = header_of_bits buf.hdr in
    sum.ip_checksum == hdr.ip.check
    && (sum.udp_checksum == hdr.udp.checksum || hdr.udp.checksum == 0)
