-- ===== src/Udp/Checksum/Packets.antt =====
-- The checksums of whole packets.
use nica.Base.{
  ℕ, ◌+◌, ◌*◌, ◌%◌, ◌^◌, ◌≤◌, ◌<◌, ◌≡◌, refl, ap, ◌∙◌, sym, false, List, [], ◌∷◌, ◌++◌, length, leb,
  range, arith,
}
use nica.Stream.{Stream, read}
use nica.Flit.{Flit, to_flits}
use nica.Udp.{HeaderBuffer, HeaderParser, IpHeader, ip_bits, Checksums}
use nica.Udp.Encoding.{IpFits, UdpFits}
use nica.Udp.Checksum.{
  idle, data_words, Checksum, Intermediate, checksums_of, ip_loop, ipv4_checksum, header_sums,
  udp_pseudoheader_checksum, run, checksum_header_and_data, sum_in, take_word, data_sums, total,
  num_splits, ip_splits, fold, complement,
}
use nica.Udp.Checksum.Folds.{fold-complement}
use nica.Udp.Checksum.Whole.{AreWhole, payload_words, data_words_of-AreWhole}
use nica.Udp.Checksum.Sums.{plain, words, total-plain, plain-add_flits, add_flits, data_words_of}

-- The ten words of an IP header are those of the header without its checksum, and the checksum.
ip_words-check :
    (d c : ℕ) → range d 79 64 ≡ 0 → c < 2 ^ 16 → words (d + c * 2 ^ 64) 10 ≡ words d 10 + c
ip_words-check d c z h =
    let e0 : range (d + c * 2 ^ 64) 15 0 ≡ range d 15 0 = omega arith in
    let e1 : range (d + c * 2 ^ 64) 31 16 ≡ range d 31 16 = omega arith in
    let e2 : range (d + c * 2 ^ 64) 47 32 ≡ range d 47 32 = omega arith in
    let e3 : range (d + c * 2 ^ 64) 63 48 ≡ range d 63 48 = omega arith in
    let e4 : range (d + c * 2 ^ 64) 79 64 ≡ c = omega arith in
    let e5 : range (d + c * 2 ^ 64) 95 80 ≡ range d 95 80 = omega arith in
    let e6 : range (d + c * 2 ^ 64) 111 96 ≡ range d 111 96 = omega arith in
    let e7 : range (d + c * 2 ^ 64) 127 112 ≡ range d 127 112 = omega arith in
    let e8 : range (d + c * 2 ^ 64) 143 128 ≡ range d 143 128 = omega arith in
    let e9 : range (d + c * 2 ^ 64) 159 144 ≡ range d 159 144 = omega arith in
    omega (arith, e0, e1, e2, e3, e4, e5, e6, e7, e8, e9, z)

check_of_ip :
    (h : IpHeader)
    → IpFits h
    → let d = ip_bits (record h { check = 0 }) in
      (range d 79 64 ≡ 0) × ((c : ℕ) → ip_bits (record h { check = c }) ≡ d + c * 2 ^ 64)
unfolding ip_bits
check_of_ip h f = (omega arith, λ c. omega arith)

ip_total :
    (h : IpHeader)
    → let t = total ip_splits (ipv4_checksum h) in
      (t ≡ words (ip_bits (record h { check = 0 })) 10) × (t < 2 ^ 32)
unfolding ipv4_checksum total ip_loop
ip_total h = (omega arith, omega arith)

complement_small : (r : ℕ) → complement r < 2 ^ 16
unfolding complement
complement_small r = omega arith

-- For every header whose fields fit, the IP checksum that the code computes fits its field, and
-- with it in its place the ten 16-bit words of the IP header sum to a multiple of 65535, which is
-- what a receiver checks.
pub checksums_of-header_sums :
    (h : HeaderParser)
    → IpFits h.ip
    → let c = (checksums_of (header_sums h)).ip_checksum in
      (c < 2 ^ 16) × (words (ip_bits (record (h.ip) { check = c })) 10 % 65535 ≡ 0)
unfolding checksums_of header_sums
checksums_of-header_sums h f =
    let t = total ip_splits (ipv4_checksum h.ip) in
    let c = complement (fold (fold t)) in
    let (z, put) = check_of_ip h.ip f in
    let (sum, small) = ip_total h.ip in
    let (_, multiple) = fold-complement t small in
    let fits = complement_small (fold (fold t)) in
    let all = ip_words-check (ip_bits (record (h.ip) { check = 0 })) c z fits in
    (fits, rw (put c, all, sym sum) multiple)

-- The words that a receiver adds to those of the data (RFC 768): the pseudo header, whose protocol
-- is the low byte of its word, and the UDP header less its checksum.
abbrev pub receiver_words : HeaderParser → ℕ
receiver_words h =
    range h.ip.saddr 15 0
    + range h.ip.saddr 31 16
    + range h.ip.daddr 15 0
    + range h.ip.daddr 31 16
    + h.ip.protocol
    + h.udp.length
    + h.udp.source
    + h.udp.dest
    + h.udp.length

pseudoheader_sum :
    (h : HeaderParser)
    → IpFits h.ip
    → UdpFits h.udp
    → plain num_splits (udp_pseudoheader_checksum h) ≡ receiver_words h + 255 * h.ip.protocol
unfolding udp_pseudoheader_checksum
pseudoheader_sum h f u = omega arith

-- For every header whose fields fit and every packet of at most 4000 words, the last of them full,
-- the UDP checksum that the code makes of them fits its field, and added to the words that a
-- receiver sums and to 255 times the protocol it gives a multiple of 65535. So it is not the
-- checksum of RFC 768, which has no such term: the code takes the protocol for the high byte of
-- its word. The 32-bit splits do not overflow on the way.
pub checksums_of-add_flits :
    (h : HeaderParser) (ws : List Flit)
    → IpFits h.ip
    → UdpFits h.udp
    → AreWhole ws
    → length ws ≤ 4000
    → let c = (checksums_of (add_flits (header_sums h) ws)).udp_checksum in
      (c < 2 ^ 16) × ((receiver_words h + 255 * h.ip.protocol + payload_words ws + c) % 65535 ≡ 0)
unfolding checksums_of header_sums
checksums_of-add_flits h ws f u whole n =
    let cur = add_flits (header_sums h) ws in
    let start = pseudoheader_sum h f u in
    let (sum, small) = plain-add_flits (header_sums h) ws (omega (arith, start)) in
    let t = total-plain num_splits cur.udp_checksum small in
    let (_, multiple) =
      fold-complement (total num_splits cur.udp_checksum) (omega (arith, t, small)) in
    let head = receiver_words h + 255 * h.ip.protocol in
    let words_sum : total num_splits cur.udp_checksum ≡ head + payload_words ws =
      t
      ∙ sum
      ∙ ap (λ (n : ℕ). n + data_words_of ws) start
      ∙ ap (λ (n : ℕ). head + n) (data_words_of-AreWhole ws whole) in
    (complement_small (fold (fold (total num_splits cur.udp_checksum))), rw⁻¹ words_sum multiple)

module _ (hs : Stream HeaderBuffer) (ws : List Flit) (wd : ℕ) (out : List Intermediate) (od : ℕ)
    (sums : Stream Checksums) where
  -- The state in the middle of a packet, and the one after it.
  abbrev pub in_packet : Intermediate → List Flit → Checksum
  in_packet c l = record {
    mode = data_words;
    cur_checksum = c;
    intermediate_stream = record { items = out; depth = od };
    hdr_in = hs;
    data_in = record { items = l ++ ws; depth = wd };
    checksum = sums;
  }

  abbrev pub after_packet : Intermediate → Checksum
  after_packet c = record {
    mode = idle;
    cur_checksum = c;
    intermediate_stream = record { items = out ++ c ∷ []; depth = od };
    hdr_in = hs;
    data_in = record { items = ws; depth = wd };
    checksum = sums;
  }

  -- In the middle of a packet, with room for its sums, as many calls as the packet has words left
  -- read exactly these, put out the sums of all of them once, and leave the element between packets.
  pub run-after_packet :
      (body : List (ℕ × ℕ)) (tail : ℕ × ℕ) (c : Intermediate)
      → length out < od
      → run (length (to_flits body tail)) (in_packet c (to_flits body tail))
        ≡ after_packet (add_flits c (to_flits body tail))
  unfolding run checksum_header_and_data sum_in take_word read
  run-after_packet [] tail c room =
      let free : leb od (length out) ≡ false = ground arith in rw (run, free) refl
  run-after_packet (w ∷ body) tail c room =
      let free : leb od (length out) ≡ false = ground arith in
      rw (run, free)
        (run-after_packet body tail (data_sums c (record { bits = w.0; keep = w.1; last = false }))
          room)
