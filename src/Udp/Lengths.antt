-- ===== src/Udp/Lengths.antt =====
-- `length_adjust` of nica/hls/udp.cpp: cuts the data of each packet to the length in its IP header.
pub mod Counts
pub mod Wanted
pub mod Valid
pub mod Cuts
use nica.Base.{
  ℕ, zero, suc, ◌+◌, ◌-◌, ◌*◌, ◌/◌, ◌%◌, ◌^◌, Bool, true, false, not, ◌==◌, ◌||◌, none, some, range,
  if◌then◌else◌,
}
use nica.Stream.{Stream, full, read, write}
use nica.Flit.{Flit}
use nica.Mlx.{last_word_keep_num_bytes_valid}
use nica.Udp.{HeaderBuffer, header_of_bits, ip_width, udp_width}

pub data Mode : Type 0 where
  idle counting consume : Mode

-- `packet_metadata` of this class.
pub record PacketLengths : Type 0 where
  pub word_count : ℕ
  pub tot_len : ℕ
  pub last_word_data : ℕ

-- The class with the streams of a call.
pub record LengthAdjust : Type 0 where
  pub mode : Mode
  pub data_buf_valid : Bool
  pub data_buf : Flit
  pub pkt : PacketLengths
  pub packets : Stream PacketLengths
  pub hdr_in : Stream HeaderBuffer
  pub data_in : Stream Flit
  pub data_out : Stream Flit

-- The lengths of the header of a total length: `data_length` has 16 bits and wraps, `word_count`
-- has 11.
unfoldable pub lengths_of_total : ℕ → PacketLengths
lengths_of_total tot_len =
    let header_length = udp_width / 8 + ip_width / 8 in
    let data_length = (tot_len + 2 ^ 16 - header_length) % 2 ^ 16 in
    let last_word_data = range data_length 4 0 in
    record {
      word_count = (range data_length 15 5 + (if last_word_data == 0 then 0 else 1)) % 2 ^ 11;
      tot_len = tot_len;
      last_word_data = last_word_data;
    }

unfoldable pub lengths_of : HeaderBuffer → PacketLengths
unfolding header_of_bits lengths_of_total
lengths_of buf = lengths_of_total (header_of_bits buf.hdr).ip.tot_len

unfoldable pub find_length : LengthAdjust → LengthAdjust
unfolding lengths_of
find_length s = if full s.packets then s else elim (read s.hdr_in) [
  | none ↦ s
  | some (buf, rest) ↦ record s { hdr_in = rest; packets = write s.packets (lengths_of buf) }
]

-- `case IDLE`
unfoldable pub start_packet : LengthAdjust → LengthAdjust
start_packet s = elim (read s.packets) [
  | none ↦ s
  | some (pkt, rest) ↦ record s {
    packets = rest;
    pkt = pkt;
    mode = if pkt.word_count == 0 then idle else counting;
  }
]

-- `--pkt.word_count`, of 11 bits.
abbrev pub decrement : ℕ → ℕ
decrement n = (n + 2 ^ 11 - 1) % 2 ^ 11

-- The last word that the length allows.
unfoldable pub trimmed : ℕ → Flit → Flit
trimmed last_word_data d = record d {
  keep = last_word_keep_num_bytes_valid last_word_data;
  last = true;
}

-- The first block of `case COUNT`.
unfoldable pub count_word : LengthAdjust → LengthAdjust
unfolding trimmed
count_word s =
    if not s.data_buf_valid || full s.data_out
    then s
    else let n = decrement s.pkt.word_count in
      record s {
        pkt = record (s.pkt) { word_count = n };
        mode = if s.data_buf.last then idle else if n == 0 then consume else counting;
        data_out =
            write s.data_out
              (if n == 0 then trimmed s.pkt.last_word_data s.data_buf else s.data_buf);
        data_buf_valid = false;
      }

-- The first block of `case CONSUME`.
unfoldable pub consume_word : LengthAdjust → LengthAdjust
consume_word s =
    if not s.data_buf_valid
    then s
    else record s { mode = if s.data_buf.last then idle else consume; data_buf_valid = false }

-- The second block of both cases.
unfoldable pub fetch_word : LengthAdjust → LengthAdjust
fetch_word s = if s.data_buf_valid then s else elim (read s.data_in) [
  | none ↦ s
  | some (d, rest) ↦ record s { data_buf_valid = true; data_buf = d; data_in = rest }
]

unfoldable pub cut_in : Mode → LengthAdjust → LengthAdjust
unfolding start_packet count_word consume_word fetch_word
cut_in idle s = start_packet s
cut_in counting s = fetch_word (count_word s)
cut_in consume s = fetch_word (consume_word s)

unfoldable pub cut_data : LengthAdjust → LengthAdjust
unfolding cut_in
cut_data s = cut_in s.mode s

unfoldable pub adjust : LengthAdjust → LengthAdjust
unfolding find_length cut_data
adjust s = cut_data (find_length s)

unfoldable pub run : ℕ → LengthAdjust → LengthAdjust
unfolding adjust
run zero s = s
run (suc n) s = run n (adjust s)
