-- ===== src/Udp/Split.antt =====
-- `header_data_split` of nica/hls/udp.cpp: separates the 42 bytes of headers of each packet from its
-- data, which it aligns to the words of the data stream.
pub mod Words
pub mod Packets
use nica.Base.{
  ℕ, zero, suc, ◌+◌, ◌-◌, ◌*◌, ◌/◌, ◌%◌, ◌^◌, Bool, true, false, none, some, range, cat,
  if◌then◌else◌,
}
use nica.Stream.{Stream, full, read, write}
use nica.Flit.{Flit}
use nica.Mlx.{MlxMetadata}
use nica.Udp.{HeaderBuffer, header_buffer, header_width}

pub data Mode : Type 0 where
  idle reading_header stream last_word : Mode

-- The class with the streams of a call; `in_metadata` and `in_data` are the outputs of its
-- `extract_metadata`.
pub record Split : Type 0 where
  pub mode : Mode
  pub meta : MlxMetadata
  pub buffer : ℕ
  pub in_metadata : Stream MlxMetadata
  pub in_data : Stream Flit
  pub header : Stream HeaderBuffer
  pub data_out : Stream Flit

-- Where the data start in the second word, in bits from its low end.
abbrev pub data_start : ℕ
data_start = 512 - header_width

-- `case IDLE`, at the label `idle`.
unfoldable pub start_packet : Split → Split
start_packet s = elim (read s.in_metadata) [
  | none ↦ s
  | some (m, ms) ↦ elim (read s.in_data) [
    | none ↦ s
    | some (cur, rest) ↦ record s {
      in_metadata = ms;
      in_data = rest;
      buffer = cur.bits;
      meta = m;
      mode = reading_header;
    }
  ]
]

unfoldable pub read_header : Split → Split
unfolding header_buffer
read_header s = if full s.header then s else elim (read s.in_data) [
  | none ↦ s
  | some (cur, rest) ↦ record s {
    in_data = rest;
    buffer = cur.bits;
    mode = if cur.last then last_word else stream;
    header = write s.header (
        header_buffer (cat s.buffer (256 - data_start) (range cur.bits 255 data_start)) s.meta.id
          s.meta.user false);
  }
]

-- `(buffer(data_start - 1, 0), cur.data(255, data_start))`
unfoldable pub shifted : ℕ → ℕ → ℕ
shifted buffer bits =
    cat (range buffer (data_start - 1) 0) (256 - data_start) (range bits 255 data_start)

unfoldable pub read_word : Split → Split
unfolding shifted
read_word s = if full s.data_out then s else elim (read s.in_data) [
  | none ↦ s
  | some (cur, rest) ↦ record s {
    in_data = rest;
    buffer = cur.bits;
    mode = if cur.last then last_word else stream;
    data_out =
        write s.data_out
          (record { bits = shifted s.buffer cur.bits; keep = 2 ^ 32 - 1; last = false });
  }
]

-- `keep_bytes` of a submodule gives the byte enables of a number of bytes.
module _ (keep_bytes : ℕ → ℕ) where
  -- The word of `case LAST`; the call asks for 32 less the bytes of data.
  unfoldable pub final_word : ℕ → Flit
  final_word buffer = record {
    bits = cat (range buffer (data_start - 1) 0) (256 - data_start) 0;
    keep = keep_bytes (32 - data_start / 8);
    last = true;
  }

  unfoldable pub finish_packet : Split → Split
  unfolding final_word start_packet
  finish_packet s =
      if full s.data_out
      then s
      else start_packet
          (record s { data_out = write s.data_out (final_word s.buffer); mode = idle })

  unfoldable pub split_in : Mode → Split → Split
  unfolding start_packet read_header read_word finish_packet
  split_in idle s = start_packet s
  split_in reading_header s = read_header s
  split_in stream s = read_word s
  split_in last_word s = finish_packet s

  -- `header_data_split::split`
  unfoldable pub split : Split → Split
  unfolding split_in
  split s = split_in s.mode s

  unfoldable pub run : ℕ → Split → Split
  unfolding split
  run zero s = s
  run (suc n) s = run n (split s)
