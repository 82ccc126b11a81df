-- ===== src/Udp/Builder.antt =====
-- `header_to_mlx` and `ethernet_padding` of nica/hls/udp.cpp: the header words of the packets that
-- go out, and the padding of short packets.
pub mod Headers
pub mod Padding
use nica.Base.{
  ℕ, zero, suc, ◌+◌, ◌-◌, ◌*◌, ◌/◌, ◌%◌, ◌^◌, Bool, true, false, not, ◌==◌, ◌&&◌, ◌||◌, none, some,
  List, [], ◌∷◌, range, cat, if◌then◌else◌,
}
use nica.Stream.{Stream, full, read, write}
use nica.Flit.{Flit}
use nica.Metadata.{Metadata}
use nica.Mlx.{Axi4s, MlxMetadata}
use nica.Udp.{
  HeaderParser, metadata_to_header, header_bits, empty_packet, to_header_buffer, header_width,
}

pub data Mode : Type 0 where
  idle second : Mode

-- The class with the streams of a call.
pub record HeaderToMlx : Type 0 where
  pub mode : Mode
  pub buffer : ℕ
  pub metadata_in : Stream Metadata
  pub data_out : Stream Flit
  pub empty_packets : Stream Bool
  pub metadata_out : Stream MlxMetadata
  pub enable_stream : Stream Bool

abbrev pub buffer_size : ℕ
buffer_size = header_width - 256

abbrev pub is_udp : Metadata → Bool
is_udp m = m.pkt_type == 0

unfoldable pub first_word : Metadata → Flit
unfolding metadata_to_header to_header_buffer
first_word m =
    let buf = to_header_buffer (metadata_to_header m) in
    record {
      bits = range buf.hdr (header_width - 1) (header_width - 256);
      keep = 2 ^ 32 - 1;
      last = false;
    }

unfoldable pub left_over : Metadata → ℕ
unfolding metadata_to_header to_header_buffer
left_over m = let buf = to_header_buffer (metadata_to_header m) in range buf.hdr (buffer_size - 1) 0

unfoldable pub is_empty : Metadata → Bool
unfolding metadata_to_header empty_packet
is_empty m = is_udp m && empty_packet (metadata_to_header m).udp

unfoldable pub send_first : HeaderToMlx → Metadata → HeaderToMlx
unfolding first_word left_over is_empty
send_first s m = record s {
  metadata_out = write s.metadata_out (record { user = 0; id = 0 });
  buffer = left_over m;
  data_out = if is_udp m then write s.data_out (first_word m) else s.data_out;
  empty_packets = write s.empty_packets (is_empty m);
  enable_stream = write s.enable_stream (is_udp m);
  mode = if is_udp m then second else idle;
}

abbrev pub blocked : HeaderToMlx → Bool
blocked s =
    full s.data_out || (full s.empty_packets || (full s.metadata_out || full s.enable_stream))

-- `keep_bytes` of a submodule gives the byte enables of a number of bytes.
module _ (keep_bytes : ℕ → ℕ) where
  unfoldable pub second_word : ℕ → Flit
  second_word buffer = record {
    bits = cat buffer (256 - buffer_size) 0;
    keep = keep_bytes (buffer_size / 8);
    last = true;
  }

  unfoldable pub header_in : Mode → HeaderToMlx → HeaderToMlx
  unfolding send_first second_word
  header_in idle s = if blocked s then s else elim (read s.metadata_in) [
    | none ↦ s
    | some (m, rest) ↦ send_first (record s { metadata_in = rest }) m
  ]
  header_in second s = record s { data_out = write s.data_out (second_word s.buffer); mode = idle }

  unfoldable pub hdr_to_mlx : HeaderToMlx → HeaderToMlx
  unfolding header_in
  hdr_to_mlx s = header_in s.mode s

  unfoldable pub run : ℕ → HeaderToMlx → HeaderToMlx
  unfolding hdr_to_mlx
  run zero s = s
  run (suc n) s = run n (hdr_to_mlx s)

-- The loop of `pad_one` over the `n` low bytes.
unfoldable pub pad_loop : ℕ → ℕ → ℕ → ℕ
pad_loop d keep zero = 0
pad_loop d keep (suc i) =
    (if range keep i i == 0 then 0 else range d (8 * i + 7) (8 * i)) * 2 ^ (8 * i)
    + pad_loop d keep i

unfoldable pub pad_one : ℕ → ℕ → ℕ
unfolding pad_loop
pad_one d keep = pad_loop d keep 32

-- The second word of a packet, when it is the last: `keep | 0xfffffff0`.
unfoldable pub padded : Axi4s → Axi4s
unfolding pad_one
padded beat = record beat {
  bits = pad_one beat.bits beat.keep;
  keep = 2 ^ 32 - 16 + beat.keep % 16;
}

pub record PadPorts : Type 0 where
  pub beat_count : ℕ
  pub words_in : Stream Axi4s
  pub words_out : Stream Axi4s

-- `beat_count` has 6 bits.
unfoldable pub pad : PadPorts → PadPorts
unfolding padded
pad s = if full s.words_out then s else elim (read s.words_in) [
  | none ↦ s
  | some (beat, rest) ↦ record {
    beat_count = if beat.last then 0 else (s.beat_count + 1) % 2 ^ 6;
    words_in = rest;
    words_out = write s.words_out (if beat.last && s.beat_count == 1 then padded beat else beat);
  }
]

unfoldable pub pad_run : ℕ → PadPorts → PadPorts
unfolding pad
pad_run zero s = s
pad_run (suc n) s = pad_run n (pad s)
