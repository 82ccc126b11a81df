-- ===== src/Udp/Dropper.antt =====
-- `udp_dropper` of nica/hls/udp.cpp: passes or drops each header and its packet's data. One call
-- handles one header or one word.
pub mod Drops
use nica.Base.{
  ℕ, zero, suc, Bool, true, false, not, ◌&&◌, ◌||◌, none, some, List, [], ◌∷◌, ◌++◌, if◌then◌else◌,
}
use nica.Stream.{Stream, full, read, write}
use nica.Flit.{Flit}
use nica.Udp.{HeaderBuffer, header_of_bits, empty_packet}

pub data Mode : Type 0 where
  idle stream : Mode

pub record Dropper : Type 0 where
  pub mode : Mode
  pub drop : Bool
  pub empty_packets_have_data : Bool
  pub data_buf_valid : Bool
  pub data_buf : Flit

-- The dropper with the streams of a call.
pub record Ports : Type 0 where
  pub dropper : Dropper
  pub pass : Stream Bool
  pub header_in : Stream HeaderBuffer
  pub data_in : Stream Flit
  pub header_out : Stream HeaderBuffer
  pub data_out : Stream Flit

unfoldable pub is_empty : HeaderBuffer → Bool
unfolding header_of_bits empty_packet
is_empty buf = empty_packet (header_of_bits buf.hdr).udp

-- The body of `case IDLE` after the two reads.
unfoldable pub accept : Ports → Bool → HeaderBuffer → Ports
unfolding is_empty
accept s p buf = record s {
  dropper = record (s.dropper) {
    mode = if not (is_empty buf) || s.dropper.empty_packets_have_data then stream else idle;
    drop = if is_empty buf && s.dropper.empty_packets_have_data then true else not p;
  };
  header_out = if p then write s.header_out buf else s.header_out;
}

unfoldable pub take_header : Ports → Ports
unfolding accept
take_header s = if full s.header_out then s else elim (read s.pass) [
  | none ↦ s
  | some (p, passes) ↦ elim (read s.header_in) [
    | none ↦ s
    | some (buf, headers) ↦ accept (record s { pass = passes; header_in = headers }) p buf
  ]
]

-- The first block of `case STREAM`.
unfoldable pub send_word : Ports → Ports
send_word s = if not s.dropper.data_buf_valid || full s.data_out then s else record s {
  dropper = record (s.dropper) {
    mode = if s.dropper.data_buf.last then idle else stream;
    data_buf_valid = false;
  };
  data_out = if s.dropper.drop then s.data_out else write s.data_out s.dropper.data_buf;
}

-- The second block.
unfoldable pub fetch_word : Ports → Ports
fetch_word s = if s.dropper.data_buf_valid then s else elim (read s.data_in) [
  | none ↦ s
  | some (d, rest) ↦ record s {
    dropper = record (s.dropper) { data_buf_valid = true; data_buf = d };
    data_in = rest;
  }
]

unfoldable pub step_in : Mode → Ports → Ports
unfolding take_header send_word fetch_word
step_in idle s = take_header s
step_in stream s = fetch_word (send_word s)

-- `udp_dropper_step`
unfoldable pub dropper_step : Ports → Ports
unfolding step_in
dropper_step s = step_in s.dropper.mode s

unfoldable pub run : ℕ → Ports → Ports
unfolding dropper_step
run zero s = s
run (suc n) s = run n (dropper_step s)
