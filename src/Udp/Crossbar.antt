-- ===== src/Udp/Crossbar.antt =====
-- `udp::crossbar` of nica/hls/udp.cpp: each packet goes to the ikernel that its decision names. The
-- ports of the `NUM_IKERNELS` ikernels are indexed by their numbers.
pub mod Routes
use nica.Base.{ℕ, zero, suc, Bool, true, false, ◌||◌, ltb, none, some, store, if◌then◌else◌}
use nica.Stream.{Stream, full, read, write}
use nica.Flit.{Flit}
use nica.FlowTable.{Result}
use nica.Udp.{HeaderBuffer, header_of_bits, empty_packet}

pub data Mode : Type 0 where
  idle stream : Mode

pub record Crossbar : Type 0 where
  pub mode : Mode
  pub current_steering_decision : Result
  pub hdr_in : Stream HeaderBuffer
  pub data_in : Stream Flit
  pub steer_results : Stream Result
  pub hdr_out : ℕ → Stream HeaderBuffer
  pub ft_results : ℕ → Stream Result
  pub data_out : ℕ → Stream Flit

unfoldable pub is_empty : HeaderBuffer → Bool
unfolding header_of_bits empty_packet
is_empty buf = empty_packet (header_of_bits buf.hdr).udp

-- Whether an output of one of the first `n` ikernels is full.
abbrev pub any_full : ℕ → Crossbar → Bool
any_full zero s = false
any_full (suc n) s = (full (s.hdr_out n) || full (s.ft_results n)) || any_full n s

module _ (num_ikernels : ℕ) where
  -- `case IDLE` with a decision and a header at hand. A decision for an engine that does not exist
  -- is taken without a header, and the test is then made on the uninitialised `buf`.
  unfoldable pub route :
      HeaderBuffer → Crossbar → Result → HeaderBuffer → Stream HeaderBuffer → Crossbar
  unfolding is_empty
  route uninitialised s r buf rest =
      let e = r.v.engine_id in
      let s' = record s { current_steering_decision = r } in
      if ltb e num_ikernels
      then record s' {
        hdr_in = rest;
        hdr_out = store s.hdr_out e (write (s.hdr_out e) buf);
        ft_results = store s.ft_results e (write (s.ft_results e) r);
        mode = if is_empty buf then idle else stream;
      }
      else record s' { mode = if is_empty uninitialised then idle else stream }

  unfoldable pub take_decision : HeaderBuffer → Crossbar → Crossbar
  unfolding route
  take_decision uninitialised s =
      if any_full num_ikernels s then s else elim (read s.steer_results) [
        | none ↦ s
        | some (r, rs) ↦ elim (read s.hdr_in) [
          | none ↦ s
          | some (buf, rest) ↦ route uninitialised (record s { steer_results = rs }) r buf rest
        ]
      ]

  unfoldable pub forward : Crossbar → Crossbar
  forward s =
      let e = s.current_steering_decision.v.engine_id in
      if ltb e num_ikernels
      then elim (read s.data_in) [
        | none ↦ s
        | some (d, rest) ↦ if full (s.data_out e) then s else record s {
          data_in = rest;
          data_out = store s.data_out e (write (s.data_out e) d);
          mode = if d.last then idle else stream;
        }
      ]
      else s

  unfoldable pub cross_in : HeaderBuffer → Mode → Crossbar → Crossbar
  unfolding take_decision forward
  cross_in uninitialised idle s = take_decision uninitialised s
  cross_in uninitialised stream s = forward s

  unfoldable pub crossbar : HeaderBuffer → Crossbar → Crossbar
  unfolding cross_in
  crossbar uninitialised s = cross_in uninitialised s.mode s

  unfoldable pub run : HeaderBuffer → ℕ → Crossbar → Crossbar
  unfolding crossbar
  run uninitialised zero s = s
  run uninitialised (suc n) s = run uninitialised n (crossbar uninitialised s)
