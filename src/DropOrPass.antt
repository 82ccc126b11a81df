-- ===== src/DropOrPass.antt =====
-- nica/hls/drop_or_pass.hpp: a filter that passes or drops each packet of a data stream, as the
-- next decision says. One call handles one word.
pub mod Packets
mod Tests
use nica.Base.{ℕ, zero, suc, Bool, true, false, Option, none, some, if◌then◌else◌}
use nica.Stream.{Stream, read, write}
use nica.Flit.{Flit}

pub data Mode : Type 0 where
  decision stream : Mode

pub record Filter : Type 0 where
  pub mode : Mode
  pub pass : Bool

-- The filter with the three streams of a call.
pub record Ports : Type 0 where
  pub filter : Filter
  pub decisions : Stream Bool
  pub input : Stream Flit
  pub output : Stream Flit

-- `case STREAM`.
unfoldable pub forward : Ports → Ports
forward s = elim (read s.input) [
  | none ↦ s
  | some (d, rest) ↦ record s {
    filter = record (s.filter) { mode = if d.last then decision else stream };
    input = rest;
    output = if s.filter.pass then write s.output d else s.output;
  }
]

-- `case DECISION`, which falls through.
unfoldable pub decide : Ports → Ports
unfolding forward
decide s = elim (read s.decisions) [
  | none ↦ s
  | some (p, rest) ↦
      forward (record s { filter = record { mode = stream; pass = p }; decisions = rest })
]

unfoldable pub step_in : Mode → Ports → Ports
unfolding decide forward
step_in decision s = decide s
step_in stream s = forward s

-- A call of `filter`.
unfoldable pub step : Ports → Ports
unfolding step_in
step s = step_in s.filter.mode s

unfoldable pub run : ℕ → Ports → Ports
unfolding step
run zero s = s
run (suc n) s = run n (step s)
