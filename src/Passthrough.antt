-- ===== src/Passthrough.antt =====
-- ikernels/hls/passthrough.cpp and passthrough-impl.hpp: the ikernel that passes packets on, as they
-- are or as messages to a custom ring.
pub mod Decisions
mod Tests
use nica.Base.{ℕ, ◌-◌, ◌%◌, ◌^◌, Bool, true, false, ◌&&◌, not, ◌==◌, leb, none, some, if◌then◌else◌}
use nica.Stream.{Stream, full, read, write}
use nica.Metadata.{Metadata, set_ring_metadata}
use nica.Pipeline.{PipelinePorts, pass_packets}
use nica.Credits.{Credits, TcCounts, can_transmit, new_message, update, host}
use nica.DropOrPass.{Filter}
use nica.Contexts.{Codes, ContextManager}
use nica.DropOrPass as DropOrPass

pub record Context : Type 0 where
  pub ring_id : ℕ
  pub ignore_credits : Bool

abbrev pub new_context : Context
new_context = record { ring_id = 0; ignore_credits = false }

abbrev pub num_contexts : ℕ
num_contexts = 2 ^ 6

-- The metadata of a message to a custom ring, as the ikernels make it.
unfoldable pub to_ring : Metadata → ℕ → ℕ → Metadata
to_ring m ring length =
    set_ring_metadata (record m { ring_id = ring; length = length }) (record { end_of_message = 1 })

module _ (lib : ContextManager Context) where
  pub record Passthrough : Type 0 where
    pub contexts : lib.Contexts
    pub credits : Credits
    pub decisions : Stream Bool
    pub dropper : Filter

module _ (lib : ContextManager Context) where
  -- The packet after `metadata_input.read()`, with its context.
  unfoldable pub decide :
      Passthrough lib → PipelinePorts → TcCounts → Metadata → Passthrough lib × PipelinePorts
  unfolding to_ring
  decide s p tc m =
      let c = lib.at s.contexts m.ikernel_id in
      if c.ring_id == 0
      then (
        record s { decisions = write s.decisions true },
        record p { metadata_output = write p.metadata_output m },
      )
      else if not c.ignore_credits
          && not (can_transmit s.credits tc m.ikernel_id c.ring_id m.length host)
      then (record s { decisions = write s.decisions false }, p)
      else (
        record s {
          credits = new_message s.credits c.ring_id host;
          decisions = write s.decisions true;
        },
        record p { metadata_output = write p.metadata_output (to_ring m c.ring_id m.length) },
      )

  unfoldable pub take_packet :
      Passthrough lib → PipelinePorts → TcCounts → Passthrough lib × PipelinePorts
  unfolding decide
  take_packet s p tc = if full s.decisions then (s, p) else elim (read p.metadata_input) [
    | none ↦ (s, p)
    | some (m, rest) ↦ decide s (record p { metadata_input = rest }) tc m
  ]

  unfoldable pub intercept_in :
      Passthrough lib → PipelinePorts → TcCounts → Passthrough lib × PipelinePorts
  unfolding take_packet
  intercept_in s p tc =
      let (contexts, served) = lib.update s.contexts in
      let s1 = record s { contexts = contexts } in
      let (credits, updated) = update s1.credits in
      let s2 = record s1 { credits = credits } in
      if served then (s1, p) else if updated then (s2, p) else take_packet s2 p tc

  -- `step`, less the unused memory port of a submodule: the host side, the net side.
  unfoldable pub step :
      Passthrough lib
      → PipelinePorts
      → PipelinePorts
      → TcCounts
      → Passthrough lib × PipelinePorts × PipelinePorts
  unfolding intercept_in
  step s host_ports net tc =
      let (s1, net1) = intercept_in s net tc in
      let f = DropOrPass.step record {
        filter = s1.dropper;
        decisions = s1.decisions;
        input = net1.data_input;
        output = net1.data_output;
      } in
      (
        record s1 { dropper = f.filter; decisions = f.decisions },
        pass_packets host_ports,
        record net1 { data_input = f.input; data_output = f.output },
      )

module _ (lib : ContextManager Context) (codes : Codes) where
  -- `passthrough_contexts::rpc`: the contexts, `*v` and the code. A Boolean field is the bit that
  -- an `int` converts to.
  unfoldable pub rpc : lib.Contexts → ℕ → ℕ → ℕ → Bool → lib.Contexts × ℕ × ℕ
  rpc contexts address v index reading =
      if address == 16
      then lib.access contexts index reading (λ (c : Context). c.ring_id)
          (λ (n : ℕ) (c : Context). record c { ring_id = n % 2 ^ 7 }) v
      else if address == 17
      then lib.access contexts index reading (λ (c : Context). if c.ignore_credits then 1 else 0)
          (λ (n : ℕ) (c : Context). record c { ignore_credits = not (n == 0) }) v
      else (contexts, if reading then 2 ^ 32 - 1 else v, codes.fail)

  unfoldable pub reg_write : Passthrough lib → ℕ → ℕ → ℕ → Passthrough lib × ℕ
  unfolding rpc
  reg_write s address value id =
      let (contexts, _, code) = rpc s.contexts address value id false in
      if leb num_contexts id then (s, codes.fail) else (record s { contexts = contexts }, code)

  -- The state, `*value` and the code.
  unfoldable pub reg_read : Passthrough lib → ℕ → ℕ → ℕ → Passthrough lib × ℕ × ℕ
  unfolding rpc
  reg_read s address value id =
      let (contexts, v, code) = rpc s.contexts address value id true in
      if leb num_contexts id
      then (s, 2 ^ 32 - 1, codes.fail)
      else (record s { contexts = contexts }, v, code)
