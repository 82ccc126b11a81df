-- ===== src/Threshold.antt =====
-- ikernels/hls/threshold.cpp and threshold-impl.hpp: the ikernel that drops packets whose value is
-- below a threshold, and counts.
pub mod Stats
pub mod Verdicts
pub mod Parsing
mod Tests
use Prim.Native.Nat.{min, max}
use nica.Base.{
  ℕ, ◌+◌, ◌-◌, ◌*◌, ◌%◌, ◌/◌, ◌^◌, Bool, true, false, ◌&&◌, ◌||◌, not, ◌==◌, ltb, leb, none, some,
  range, if◌then◌else◌,
}
use nica.Stream.{Stream, full, read, write}
use nica.Flit.{Flit}
use nica.Metadata.{Metadata}
use nica.Pipeline.{PipelinePorts, pass_packets}
use nica.Credits.{Credits, TcCounts, can_transmit, new_message, update, host}
use nica.DropOrPass.{Filter}
use nica.Links.{dup}
use nica.Contexts.{Codes, ContextManager}
use nica.Passthrough.{to_ring}
use nica.DropOrPass as DropOrPass

-- `threshold_context`, 32-bit numbers but for the sum of 64 bits.
pub record Context : Type 0 where
  pub threshold_value : ℕ
  pub min : ℕ
  pub max : ℕ
  pub count : ℕ
  pub dropped : ℕ
  pub dropped_backpressure : ℕ
  pub sum : ℕ
  pub ring_id : ℕ

-- The constructor; it leaves `dropped_backpressure` as it is in memory.
unfoldable pub new_context : ℕ → Context
new_context memory = record {
  threshold_value = 0;
  min = 2 ^ 32 - 1;
  max = 0;
  count = 0;
  dropped = 0;
  dropped_backpressure = memory;
  sum = 0;
  ring_id = 0;
}

-- `update_stats` on the context.
unfoldable pub count_packet : Context → ℕ → Bool → Bool → Context
count_packet c v drop backpressure = record c {
  min = min c.min v;
  max = max c.max v;
  sum = (c.sum + v) % 2 ^ 64;
  count = (c.count + 1) % 2 ^ 32;
  dropped = if drop && not backpressure then (c.dropped + 1) % 2 ^ 32 else c.dropped;
  dropped_backpressure =
      if backpressure then (c.dropped_backpressure + 1) % 2 ^ 32 else c.dropped_backpressure;
}

pub record Decision : Type 0 where
  pub v : ℕ
  pub ring_id : ℕ

pub data ParserState : Type 0 where
  first rest : ParserState

pub data EgressState : Type 0 where
  idle stream : EgressState

abbrev pub num_contexts : ℕ
num_contexts = 2 ^ 6

-- The parser with its two streams.
pub record Parser : Type 0 where
  pub parser_state : ParserState
  pub data_dup_to_parser : Stream Flit
  pub parsed : Stream ℕ

-- `d.data(255 - 14 * 8, 256 - value::width - 14 * 8)`
abbrev pub value_of : Flit → ℕ
value_of d = range d.bits 143 112

unfoldable pub parse_in : ParserState → Parser → Parser
parse_in first s = if full s.parsed then s else elim (read s.data_dup_to_parser) [
  | none ↦ s
  | some (d, words) ↦ record {
    parser_state = if d.last then first else rest;
    data_dup_to_parser = words;
    parsed = write s.parsed (value_of d);
  }
]
parse_in rest s = elim (read s.data_dup_to_parser) [
  | none ↦ s
  | some (d, words) ↦ record s {
    parser_state = if d.last then first else rest;
    data_dup_to_parser = words;
  }
]

unfoldable pub parser : Parser → Parser
unfolding parse_in
parser s = parse_in s.parser_state s

module _ (lib : ContextManager Context) where
  pub record Threshold : Type 0 where
    pub contexts : lib.Contexts
    pub credits : Credits
    pub parsing : Parser
    pub data_dup_to_egress : Stream Flit
    pub data_egress_to_filter : Stream Flit
    pub decisions : Stream Decision
    pub decision_pass : Stream Bool
    pub egress_last_decision : Decision
    pub egress_state : EgressState
    pub dropper : Filter

module _ (lib : ContextManager Context) where
  unfoldable pub find_ring : lib.Contexts → ℕ → ℕ
  find_ring contexts id = (lib.at contexts id).ring_id

  unfoldable pub update_stats : Threshold lib → ℕ → ℕ → Bool → Bool → Threshold lib
  unfolding count_packet
  update_stats s id v drop backpressure = record s {
    contexts = lib.assign s.contexts id (count_packet (lib.at s.contexts id) v drop backpressure);
  }

  -- What `net_ingress` does with a metadata and a value that it has read.
  unfoldable pub judge :
      Threshold lib → PipelinePorts → TcCounts → Metadata → ℕ → Threshold lib × PipelinePorts
  unfolding find_ring update_stats
  judge s p tc m v =
      let ring_id = find_ring s.contexts m.ikernel_id in
      let backpressure = not (can_transmit s.credits tc m.ikernel_id ring_id 4 host) in
      let drop = ltb v (lib.at s.contexts m.ikernel_id).threshold_value || backpressure in
      let to_host = not drop && not (ring_id == 0) in
      let s1 = record s {
        credits = if to_host then new_message s.credits ring_id host else s.credits;
        decisions = write s.decisions (record { v = v; ring_id = ring_id });
        decision_pass = write s.decision_pass (not drop);
      } in
      let out = if to_host then to_ring m ring_id 4 else m in
      (
        update_stats s1 m.ikernel_id v drop backpressure,
        if drop then p else record p { metadata_output = write p.metadata_output out },
      )

  unfoldable pub take_packet :
      Threshold lib → PipelinePorts → TcCounts → Threshold lib × PipelinePorts
  unfolding judge
  take_packet s p tc =
      if full s.decisions || full s.decision_pass then (s, p) else elim (read p.metadata_input) [
        | none ↦ (s, p)
        | some (m, metas) ↦ elim (read s.parsing.parsed) [
          | none ↦ (s, p)
          | some (v, values) ↦
              judge (record s { parsing = record (s.parsing) { parsed = values } })
                (record p { metadata_input = metas }) tc m v
        ]
      ]

  unfoldable pub net_ingress :
      Threshold lib → PipelinePorts → TcCounts → Threshold lib × PipelinePorts
  unfolding take_packet
  net_ingress s p tc =
      let (contexts, served) = lib.update s.contexts in
      let s1 = record s { contexts = contexts } in
      let (credits, updated) = update s1.credits in
      let s2 = record s1 { credits = credits } in
      if served then (s1, p) else if updated then (s2, p) else take_packet s2 p tc

  -- The word of a message to a custom ring: the value in the highest 32 of 256 bits.
  unfoldable pub message_word : ℕ → Flit
  message_word v = record { bits = v * 2 ^ 224; keep = 15 * 2 ^ 28; last = true }

  unfoldable pub egress_in : EgressState → Threshold lib → Threshold lib
  unfolding message_word
  egress_in idle s = if full s.data_egress_to_filter then s else elim (read s.decisions) [
    | none ↦ s
    | some (d, others) ↦ record s {
      decisions = others;
      egress_last_decision = d;
      egress_state = stream;
      data_egress_to_filter =
          if d.ring_id == 0
          then s.data_egress_to_filter
          else write s.data_egress_to_filter (message_word d.v);
    }
  ]
  egress_in stream s =
      if full s.data_egress_to_filter then s else elim (read s.data_dup_to_egress) [
        | none ↦ s
        | some (d, others) ↦ record s {
          data_dup_to_egress = others;
          data_egress_to_filter =
              if s.egress_last_decision.ring_id == 0
              then write s.data_egress_to_filter d
              else s.data_egress_to_filter;
          egress_state = if d.last then idle else stream;
        }
      ]

  unfoldable pub egress : Threshold lib → Threshold lib
  unfolding egress_in
  egress s = egress_in s.egress_state s

  -- `step`, less the unused memory port of a submodule: the host side, the net side.
  unfoldable pub step :
      Threshold lib
      → PipelinePorts
      → PipelinePorts
      → TcCounts
      → Threshold lib × PipelinePorts × PipelinePorts
  unfolding net_ingress egress
  step s host_ports net tc =
      let (i, a, b) = dup net.data_input s.parsing.data_dup_to_parser s.data_dup_to_egress in
      let s1 = record s {
        parsing = parser (record (s.parsing) { data_dup_to_parser = a });
        data_dup_to_egress = b;
      } in
      let (s2, net1) = net_ingress s1 (record net { data_input = i }) tc in
      let s3 = egress s2 in
      let f = DropOrPass.step record {
        filter = s3.dropper;
        decisions = s3.decision_pass;
        input = s3.data_egress_to_filter;
        output = net1.data_output;
      } in
      (
        record s3 {
          dropper = f.filter;
          decision_pass = f.decisions;
          data_egress_to_filter = f.input;
        },
        pass_packets host_ports,
        record net1 { data_output = f.output },
      )

module _ (lib : ContextManager Context) (codes : Codes) where
  abbrev Field : Type 0
  Field = lib.Contexts → ℕ → Bool → ℕ → lib.Contexts × ℕ × ℕ

  abbrev field : (Context → ℕ) → (ℕ → Context → Context) → Field
  field get put contexts index reading v = lib.access contexts index reading get put v

  -- `threshold_contexts::rpc`: the contexts, `*v` and the code.
  unfoldable pub rpc : lib.Contexts → ℕ → ℕ → ℕ → Bool → lib.Contexts × ℕ × ℕ
  rpc contexts address v index reading =
      if address == 16
      then field (λ (c : Context). c.min) (λ (n : ℕ) (c : Context). record c { min = n }) contexts
          index reading v
      else if address == 20
      then field (λ (c : Context). c.max) (λ (n : ℕ) (c : Context). record c { max = n }) contexts
          index reading v
      else if address == 24
      then field (λ (c : Context). c.count) (λ (n : ℕ) (c : Context). record c { count = n })
          contexts index reading v
      else if address == 28
      then field (λ (c : Context). c.sum % 2 ^ 32)
          (λ (n : ℕ) (c : Context). record c { sum = c.sum / 2 ^ 32 * 2 ^ 32 + n }) contexts index
          reading v
      else if address == 32
      then field (λ (c : Context). c.sum / 2 ^ 32)
          (λ (n : ℕ) (c : Context). record c { sum = n * 2 ^ 32 + c.sum % 2 ^ 32 }) contexts index
          reading v
      else if address == 36
      then field (λ (c : Context). c.threshold_value)
          (λ (n : ℕ) (c : Context). record c { threshold_value = n }) contexts index reading v
      else if address == 40
      then field (λ (c : Context). c.dropped) (λ (n : ℕ) (c : Context). record c { dropped = n })
          contexts index reading v
      else if address == 41
      then field (λ (c : Context). c.dropped_backpressure)
          (λ (n : ℕ) (c : Context). record c { dropped_backpressure = n }) contexts index reading v
      else if address == 44
      then field (λ (c : Context). c.ring_id)
          (λ (n : ℕ) (c : Context). record c { ring_id = n % 2 ^ 7 }) contexts index reading v
      else (contexts, if reading then 2 ^ 32 - 1 else v, codes.fail)

  unfoldable pub reg_write : Threshold lib → ℕ → ℕ → ℕ → Threshold lib × ℕ
  unfolding rpc
  reg_write s address value id =
      let (contexts, _, code) = rpc s.contexts address value id false in
      if leb num_contexts id then (s, codes.fail) else (record s { contexts = contexts }, code)

  -- The state, `*value` and the code.
  unfoldable pub reg_read : Threshold lib → ℕ → ℕ → ℕ → Threshold lib × ℕ × ℕ
  unfolding rpc
  reg_read s address value id =
      let (contexts, v, code) = rpc s.contexts address value id true in
      if leb num_contexts id
      then (s, 2 ^ 32 - 1, codes.fail)
      else (record s { contexts = contexts }, v, code)
