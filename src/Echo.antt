-- ===== src/Echo.antt =====
-- ikernels/hls/echo.cpp and echo-impl.hpp: the ikernel that sends the packets of the network back.
pub mod Replies
mod Tests
use nica.Base.{
  ℕ, ◌+◌, ◌-◌, ◌*◌, ◌/◌, ◌%◌, ◌^◌, Bool, true, false, not, ◌==◌, none, some, range, if◌then◌else◌,
}
use nica.Stream.{Stream, full, read, write}
use nica.Flit.{Flit}
use nica.Metadata.{Metadata, reply}
use nica.Pipeline.{PipelinePorts}
use nica.Credits.{Credits, TcCounts, can_transmit, net, update}
use nica.Contexts.{Codes}

pub data State : Type 0 where
  meta data_words : State

pub record Echo : Type 0 where
  pub credits : Credits
  pub state : State
  pub first : Bool
  pub respond : Bool
  pub metadata : Metadata
  pub respond_to_sockperf : Bool
  pub respond_to_sockperf_cache : Bool
  pub respond_to_sockperf_update : Stream Bool

-- The host's and the network's ports.
pub record Ports : Type 0 where
  pub host_ports : PipelinePorts
  pub net_ports : PipelinePorts

-- `d.data(255 - 8 * 8, 256 - 10 * 8)`
abbrev pub flags_of : Flit → ℕ
flags_of d = range d.bits 191 176

-- The word with bit 0 of the flags cleared.
unfoldable pub clear_client : Flit → Flit
clear_client d =
    let flags = flags_of d in
    record d {
      bits = d.bits / 2 ^ 192 * 2 ^ 192 + (flags - flags % 2) * 2 ^ 176 + d.bits % 2 ^ 176;
    }

-- The first word: what goes out for it, and whether the packet gets a response.
unfoldable pub first_word : Bool → Flit → Flit × Bool
unfolding clear_client
first_word sockperf d =
    if sockperf then (clear_client d, not (flags_of d / 2 % 2 == 0)) else (d, true)

-- `p.host.metadata_output.write(metadata.reply(metadata.length))`, if there is room.
unfoldable pub respond_meta : Echo → Ports → TcCounts → Ports
respond_meta s p tc =
    let m = s.metadata in
    if can_transmit s.credits tc m.ikernel_id 0 m.length net
    then record p {
      host_ports = record (p.host_ports) {
        metadata_output = write p.host_ports.metadata_output (reply m m.length);
      };
    }
    else p

-- The end of `case DATA`.
unfoldable pub send_word : Echo → Ports → Flit → Echo × Ports
send_word s p d = (
  record s { state = if d.last then meta else data_words },
  if s.respond
      then record p {
        host_ports = record (p.host_ports) { data_output = write p.host_ports.data_output d };
      }
      else p,
)

-- `case DATA` with the word read.
unfoldable pub take_word : Echo → Ports → TcCounts → Flit → Echo × Ports
unfolding first_word respond_meta send_word
take_word s p tc d =
    let (d', respond) = first_word s.respond_to_sockperf d in
    let s' = record s { first = false; respond = respond } in
    if s.first
    then send_word s' (if respond then respond_meta s' p tc else p) d'
    else send_word s p d

unfoldable pub pipeline_in : State → Echo → Ports → TcCounts → Echo × Ports
unfolding take_word
pipeline_in meta s p tc = elim (read p.net_ports.metadata_input) [
  | none ↦ (s, p)
  | some (m, rest) ↦ (
    record s { metadata = m; state = data_words; first = true },
    record p { net_ports = record (p.net_ports) { metadata_input = rest } },
  )
]
pipeline_in data_words s p tc = elim (read p.net_ports.data_input) [
  | none ↦ (s, p)
  | some (d, rest) ↦
      take_word s (record p { net_ports = record (p.net_ports) { data_input = rest } }) tc d
]

unfoldable pub take_update : Echo → Echo
take_update s = elim (read s.respond_to_sockperf_update) [
  | none ↦ s
  | some (b, rest) ↦ record s { respond_to_sockperf = b; respond_to_sockperf_update = rest }
]

unfoldable pub echo_pipeline : Echo → Ports → TcCounts → Echo × Ports
unfolding take_update pipeline_in
echo_pipeline s p tc = let s' = take_update s in pipeline_in s'.state s' p tc

-- `step`, less the unused memory port and the dummy reads and writes of a submodule.
unfoldable pub step : Echo → Ports → TcCounts → Echo × Ports
unfolding echo_pipeline
step s p tc =
    let (s', p') = echo_pipeline s p tc in
    let (credits, _) = update s'.credits in (record s' { credits = credits }, p')

unfoldable pub reg_write : Codes → Echo → ℕ → ℕ → Echo × ℕ
reg_write codes s address value =
    if address == 0
    then (if full s.respond_to_sockperf_update then (s, codes.busy) else (
      record s {
        respond_to_sockperf_cache = not (value == 0);
        respond_to_sockperf_update = write s.respond_to_sockperf_update (not (value == 0));
      },
      0,
    ))
    else (s, codes.fail)

-- `*value` and the code.
unfoldable pub reg_read : Codes → Echo → ℕ → ℕ × ℕ
reg_read codes s address =
    if address == 0
    then (if s.respond_to_sockperf_cache then 1 else 0, 0)
    else (2 ^ 32 - 1, codes.fail)
