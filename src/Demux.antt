-- ===== src/Demux.antt =====
-- nica/hls/demux.hpp: the demultiplexor, which sends each packet to the output port of its traffic
-- class. One call is one clock of its elements.
pub mod Routing
pub mod Classes
mod Tests
use nica.Base.{
  ℕ, ◌+◌, ◌-◌, ◌%◌, Bool, true, false, ◌&&◌, ◌||◌, leb, none, some, store, if◌then◌else◌,
}
use nica.Stream.{Stream, empty, full, read, write}
use nica.Flit.{Flit}
use nica.Metadata.{Metadata, empty_packet}
use nica.Links.{dup}
use nica.Credits.{num_tc}

abbrev pub num_ports : ℕ
num_ports = num_tc - 1

-- `ikernel_id & (NUM_TC - 1)`, and the class that is not a port goes to port 0.
unfoldable pub select_port : Metadata → ℕ
select_port m =
    let ik_id = m.ikernel_id % num_tc in if leb num_ports ik_id then ik_id - num_ports else ik_id

pub data MetaState : Type 0 where
  meta_idle write_metadata : MetaState

pub data State : Type 0 where
  idle stream : State

-- `index_t` has bits enough for a port.
pub record Demux : Type 0 where
  pub meta_state : MetaState
  pub meta_port : ℕ
  pub meta_to_select_port : Stream Metadata
  pub meta_to_output : Stream Metadata
  pub empty_stream : Stream Bool
  pub selected_ports : Stream ℕ
  pub port_to_meta_output : Stream ℕ
  pub port_to_data_output : Stream ℕ
  pub state : State
  pub data_port : ℕ

-- The outputs (nica/hls/tc-ports.hpp) `meta0`, …, and `data0`, …
pub record TcPorts : Type 0 where
  pub meta : ℕ → Stream Metadata
  pub words : ℕ → Stream Flit

unfoldable pub port_selector : Demux → Demux
unfolding select_port empty_packet
port_selector s =
    if full s.selected_ports || full s.empty_stream then s else elim (read s.meta_to_select_port) [
      | none ↦ s
      | some (m, rest) ↦ record s {
        meta_to_select_port = rest;
        selected_ports = write s.selected_ports (select_port m);
        empty_stream = write s.empty_stream (empty_packet m);
      }
    ]

unfoldable pub demux_meta_in : MetaState → Demux → TcPorts → Demux × TcPorts
demux_meta_in meta_idle s tc = elim (read s.port_to_meta_output) [
  | none ↦ (s, tc)
  | some (port, rest) ↦
      (record s { port_to_meta_output = rest; meta_port = port; meta_state = write_metadata }, tc)
]
demux_meta_in write_metadata s tc =
    if full (tc.meta s.meta_port) then (s, tc) else elim (read s.meta_to_output) [
      | none ↦ (s, tc)
      | some (m, rest) ↦ (
        record s { meta_to_output = rest; meta_state = meta_idle },
        record tc { meta = store tc.meta s.meta_port (write (tc.meta s.meta_port) m) },
      )
    ]

unfoldable pub demux_meta : Demux → TcPorts → Demux × TcPorts
unfolding demux_meta_in
demux_meta s tc = demux_meta_in s.meta_state s tc

unfoldable pub demux_data_in : State → Demux → Stream Flit → TcPorts → Demux × Stream Flit × TcPorts
demux_data_in idle s words tc = elim (read s.empty_stream) [
  | none ↦ (s, words, tc)
  | some (is_empty, empties) ↦ elim (read s.port_to_data_output) [
    | none ↦ (s, words, tc)
    | some (port, rest) ↦ (
      record s {
        empty_stream = empties;
        port_to_data_output = rest;
        data_port = port;
        state = if is_empty then idle else stream;
      },
      words,
      tc,
    )
  ]
]
demux_data_in stream s words tc =
    if full (tc.words s.data_port) then (s, words, tc) else elim (read words) [
      | none ↦ (s, words, tc)
      | some (flit, rest) ↦ (
        record s { state = if flit.last then idle else stream },
        rest,
        record tc { words = store tc.words s.data_port (write (tc.words s.data_port) flit) },
      )
    ]

unfoldable pub demux_data : Demux → Stream Flit → TcPorts → Demux × Stream Flit × TcPorts
unfolding demux_data_in
demux_data s words tc = demux_data_in s.state s words tc

-- The elements of `demux`, in its order.
unfoldable pub dup_metadata : Stream Metadata → Demux → Stream Metadata × Demux
dup_metadata metadata_in s =
    let (i, a, b) = dup metadata_in s.meta_to_select_port s.meta_to_output in
    (i, record s { meta_to_select_port = a; meta_to_output = b })

unfoldable pub dup_ports : Demux → Demux
dup_ports s =
    let (i, a, b) = dup s.selected_ports s.port_to_meta_output s.port_to_data_output in
    record s { selected_ports = i; port_to_meta_output = a; port_to_data_output = b }

unfoldable pub demux :
    Demux
    → Stream Metadata
    → Stream Flit
    → TcPorts
    → Demux × Stream Metadata × Stream Flit × TcPorts
unfolding dup_metadata port_selector dup_ports demux_meta demux_data
demux s metadata_in data_in tc =
    let (metadata', s1) = dup_metadata metadata_in s in
    let (s2, tc1) = demux_meta (dup_ports (port_selector s1)) tc in
    let (s3, data', tc2) = demux_data s2 data_in tc1 in (s3, metadata', data', tc2)
