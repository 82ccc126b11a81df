-- ===== src/Pipeline.antt =====
-- `pipeline_ports` of nica/hls/ikernel.hpp, the four streams of one direction of an ikernel, and
-- `pass_packets` of ikernels/hls/passthrough.cpp. A metadata stream carries the encodings of
-- metadata; here it carries the metadata.
pub mod Pass
pub mod Tests
use nica.Base.{none, some}
use nica.Stream.{Stream, read, write}
use nica.Flit.{Flit}
use nica.Metadata.{Metadata}

pub record PipelinePorts : Type 0 where
  pub metadata_input : Stream Metadata
  pub data_input : Stream Flit
  pub metadata_output : Stream Metadata
  pub data_output : Stream Flit

unfoldable pub pass_metadata : PipelinePorts → PipelinePorts
pass_metadata p = elim (read p.metadata_input) [
  | none ↦ p
  | some (m, rest) ↦ record p { metadata_input = rest; metadata_output = write p.metadata_output m }
]

unfoldable pub pass_data : PipelinePorts → PipelinePorts
pass_data p = elim (read p.data_input) [
  | none ↦ p
  | some (d, rest) ↦ record p { data_input = rest; data_output = write p.data_output d }
]

unfoldable pub pass_packets : PipelinePorts → PipelinePorts
unfolding pass_metadata pass_data
pass_packets p = pass_data (pass_metadata p)
