-- ===== src/Nica.antt =====
-- nica/hls/nica.cpp: the wrapper around an ikernel, which turns the header of a packet and the
-- decision on it into metadata, and counts what comes back.
pub mod Headers
mod Tests
use nica.Base.{ℕ, ◌+◌, ◌-◌, ◌*◌, ◌/◌, ◌%◌, ◌^◌, none, some, if◌then◌else◌}
use nica.Stream.{Stream, full, read, write}
use nica.Metadata.{Metadata, metadata_of_bits, set_packet_metadata}
use nica.FlowTable.{Result}
use nica.Udp.{HeaderBuffer, HeaderParser, header_of_bits, udp_width}

-- The metadata that `split_udp_hdr_stream` makes.
unfoldable pub header_to_metadata : HeaderParser → Result → Metadata
unfolding set_packet_metadata
header_to_metadata hdr ft_res =
    let m = set_packet_metadata (metadata_of_bits 0) record {
      eth_dst = hdr.eth.dest;
      eth_src = hdr.eth.source;
      ip_dst = hdr.ip.daddr;
      ip_src = hdr.ip.saddr;
      udp_dst = hdr.udp.dest;
      udp_src = hdr.udp.source;
    } in
    record m {
      ip_identification = hdr.ip.id;
      length = (hdr.udp.length + 2 ^ 16 - udp_width / 8) % 2 ^ 16;
      ikernel_id = ft_res.v.ikernel_id;
      flow_id = ft_res.flow_id;
    }

-- `header_to_metadata_and_private` with the streams of a call.
pub record SplitPorts : Type 0 where
  pub hdr_in : Stream HeaderBuffer
  pub ft_results : Stream Result
  pub metadata_out : Stream Metadata

unfoldable pub split_udp_hdr_stream : SplitPorts → SplitPorts
unfolding header_to_metadata
split_udp_hdr_stream s = if full s.metadata_out then s else elim (read s.hdr_in) [
  | none ↦ s
  | some (buf, hs) ↦ elim (read s.ft_results) [
    | none ↦ s
    | some (r, rs) ↦ record {
      hdr_in = hs;
      ft_results = rs;
      metadata_out = write s.metadata_out (header_to_metadata (header_of_bits buf.hdr) r);
    }
  ]
]

-- `packet_counter`, whose `packets` has 32 bits, with what it publishes.
pub record CounterPorts : Type 0 where
  pub packets : ℕ
  pub published : ℕ
  pub metadata_in : Stream Metadata
  pub header_out : Stream Metadata

unfoldable pub count : CounterPorts → CounterPorts
count s =
    let s' = record s { published = s.packets } in
    if full s.header_out then s' else elim (read s.metadata_in) [
      | none ↦ s'
      | some (m, rest) ↦ record s' {
        metadata_in = rest;
        header_out = write s.header_out m;
        packets = (s.packets + 1) % 2 ^ 32;
      }
    ]
