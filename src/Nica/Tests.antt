-- ===== src/Nica/Tests.antt =====
-- The wrapper around an ikernel at small inputs.
use nica.Base.{◌+◌, ◌*◌, ◌^◌, ◌<◌, ◌≡◌, arith}
use nica.Metadata.{Metadata, get_packet, left}
use nica.FlowTable.{Result}
use nica.Udp.{header_of_bits, to_header_buffer, metadata_to_header}
use nica.Nica.{header_to_metadata}
use nica.Nica.Headers.{header_to_metadata-metadata_to_header}

abbrev message : Metadata
message = record {
  pkt_type = 0;
  flow_id = 3;
  ikernel_id = 2;
  var = 7 * 2 ^ 96 + 9;
  ring_id = 0;
  ip_identification = 5;
  length = 100;
}

abbrev decision : Result
decision = record { v = record { action = 2; engine_id = 1; ikernel_id = 3 }; flow_id = 9 }

header_to_metadata-metadata_to_header_example :
    let buf = to_header_buffer (metadata_to_header message) in
    let m = header_to_metadata (header_of_bits buf.hdr) decision in
    (buf.hdr < 2 ^ 336)
    × (m.var ≡ left (get_packet message.var))
    × (m.ip_identification ≡ 5)
    × (m.length ≡ 100)
    × (m.ikernel_id ≡ 3)
    × (m.flow_id ≡ 9)
header_to_metadata-metadata_to_header_example =
    header_to_metadata-metadata_to_header message decision (omega arith) (omega arith)
