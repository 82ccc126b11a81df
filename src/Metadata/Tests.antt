-- ===== src/Metadata/Tests.antt =====
-- Metadata at concrete packets.
use nica.Base.{◌<◌, ◌^◌, ◌≡◌, ◌≢◌, ◌↔◌, true, false, arith}
use nica.Metadata.{
  PacketMetadata, packet_bits, packet_of_bits, packet_width, Metadata, metadata_bits,
  metadata_of_bits, is_left, CustomRingMetadata, verify,
}
use nica.Metadata.Encoding.{PacketFits, Fits, packet_roundtrip, metadata_roundtrip}
use nica.Metadata.Reply.{verify_iff}

abbrev pub headers : PacketMetadata
headers = record {
  eth_dst = 0x1122_3344_5566;
  eth_src = 1;
  ip_dst = 0x0a00_0001;
  ip_src = 0x0a00_0002;
  udp_dst = 4791;
  udp_src = 53;
}

headers-Fits : PacketFits headers
headers-Fits = omega arith

abbrev ring_bit : CustomRingMetadata
ring_bit = record { end_of_message = 1 }

abbrev pub packet : Metadata
packet = record {
  pkt_type = 0;
  flow_id = 700;
  ikernel_id = 5;
  var = 0x1122_3344_5566_0000_0000_0001_0a00_0001_0a00_0002_12b7_0035;
  ring_id = 0;
  ip_identification = 77;
  length = 512;
}

packet-Fits : Fits packet
packet-Fits = omega arith

packet_roundtrip_example :
    (packet_bits headers < 2 ^ packet_width) × (packet_of_bits (packet_bits headers) ≡ headers)
packet_roundtrip_example = packet_roundtrip headers headers-Fits

metadata_roundtrip_example :
    (metadata_bits packet < 2 ^ 250) × (metadata_of_bits (metadata_bits packet) ≡ packet)
metadata_roundtrip_example = metadata_roundtrip packet packet-Fits

verify_iff_example : (verify packet ≡ true) ↔ (
    (packet.ring_id ≡ 0 → is_left packet.var ≡ true)
    × (packet.ring_id ≢ 0 → is_left packet.var ≡ false))
verify_iff_example = verify_iff packet packet-Fits
