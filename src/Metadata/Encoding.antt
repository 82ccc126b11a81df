-- ===== src/Metadata/Encoding.antt =====
-- Encoding and decoding give back what went in.
use nica.Base.{◌+◌, ◌<◌, ◌^◌, ◌≡◌, range, ap, ◌∙◌, ◌*◌, true, false, arith}
use nica.Metadata.{
  PacketMetadata, packet_of_bits, packet_bits, packet_width, CustomRingMetadata, ring_bits,
  ring_of_bits, either_width, is_left, get_packet, get_ring, left, right, Metadata,
  metadata_of_bits, metadata_bits,
}

-- Every field fits its width.
pub record PacketFits (m : PacketMetadata) : Type 0 where
  pub eth_dst : m.eth_dst < 2 ^ 48
  pub eth_src : m.eth_src < 2 ^ 48
  pub ip_dst : m.ip_dst < 2 ^ 32
  pub ip_src : m.ip_src < 2 ^ 32
  pub udp_dst : m.udp_dst < 2 ^ 16
  pub udp_src : m.udp_src < 2 ^ 16

pub record Fits (m : Metadata) : Type 0 where
  pub pkt_type : m.pkt_type < 2 ^ 1
  pub flow_id : m.flow_id < 2 ^ 11
  pub ikernel_id : m.ikernel_id < 2 ^ 6
  pub var : m.var < 2 ^ 193
  pub ring_id : m.ring_id < 2 ^ 7
  pub ip_identification : m.ip_identification < 2 ^ 16
  pub length : m.length < 2 ^ 16

-- Packet headers that fit their widths survive encoding into 192 bits and decoding.
pub packet_roundtrip :
    (m : PacketMetadata)
    → PacketFits m
    → (packet_bits m < 2 ^ packet_width) × (packet_of_bits (packet_bits m) ≡ m)
unfolding packet_bits packet_of_bits
packet_roundtrip m f =
    let d = packet_bits m in
    let eth_dst : range d 191 144 ≡ m.eth_dst = omega arith in
    let eth_src : range d 143 96 ≡ m.eth_src = omega arith in
    let ip_dst : range d 95 64 ≡ m.ip_dst = omega arith in
    let ip_src : range d 63 32 ≡ m.ip_src = omega arith in
    let udp_dst : range d 31 16 ≡ m.udp_dst = omega arith in
    let udp_src : range d 15 0 ≡ m.udp_src = omega arith in
    (
      omega arith,
      λ i. record {
        eth_dst = eth_dst i;
        eth_src = eth_src i;
        ip_dst = ip_dst i;
        ip_src = ip_src i;
        udp_dst = udp_dst i;
        udp_src = udp_src i;
      },
    )

-- Metadata whose fields fit their widths survives encoding into 250 bits and decoding.
pub metadata_roundtrip :
    (m : Metadata) → Fits m → (metadata_bits m < 2 ^ 250) × (metadata_of_bits (metadata_bits m) ≡ m)
unfolding metadata_bits metadata_of_bits
metadata_roundtrip m f =
    let d = metadata_bits m in
    let pkt_type : range d 249 249 ≡ m.pkt_type = omega arith in
    let flow_id : range d 248 238 ≡ m.flow_id = omega arith in
    let ikernel_id : range d 237 232 ≡ m.ikernel_id = omega arith in
    let var : range d 231 39 ≡ m.var = omega arith in
    let ring_id : range d 38 32 ≡ m.ring_id = omega arith in
    let ip_identification : range d 31 16 ≡ m.ip_identification = omega arith in
    let length : range d 15 0 ≡ m.length = omega arith in
    (
      omega arith,
      λ i. record {
        pkt_type = pkt_type i;
        flow_id = flow_id i;
        ikernel_id = ikernel_id i;
        var = var i;
        ring_id = ring_id i;
        ip_identification = ip_identification i;
        length = length i;
      },
    )

-- A union made from packet headers that fit is a left one of the union's width, and gives the
-- headers back.
pub left_roundtrip :
    (x : PacketMetadata)
    → PacketFits x
    → (is_left (left x) ≡ true) × (get_packet (left x) ≡ x) × (left x < 2 ^ either_width)
unfolding left is_left get_packet
left_roundtrip x f =
    let (bound, back) = packet_roundtrip x f in
    let low : range (0 * 2 ^ 192 + packet_bits x) 191 0 ≡ packet_bits x = omega arith in
    (ground (arith, bound), ap packet_of_bits low ∙ back, omega arith)

-- A union made from the ring's bit is a right one of the union's width, and gives the bit back.
pub right_roundtrip :
    (x : CustomRingMetadata)
    → x.end_of_message < 2
    → (is_left (right x) ≡ false) × (get_ring (right x) ≡ x) × (right x < 2 ^ either_width)
unfolding right is_left get_ring ring_bits ring_of_bits
right_roundtrip x f =
    let bit : range (range (right x) 0 0) 0 0 ≡ x.end_of_message = omega arith in
    (ground arith, (λ i. record { end_of_message = bit i }), omega arith)
