-- ===== src/Metadata.antt =====
-- The packet metadata of nica/hls/ikernel.hpp and the tagged union of nica/hls/either.hpp: the
-- structs, their encodings as bit vectors, replies, and the check `verify`.
pub mod Encoding
pub mod Reply
pub mod Tests
use Prim.Native.Nat.{max}
use nica.Base.{
  ℕ, ◌+◌, ◌-◌, ◌*◌, ◌/◌, ◌%◌, ◌^◌, ◌≡◌, Bool, true, false, ◌&&◌, not, ◌==◌, ltb, if◌then◌else◌,
  range, cat,
}

pub record PacketMetadata : Type 0 where
  pub eth_dst : ℕ
  pub eth_src : ℕ
  pub ip_dst : ℕ
  pub ip_src : ℕ
  pub udp_dst : ℕ
  pub udp_src : ℕ

abbrev pub packet_width : ℕ
packet_width = 192

-- `packet_metadata(ap_uint<width>)`
unfoldable pub packet_of_bits : ℕ → PacketMetadata
packet_of_bits d = record {
  eth_dst = range d 191 144;
  eth_src = range d 143 96;
  ip_dst = range d 95 64;
  ip_src = range d 63 32;
  udp_dst = range d 31 16;
  udp_src = range d 15 0;
}

-- `operator ap_uint<width>()`
unfoldable pub packet_bits : PacketMetadata → ℕ
packet_bits m =
    cat (cat (cat (cat (cat m.eth_dst 48 m.eth_src) 32 m.ip_dst) 32 m.ip_src) 16 m.udp_dst) 16
      m.udp_src

unfoldable pub packet_reply : PacketMetadata → PacketMetadata
packet_reply m = record {
  eth_dst = m.eth_src;
  eth_src = m.eth_dst;
  ip_dst = m.ip_src;
  ip_src = m.ip_dst;
  udp_dst = m.udp_src;
  udp_src = m.udp_dst;
}

unfoldable pub packet_eq : PacketMetadata → PacketMetadata → Bool
packet_eq a b =
    a.eth_dst == b.eth_dst
    && (a.eth_src == b.eth_src
        && (a.ip_dst == b.ip_dst
            && (a.ip_src == b.ip_src && (a.udp_dst == b.udp_dst && a.udp_src == b.udp_src))))

pub record CustomRingMetadata : Type 0 where
  pub end_of_message : ℕ

abbrev pub ring_width : ℕ
ring_width = 1

unfoldable pub ring_of_bits : ℕ → CustomRingMetadata
ring_of_bits d = record { end_of_message = range d 0 0 }

unfoldable pub ring_bits : CustomRingMetadata → ℕ
ring_bits m = m.end_of_message

-- `either<packet_metadata, custom_ring_metadata>`: the member `data`.
abbrev pub either_width : ℕ
either_width = 1 + max packet_width ring_width

abbrev pub Either : Type 0
Either = ℕ

unfoldable pub is_left : Either → Bool
is_left e = range e (either_width - 1) (either_width - 1) == 0

-- `get<T>()`: the low bits, `T::width` of them.
unfoldable pub get_packet : Either → PacketMetadata
get_packet e = packet_of_bits (range e (packet_width - 1) 0)

unfoldable pub get_ring : Either → CustomRingMetadata
get_ring e = ring_of_bits (range e (ring_width - 1) 0)

unfoldable pub left : PacketMetadata → Either
left x = cat 0 packet_width (packet_bits x)

-- The tag is set after the value: `data(width - 1, width - 1) = 1`.
unfoldable pub right : CustomRingMetadata → Either
right x =
    let e = cat 0 ring_width (ring_bits x) in 2 ^ (either_width - 1) + e % 2 ^ (either_width - 1)

abbrev pub differ : Bool → Bool → Bool
differ true b = not b
differ false b = b

unfoldable pub either_eq : Either → Either → Bool
either_eq a b =
    if differ (is_left a) (is_left b)
    then false
    else if is_left a
    then packet_eq (get_packet a) (get_packet b)
    else (get_ring a).end_of_message == (get_ring b).end_of_message

pub record Metadata : Type 0 where
  pub pkt_type : ℕ
  pub flow_id : ℕ
  pub ikernel_id : ℕ
  pub var : Either
  pub ring_id : ℕ
  pub ip_identification : ℕ
  pub length : ℕ

-- The widths of `ring_id_t`, `ikernel_id_t`, `flow_id_t` and `pkt_type_t`
-- (nica/hls/ikernel-types.hpp).
abbrev pub ring_id_width : ℕ
ring_id_width = 7

abbrev pub ikernel_id_width : ℕ
ikernel_id_width = 6

abbrev pub flow_id_width : ℕ
flow_id_width = 11

abbrev pub pkt_type_width : ℕ
pkt_type_width = 1

-- `metadata(ap_uint<width>)`
unfoldable pub metadata_of_bits : ℕ → Metadata
metadata_of_bits d =
    let w = either_width + ring_id_width in
    record {
      pkt_type =
          range d (pkt_type_width + flow_id_width + ikernel_id_width + w + 31)
            (flow_id_width + ikernel_id_width + w + 32);
      flow_id = range d (flow_id_width + ikernel_id_width + w + 31) (ikernel_id_width + w + 32);
      ikernel_id = range d (ikernel_id_width + w + 31) (w + 32);
      var = range d (w + 31) (32 + ring_id_width);
      ring_id = range d (32 + ring_id_width - 1) 32;
      ip_identification = range d 31 16;
      length = range d 15 0;
    }

-- `operator ap_uint<width>()`
unfoldable pub metadata_bits : Metadata → ℕ
metadata_bits m =
    cat
      (cat
        (cat
          (cat (cat (cat m.pkt_type flow_id_width m.flow_id) ikernel_id_width m.ikernel_id)
            either_width m.var)
          ring_id_width m.ring_id)
        16 m.ip_identification)
      16 m.length

-- `operator ==`, which leaves `ip_identification` out.
unfoldable pub metadata_eq : Metadata → Metadata → Bool
metadata_eq a b =
    a.ring_id == b.ring_id
    && (either_eq a.var b.var
        && (a.length == b.length
            && (a.ikernel_id == b.ikernel_id
                && (a.flow_id == b.flow_id && a.pkt_type == b.pkt_type))))

-- The assertions of `verify`.
unfoldable pub verify : Metadata → Bool
verify m =
    (if m.ring_id == 0 then is_left m.var else not (is_left m.var))
    && metadata_eq m (metadata_of_bits (metadata_bits m))

-- `reply`, whose `short` length is stored in 16 bits.
unfoldable pub reply : Metadata → ℕ → Metadata
reply m length =
    let var = if m.ring_id == 0 then left (packet_reply (get_packet m.var)) else m.var in
    record m { var = var; length = length % 2 ^ 16 }

unfoldable pub empty_packet : Metadata → Bool
empty_packet m = m.length == 0

unfoldable pub set_packet_metadata : Metadata → PacketMetadata → Metadata
set_packet_metadata m x = record m { var = left x }

unfoldable pub set_ring_metadata : Metadata → CustomRingMetadata → Metadata
set_ring_metadata m x = record m { var = right x }
