-- ===== src/Udp.antt =====
-- nica/hls/udp.h and udp.cpp: the Ethernet, IP and UDP headers, their bit vectors, and the header
-- that the builder makes from packet metadata. A stream of headers carries their bits.
pub mod Bytes
pub mod Encoding
mod Tests
pub mod Dropper
pub mod Lengths
pub mod Steering
pub mod Split
pub mod Builder
pub mod Crossbar
pub mod Checksum
use nica.Base.{ℕ, ◌+◌, ◌-◌, ◌*◌, ◌/◌, ◌%◌, ◌^◌, Bool, true, false, leb, range, cat}
use nica.Metadata.{Metadata, PacketMetadata, get_packet}

pub record EthHeader : Type 0 where
  pub dest : ℕ
  pub source : ℕ
  pub proto : ℕ

pub record IpHeader : Type 0 where
  pub version : ℕ
  pub ihl : ℕ
  pub tos : ℕ
  pub tot_len : ℕ
  pub id : ℕ
  pub frag_off : ℕ
  pub ttl : ℕ
  pub protocol : ℕ
  pub check : ℕ
  pub saddr : ℕ
  pub daddr : ℕ

pub record UdpHeader : Type 0 where
  pub source : ℕ
  pub dest : ℕ
  pub length : ℕ
  pub checksum : ℕ

abbrev pub eth_width : ℕ
eth_width = 112

abbrev pub ip_width : ℕ
ip_width = 160

abbrev pub udp_width : ℕ
udp_width = 64

abbrev pub header_width : ℕ
header_width = eth_width + ip_width + udp_width

unfoldable pub eth_of_bits : ℕ → EthHeader
eth_of_bits d = record { dest = range d 111 64; source = range d 63 16; proto = range d 15 0 }

unfoldable pub eth_bits : EthHeader → ℕ
eth_bits h = cat (cat h.dest 48 h.source) 16 h.proto

unfoldable pub ip_of_bits : ℕ → IpHeader
ip_of_bits d = record {
  version = range d 159 156;
  ihl = range d 155 152;
  tos = range d 151 144;
  tot_len = range d 143 128;
  id = range d 127 112;
  frag_off = range d 111 96;
  ttl = range d 95 88;
  protocol = range d 87 80;
  check = range d 79 64;
  saddr = range d 63 32;
  daddr = range d 31 0;
}

-- The upper half of the IP header, and the whole.
unfoldable pub ip_bits : IpHeader → ℕ
ip_bits h =
    let first =
      cat (cat (cat (cat (cat h.version 4 h.ihl) 8 h.tos) 16 h.tot_len) 16 h.id) 16 h.frag_off in
    cat (cat (cat (cat (cat first 8 h.ttl) 8 h.protocol) 16 h.check) 32 h.saddr) 32 h.daddr

unfoldable pub udp_of_bits : ℕ → UdpHeader
udp_of_bits d = record {
  source = range d 63 48;
  dest = range d 47 32;
  length = range d 31 16;
  checksum = range d 15 0;
}

unfoldable pub udp_bits : UdpHeader → ℕ
udp_bits h = cat (cat (cat h.source 16 h.dest) 16 h.length) 16 h.checksum

-- `udp_header::empty_packet`
unfoldable pub empty_packet : UdpHeader → Bool
empty_packet h = leb h.length (udp_width / 8)

pub record HeaderParser : Type 0 where
  pub eth : EthHeader
  pub ip : IpHeader
  pub udp : UdpHeader

-- `header_parser(ap_uint<width>)`, and `header_parser(const header_buffer&)` of the bits `hdr`.
unfoldable pub header_of_bits : ℕ → HeaderParser
unfolding eth_of_bits ip_of_bits udp_of_bits
header_of_bits d = record {
  eth = eth_of_bits (range d (header_width - 1) (160 + 64));
  ip = ip_of_bits (range d (160 + 64 - 1) 64);
  udp = udp_of_bits (range d 63 0);
}

-- `header_parser::operator ap_uint<width>`
unfoldable pub header_bits : HeaderParser → ℕ
unfolding eth_bits ip_bits udp_bits
header_bits h = cat (cat (eth_bits h.eth) ip_width (ip_bits h.ip)) udp_width (udp_bits h.udp)

-- `header_buffer`
pub record HeaderBuffer : Type 0 where
  pub hdr : ℕ
  pub pkt_id : ℕ
  pub user : ℕ
  pub drop : Bool
  pub generated : Bool

-- The macro `HEADER_BUFFER`, which leaves `drop` as it was, false here.
unfoldable pub header_buffer : ℕ → ℕ → ℕ → Bool → HeaderBuffer
header_buffer hdr pkt_id user generated = record {
  hdr = hdr;
  pkt_id = pkt_id;
  user = user;
  drop = false;
  generated = generated;
}

-- `header_parser::operator header_buffer`
unfoldable pub to_header_buffer : HeaderParser → HeaderBuffer
unfolding header_bits header_buffer
to_header_buffer h = header_buffer (header_bits h) 0 0 true

-- `checksum_t`
pub record Checksums : Type 0 where
  pub ip_checksum : ℕ
  pub udp_checksum : ℕ

unfoldable pub checksum_from_packet : HeaderParser → Checksums
checksum_from_packet h = record { ip_checksum = h.ip.check; udp_checksum = h.udp.checksum }

-- `header_parser::reply`, which stores the same address in both Ethernet fields.
unfoldable pub reply : HeaderParser → HeaderParser
reply h = record {
  eth = record (h.eth) { source = h.eth.dest; dest = h.eth.dest };
  ip = record (h.ip) { saddr = h.ip.daddr; daddr = h.ip.saddr };
  udp = record (h.udp) { source = h.udp.dest; dest = h.udp.source };
}

-- `ETH_P_IP` and `IPPROTO_UDP` of the system's headers.
abbrev pub eth_p_ip : ℕ
eth_p_ip = 2048

abbrev pub ipproto_udp : ℕ
ipproto_udp = 17

-- `header_to_mlx::metadata_to_header`: the fields that it does not set are those of
-- `header_parser(0)`.
unfoldable pub metadata_to_header : Metadata → HeaderParser
metadata_to_header m =
    let pkt = get_packet m.var in
    record {
      eth = record { dest = pkt.eth_dst; source = pkt.eth_src; proto = eth_p_ip };
      ip = record {
        version = 4;
        ihl = ip_width / 8 / 4;
        tos = 0;
        tot_len = ((udp_width + ip_width) / 8 + m.length) % 2 ^ 16;
        id = m.ip_identification;
        frag_off = 0;
        ttl = 64;
        protocol = ipproto_udp;
        check = 0;
        saddr = pkt.ip_src;
        daddr = pkt.ip_dst;
      };
      udp = record {
        source = pkt.udp_src;
        dest = pkt.udp_dst;
        length = (udp_width / 8 + m.length) % 2 ^ 16;
        checksum = 0;
      };
    }
