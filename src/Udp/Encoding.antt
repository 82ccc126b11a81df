-- ===== src/Udp/Encoding.antt =====
-- Headers survive their encoding, and every bit vector of their width is one of a header.
use nica.Base.{◌<◌, ◌^◌, ◌≡◌, ◌∙◌, ap, range, arith}
use nica.Udp.{
  EthHeader, IpHeader, UdpHeader, HeaderParser, eth_of_bits, eth_bits, ip_of_bits, ip_bits,
  udp_of_bits, udp_bits, header_of_bits, header_bits, header_width,
}

pub record EthFits (h : EthHeader) : Type 0 where
  pub dest : h.dest < 2 ^ 48
  pub source : h.source < 2 ^ 48
  pub proto : h.proto < 2 ^ 16

pub record IpFits (h : IpHeader) : Type 0 where
  pub version : h.version < 2 ^ 4
  pub ihl : h.ihl < 2 ^ 4
  pub tos : h.tos < 2 ^ 8
  pub tot_len : h.tot_len < 2 ^ 16
  pub id : h.id < 2 ^ 16
  pub frag_off : h.frag_off < 2 ^ 16
  pub ttl : h.ttl < 2 ^ 8
  pub protocol : h.protocol < 2 ^ 8
  pub check : h.check < 2 ^ 16
  pub saddr : h.saddr < 2 ^ 32
  pub daddr : h.daddr < 2 ^ 32

pub record UdpFits (h : UdpHeader) : Type 0 where
  pub source : h.source < 2 ^ 16
  pub dest : h.dest < 2 ^ 16
  pub length : h.length < 2 ^ 16
  pub checksum : h.checksum < 2 ^ 16

-- Every field fits its width.
pub record HeaderFits (h : HeaderParser) : Type 0 where
  pub eth : EthFits h.eth
  pub ip : IpFits h.ip
  pub udp : UdpFits h.udp

eth_roundtrip :
    (h : EthHeader) → EthFits h → (eth_bits h < 2 ^ 112) × (eth_of_bits (eth_bits h) ≡ h)
unfolding eth_bits eth_of_bits
eth_roundtrip h f =
    let d = eth_bits h in
    let dest : range d 111 64 ≡ h.dest = omega arith in
    let source : range d 63 16 ≡ h.source = omega arith in
    let proto : range d 15 0 ≡ h.proto = omega arith in
    (omega arith, λ i. record { dest = dest i; source = source i; proto = proto i })

ip_roundtrip : (h : IpHeader) → IpFits h → (ip_bits h < 2 ^ 160) × (ip_of_bits (ip_bits h) ≡ h)
unfolding ip_bits ip_of_bits
ip_roundtrip h f =
    let d = ip_bits h in
    let version : range d 159 156 ≡ h.version = omega arith in
    let ihl : range d 155 152 ≡ h.ihl = omega arith in
    let tos : range d 151 144 ≡ h.tos = omega arith in
    let tot_len : range d 143 128 ≡ h.tot_len = omega arith in
    let id : range d 127 112 ≡ h.id = omega arith in
    let frag_off : range d 111 96 ≡ h.frag_off = omega arith in
    let ttl : range d 95 88 ≡ h.ttl = omega arith in
    let protocol : range d 87 80 ≡ h.protocol = omega arith in
    let check : range d 79 64 ≡ h.check = omega arith in
    let saddr : range d 63 32 ≡ h.saddr = omega arith in
    let daddr : range d 31 0 ≡ h.daddr = omega arith in
    (
      omega arith,
      λ i. record {
        version = version i;
        ihl = ihl i;
        tos = tos i;
        tot_len = tot_len i;
        id = id i;
        frag_off = frag_off i;
        ttl = ttl i;
        protocol = protocol i;
        check = check i;
        saddr = saddr i;
        daddr = daddr i;
      },
    )

udp_roundtrip : (h : UdpHeader) → UdpFits h → (udp_bits h < 2 ^ 64) × (udp_of_bits (udp_bits h) ≡ h)
unfolding udp_bits udp_of_bits
udp_roundtrip h f =
    let d = udp_bits h in
    let source : range d 63 48 ≡ h.source = omega arith in
    let dest : range d 47 32 ≡ h.dest = omega arith in
    let length : range d 31 16 ≡ h.length = omega arith in
    let checksum : range d 15 0 ≡ h.checksum = omega arith in
    (
      omega arith,
      λ i. record { source = source i; dest = dest i; length = length i; checksum = checksum i },
    )

-- Headers whose fields fit their widths survive encoding into 336 bits and decoding.
pub header_roundtrip :
    (h : HeaderParser)
    → HeaderFits h
    → (header_bits h < 2 ^ header_width) × (header_of_bits (header_bits h) ≡ h)
unfolding header_bits header_of_bits
header_roundtrip h f =
    let (e_lt, e_eq) = eth_roundtrip h.eth f.eth in
    let (i_lt, i_eq) = ip_roundtrip h.ip f.ip in
    let (u_lt, u_eq) = udp_roundtrip h.udp f.udp in
    let d = header_bits h in
    let eth : range d 335 224 ≡ eth_bits h.eth = omega arith in
    let ip : range d 223 64 ≡ ip_bits h.ip = omega arith in
    let udp : range d 63 0 ≡ udp_bits h.udp = omega arith in
    (
      omega arith,
      λ i. record {
        eth = (ap eth_of_bits eth ∙ e_eq) i;
        ip = (ap ip_of_bits ip ∙ i_eq) i;
        udp = (ap udp_of_bits udp ∙ u_eq) i;
      },
    )
