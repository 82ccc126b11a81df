-- ===== src/Nica/Headers.antt =====
-- Metadata survive being built into a header and parsed again.
use nica.Base.{
  ◌+◌, ◌%◌, ◌^◌, ◌≤◌, ◌<◌, ◌≡◌, refl, ap, ◌∙◌, List, [], ◌∷◌, ◌++◌, Bool-cases, Option-cases, inl,
  inr, length, arith,
}
use mathlib.Core.List.{append_assoc}
use nica.Stream.{full, read, read-some}
use nica.Metadata.{Metadata, get_packet, packet_of_bits, left}
use nica.FlowTable.{Result}
use nica.Udp.{HeaderBuffer, HeaderParser, header_of_bits, to_header_buffer, metadata_to_header}
use nica.Udp.Encoding.{HeaderFits, header_roundtrip}
use nica.Nica.{header_to_metadata, SplitPorts, split_udp_hdr_stream, CounterPorts, count}

HeaderFits-metadata_to_header :
    (m : Metadata) → m.ip_identification < 2 ^ 16 → HeaderFits (metadata_to_header m)
unfolding metadata_to_header get_packet packet_of_bits
HeaderFits-metadata_to_header m h = record {
  eth = record { dest = omega arith; source = omega arith; proto = omega arith };
  ip = record {
    version = omega arith;
    ihl = omega arith;
    tos = omega arith;
    tot_len = omega arith;
    id = h;
    frag_off = omega arith;
    ttl = omega arith;
    protocol = omega arith;
    check = omega arith;
    saddr = omega arith;
    daddr = omega arith;
  };
  udp = record {
    source = omega arith;
    dest = omega arith;
    length = omega arith;
    checksum = omega arith;
  };
}

-- For metadata of at most 65507 bytes, the header that the builder makes fits its 336 bits, and
-- parsing it gives metadata with the same addresses and ports, identification and length, for the
-- ikernel and the flow that the flow table names.
pub header_to_metadata-metadata_to_header :
    (m : Metadata) (r : Result)
    → m.ip_identification < 2 ^ 16
    → m.length ≤ 65507
    → let buf = to_header_buffer (metadata_to_header m) in
      let m' = header_to_metadata (header_of_bits buf.hdr) r in
      (buf.hdr < 2 ^ 336)
      × (m'.var ≡ left (get_packet m.var))
      × (m'.ip_identification ≡ m.ip_identification)
      × (m'.length ≡ m.length)
      × (m'.ikernel_id ≡ r.v.ikernel_id)
      × (m'.flow_id ≡ r.flow_id)
unfolding header_to_metadata metadata_to_header to_header_buffer
header_to_metadata-metadata_to_header m r h n =
    let (small, same) =
      header_roundtrip (metadata_to_header m) (HeaderFits-metadata_to_header m h) in
    let read_back = ap (λ (x : HeaderParser). header_to_metadata x r) same in
    (
      small,
      ap (λ (x : Metadata). x.var) read_back ∙ built,
      ap (λ (x : Metadata). x.ip_identification) read_back ∙ built_id,
      ap (λ (x : Metadata). x.length) read_back ∙ built_length,
      ap (λ (x : Metadata). x.ikernel_id) read_back,
      ap (λ (x : Metadata). x.flow_id) read_back,
    )
  where
    built : (header_to_metadata (metadata_to_header m) r).var ≡ left (get_packet m.var)
    built = refl

    built_id : (header_to_metadata (metadata_to_header m) r).ip_identification ≡ m.ip_identification
    built_id = refl

    built_length : (header_to_metadata (metadata_to_header m) r).length ≡ m.length
    built_length = omega arith

abbrev pub metadata_of : List HeaderBuffer → List Result → List Metadata
metadata_of [] rs = []
metadata_of (h ∷ hs) [] = []
metadata_of (h ∷ hs) (r ∷ rs) = header_to_metadata (header_of_bits h.hdr) r ∷ metadata_of hs rs

-- Every call keeps the metadata out together with those of the remaining pairs of a header and a
-- decision: the n-th header meets the n-th decision.
pub split_udp_hdr_stream-metadata_of :
    (s : SplitPorts)
    → let t = split_udp_hdr_stream s in
      t.metadata_out.items ++ metadata_of t.hdr_in.items t.ft_results.items
      ≡ s.metadata_out.items ++ metadata_of s.hdr_in.items s.ft_results.items
unfolding split_udp_hdr_stream
split_udp_hdr_stream-metadata_of s = elim (Bool-cases (full s.metadata_out)) [
  | inl e ↦ rw e refl
  | inr e ↦ elim (Option-cases (read s.hdr_in)) [
    | inl f ↦ rw (e, f) refl
    | inr ((h, hs), f) ↦ elim (Option-cases (read s.ft_results)) [
      | inl g ↦ rw (e, f, g) refl
      | inr ((r, rs), g) ↦
          rw (split_udp_hdr_stream, e, f, g, (read-some s.hdr_in f).0, (read-some s.ft_results g).0)
            (append_assoc s.metadata_out.items (header_to_metadata (header_of_bits h.hdr) r ∷ [])
              (metadata_of hs.items rs.items))
    ]
  ]
]

-- Every call moves packets on unchanged and in order, counts each once modulo 2 ^ 32, and publishes
-- the count from before the call.
pub count_lem :
    (s : CounterPorts)
    → let t = count s in
      (t.header_out.items ++ t.metadata_in.items ≡ s.header_out.items ++ s.metadata_in.items)
      × ((t.packets + length t.metadata_in.items) % 2 ^ 32
          ≡ (s.packets + length s.metadata_in.items) % 2 ^ 32)
      × (t.published ≡ s.packets)
unfolding count
count_lem s = elim (Bool-cases (full s.header_out)) [
  | inl e ↦ rw e (refl, refl, refl)
  | inr e ↦ elim (Option-cases (read s.metadata_in)) [
    | inl f ↦ rw (count, e, f) (refl, refl, refl)
    | inr ((m, ms), f) ↦
        rw (count, e, f, (read-some s.metadata_in f).0)
          (append_assoc s.header_out.items (m ∷ []) ms.items, omega arith, refl)
  ]
]
