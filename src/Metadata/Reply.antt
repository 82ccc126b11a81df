-- ===== src/Metadata/Reply.antt =====
-- Replies exchange the two ends, and the check `verify` is about the tag of the union alone.
use nica.Base.{
  ℕ, ◌^◌, ◌≡◌, ◌≢◌, ◌↔◌, refl, ap, ◌∙◌, true, false, inl, inr, arith, Bool-cases, ◌==◌, ◌%◌, ==_iff,
}
use nica.Metadata.{
  PacketMetadata, packet_of_bits, packet_reply, packet_eq, Either, either_eq, is_left, get_packet,
  Metadata, metadata_eq, verify, reply,
}
use nica.Metadata.Encoding.{PacketFits, Fits, left_roundtrip, metadata_roundtrip}

-- Headers that were decoded fit.
packet_of_bits-Fits : (d : ℕ) → PacketFits (packet_of_bits d)
unfolding packet_of_bits
packet_of_bits-Fits d = omega arith

pub get_packet-Fits : (e : Either) → PacketFits (get_packet e)
unfolding get_packet
get_packet-Fits e = packet_of_bits-Fits _

packet_reply-Fits : (x : PacketMetadata) → PacketFits x → PacketFits (packet_reply x)
unfolding packet_reply
packet_reply-Fits x f = omega arith

-- A reply to a network packet is a network packet with the two ends exchanged and the given
-- length, and still fits; a reply to a custom-ring message keeps the ring's metadata.
pub reply_lem :
    (m : Metadata) (len : ℕ)
    → Fits m
    → Fits (reply m len)
      × ((reply m len).length ≡ len % 2 ^ 16)
      × (m.ring_id ≡ 0
          → (is_left (reply m len).var ≡ true)
            × (get_packet (reply m len).var ≡ packet_reply (get_packet m.var)))
      × (m.ring_id ≢ 0 → (reply m len).var ≡ m.var)
unfolding reply
reply_lem m len f =
    let x = packet_reply (get_packet m.var) in
    let (tag, back, bound) = left_roundtrip x (packet_reply-Fits _ (get_packet-Fits m.var)) in
    elim (Bool-cases (m.ring_id == 0)) [
      | inl zero ↦ rw zero (
        record {
          pkt_type = f.pkt_type;
          flow_id = f.flow_id;
          ikernel_id = f.ikernel_id;
          var = bound;
          ring_id = f.ring_id;
          ip_identification = f.ip_identification;
          length = omega arith;
        },
        refl,
        (λ e. (tag, back)),
        (λ n. absurd (n ((==_iff m.ring_id 0).0 zero))),
      )
      | inr other ↦ rw other (
        record {
          pkt_type = f.pkt_type;
          flow_id = f.flow_id;
          ikernel_id = f.ikernel_id;
          var = f.var;
          ring_id = f.ring_id;
          ip_identification = f.ip_identification;
          length = omega arith;
        },
        refl,
        (λ e. absurd (ground arith)),
        (λ n. refl),
      )
    ]

reply-ring : (m : Metadata) (len : ℕ) → (reply m len).ring_id ≡ m.ring_id
unfolding reply
reply-ring m len = refl

-- A reply to a reply goes where the first packet came from.
pub reply-reply :
    (m : Metadata) (len len' : ℕ)
    → Fits m
    → m.ring_id ≡ 0
    → get_packet (reply (reply m len) len').var ≡ get_packet m.var
unfolding packet_reply
reply-reply m len len' f zero =
    let first = reply_lem m len f in
    let second = reply_lem (reply m len) len' first.0 in
    (second.2 (reply-ring m len ∙ zero)).1 ∙ ap packet_reply (first.2 zero).1

metadata_eq_refl : (m : Metadata) → metadata_eq m m ≡ true
unfolding metadata_eq either_eq packet_eq
metadata_eq_refl m = ground arith

-- For metadata whose fields fit, `verify` holds exactly if the union's tag agrees with the ring:
-- packet headers for ring 0, the ring's bit for any other.
pub verify_iff :
    (m : Metadata)
    → Fits m
    → (verify m ≡ true)
      ↔ ((m.ring_id ≡ 0 → is_left m.var ≡ true) × (m.ring_id ≢ 0 → is_left m.var ≡ false))
unfolding verify
verify_iff m f =
    rw ((metadata_roundtrip m f).1, metadata_eq_refl)
      ((λ e. ((λ z. ground arith), (λ n. ground arith))), (λ h. ground (arith, h.0, h.1)))
