-- ===== src/CustomRing/Messages.antt =====
-- The messages to a ring: their lengths, headers and sequence numbers.
use nica.Base.{
  ℕ, ◌+◌, ◌-◌, ◌%◌, ◌^◌, ◌≤◌, ◌<◌, ◌≡◌, refl, ap, ◌∙◌, Bool, true, false, not, ◌==◌, ◌&&◌, List, [],
  ◌∷◌, ◌++◌, map, length, range, if◌then◌else◌, inl, inr, Bool-cases, Option-cases, length-append,
  arith,
}
use mathlib.Core.List.{append_assoc}
use nica.Stream.{read, read-some}
use nica.Metadata.{Metadata, empty_packet}
use nica.CustomRing.{
  RingContext, RingLibrary, CustomRing, pad_count, gen_bth, next_packet, ring_message, take_packet,
  take_update, ring_packets, blocked, ring_hdrs,
}

pad_count_lem : (n : ℕ) → (pad_count n < 4) × ((n + pad_count n) % 4 ≡ 0)
unfolding pad_count
pad_count_lem n = (omega arith, omega arith)

-- For every length up to 65516 and every context that fits its widths, the transport header holds
-- the ring's queue and sequence number and the padding, and the length that is left is the next
-- multiple of 4.
pub gen_bth_lem :
    (keep_bytes : ℕ → ℕ) (c : RingContext) (n : ℕ)
    → n ≤ 65516
    → c.dest_qpn < 2 ^ 24
    → c.psn < 2 ^ 24
    → let (flit, len) = gen_bth keep_bytes c n in
      (len % 4 ≡ 0)
      × (n ≤ len)
      × (len < n + 4)
      × (range flit.bits 245 244 ≡ len - n)
      × (range flit.bits 215 192 ≡ c.dest_qpn)
      × (range flit.bits 183 160 ≡ c.psn)
unfolding gen_bth
gen_bth_lem keep_bytes c n h hq hp =
    let (small, multiple) = pad_count_lem n in
    (omega arith, omega arith, omega arith, omega arith, omega arith, omega arith)

module _ (lib : RingLibrary) (keep_bytes : ℕ → ℕ) where
  abbrev pub psn_of : CustomRing lib → ℕ → ℕ
  psn_of s i = (lib.manager.at s.rings.contexts i).psn

  -- Packets taken one after the other.
  abbrev pub take_packets : CustomRing lib → List Metadata → CustomRing lib
  take_packets s [] = s
  take_packets s (m ∷ ms) = take_packets (take_packet lib keep_bytes s m) ms

  -- The packets for the ring whose context has the number `i`.
  abbrev pub messages : ℕ → List Metadata → ℕ
  messages i [] = 0
  messages i (m ∷ ms) =
      (if not (m.ring_id == 0) && m.ring_id - 1 == i then 1 else 0) + messages i ms

  psn_of-take_packet :
      (s : CustomRing lib) (m : Metadata) (i : ℕ)
      → psn_of s i < 2 ^ 24
      → psn_of (take_packet lib keep_bytes s m) i ≡ (psn_of s i + messages i (m ∷ [])) % 2 ^ 24
  unfolding take_packet ring_message next_packet
  psn_of-take_packet s m i h = elim (Bool-cases (m.ring_id == 0)) [
    | inl z ↦ rw (z) (omega arith)
    | inr z ↦
        let c = lib.manager.at s.rings.contexts (m.ring_id - 1) in
        let law =
          lib.manager.at-assign s.rings.contexts (m.ring_id - 1) i
            (record c { psn = (c.psn + 1) % 2 ^ 24 }) in
        rw (take_packet, z)
          (ap (λ (x : RingContext). x.psn) law ∙ elim (Bool-cases (m.ring_id - 1 == i)) [
            | inl e ↦ let same : m.ring_id - 1 ≡ i = ground arith in rw (e, same) (omega arith)
            | inr e ↦ rw e (omega arith)
          ])
  ]

  -- Whatever packets are taken, the sequence number of every ring has moved by the number of the
  -- messages for that ring among them, modulo 2 ^ 24, and by nothing else.
  pub psn_of-take_packets :
      (ms : List Metadata) (s : CustomRing lib) (i : ℕ)
      → psn_of s i < 2 ^ 24
      → psn_of (take_packets s ms) i ≡ (psn_of s i + messages i ms) % 2 ^ 24
  psn_of-take_packets [] s i h = omega arith
  psn_of-take_packets (m ∷ ms) s i h =
      let one = psn_of-take_packet s m i h in
      let rest = psn_of-take_packets ms (take_packet lib keep_bytes s m) i (omega (arith, one)) in
      rest ∙ rw one (omega arith)

  abbrev pub is_message : Metadata → Bool
  is_message m = not (m.ring_id == 0)

  abbrev pub count_messages : List Metadata → ℕ
  count_messages [] = 0
  count_messages (m ∷ ms) = (if m.ring_id == 0 then 0 else 1) + count_messages ms

  -- What the streams out of `ring_hdrs` hold or are to get, for the rest of the input.
  abbrev pub Balanced : CustomRing lib → CustomRing lib → Type 0
  Balanced t s =
      (t.enable_stream.items ++ map is_message t.hdr_in.items
        ≡ s.enable_stream.items ++ map is_message s.hdr_in.items)
      × (t.empty_packets.items ++ map empty_packet t.hdr_in.items
          ≡ s.empty_packets.items ++ map empty_packet s.hdr_in.items)
      × (length t.hdr_out.items + length t.hdr_in.items
          ≡ length s.hdr_out.items + length s.hdr_in.items)
      × (length t.bth.items + count_messages t.hdr_in.items
          ≡ length s.bth.items + count_messages s.hdr_in.items)
      × (length t.icrc.items + count_messages t.hdr_in.items
          ≡ length s.icrc.items + count_messages s.hdr_in.items)

  Taken : CustomRing lib → CustomRing lib → Metadata → ℕ → Type 0
  Taken t s m n =
      (t.hdr_in ≡ s.hdr_in)
      × (t.enable_stream.items ≡ s.enable_stream.items ++ not (m.ring_id == 0) ∷ [])
      × (t.empty_packets.items ≡ s.empty_packets.items ++ empty_packet m ∷ [])
      × (length t.hdr_out.items ≡ length s.hdr_out.items + 1)
      × (length t.bth.items ≡ length s.bth.items + n)
      × (length t.icrc.items ≡ length s.icrc.items + n)

  take_packet-Taken :
      (s : CustomRing lib) (m : Metadata)
      → Taken (take_packet lib keep_bytes s m) s m (if m.ring_id == 0 then 0 else 1)
  unfolding take_packet ring_message Taken
  take_packet-Taken s m = go (m.ring_id == 0) refl
    where
      go :
          (b : Bool)
          → (m.ring_id == 0) ≡ b
          → Taken (take_packet lib keep_bytes s m) s m (if b then 0 else 1)
      go true z =
          rw (take_packet, z)
            (refl, refl, refl, length-append s.hdr_out.items (m ∷ []), omega arith, omega arith)
      go false z =
          rw (take_packet, z)
            (
              refl,
              refl,
              refl,
              length-append s.hdr_out.items _,
              length-append s.bth.items _,
              length-append s.icrc.items (0 ∷ []),
            )

  Balanced-ring_packets : (s : CustomRing lib) → Balanced (ring_packets lib keep_bytes s) s
  unfolding ring_packets Taken
  Balanced-ring_packets s = elim (Bool-cases (blocked lib s)) [
    | inl b ↦ rw b (refl, refl, refl, refl, refl)
    | inr b ↦ elim (Option-cases (read s.hdr_in)) [
      | inl f ↦ rw (b, f) (refl, refl, refl, refl, refl)
      | inr ((m, ms), f) ↦
          let (hs, enable, empty, out, bths, icrcs) =
            take_packet-Taken (record s { hdr_in = ms }) m in
          rw (ring_packets, b, f, hs, (read-some s.hdr_in f).0)
            (
              rw enable (
                  append_assoc s.enable_stream.items (is_message m ∷ []) (map is_message ms.items)),
              rw empty (
                  append_assoc s.empty_packets.items (empty_packet m ∷ [])
                    (map empty_packet ms.items)),
              omega (arith, out),
              omega (arith, bths),
              omega (arith, icrcs),
            )
    ]
  ]

  Balanced-take_update : (s : CustomRing lib) → Balanced (take_update lib s) s
  unfolding take_update
  Balanced-take_update s = elim (Option-cases (read s.metadata_updates)) [
    | inl f ↦ rw (take_update, f) (refl, refl, refl, refl, refl)
    | inr ((m, ms), f) ↦ rw (take_update, f) (refl, refl, refl, refl, refl)
  ]

  Balanced-trans : (u t s : CustomRing lib) → Balanced u t → Balanced t s → Balanced u s
  Balanced-trans u t s (a, b, c, d, e) (a', b', c', d', e') =
      (a ∙ a', b ∙ b', c ∙ c', d ∙ d', e ∙ e')

  -- Every call of the element keeps in balance, the rest of the input included: one mark of a ring
  -- message and one of an empty packet for each packet, in order, one header out for each packet,
  -- and one transport header and one checksum for each message to a ring.
  pub ring_hdrs-Balanced : (s : CustomRing lib) → Balanced (ring_hdrs lib keep_bytes s) s
  unfolding ring_hdrs
  ring_hdrs-Balanced s =
      let s1 = take_update lib s in
      let (contexts, served) = lib.manager.update s1.rings.contexts in
      let s2 = record s1 { rings = record (s1.rings) { contexts = contexts } } in
      elim (Bool-cases served) [
        | inl e ↦ rw (ring_hdrs, e) (Balanced-take_update s)
        | inr e ↦
            rw (ring_hdrs, e)
              (Balanced-trans (ring_packets lib keep_bytes s2) s2 s (Balanced-ring_packets s2)
                (Balanced-take_update s))
      ]
