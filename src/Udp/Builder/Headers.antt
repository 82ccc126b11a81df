-- ===== src/Udp/Builder/Headers.antt =====
-- The headers that go out, for each packet.
use nica.Base.{
  ℕ, zero, suc, ◌+◌, ◌*◌, ◌^◌, ◌<◌, ◌≡◌, Bool, true, false, List, [], ◌∷◌, ◌++◌, map, if◌then◌else◌,
  refl, ◌∙◌, inl, inr, Bool-cases, Option-cases, arith,
}
use mathlib.Core.List.{append_assoc}
use nica.Stream.{Stream, read, write, read-some}
use nica.Flit.{Flit}
use nica.Metadata.{Metadata}
use nica.Udp.{metadata_to_header, header_bits, to_header_buffer}
use nica.Udp.Builder.{
  Mode, idle, second, HeaderToMlx, is_udp, is_empty, first_word, left_over, send_first, second_word,
  blocked, header_in, hdr_to_mlx, run,
}

module _ (keep_bytes : ℕ → ℕ) where
  -- The two words of a packet's header, for UDP packets.
  abbrev pub header_words : List Metadata → List Flit
  header_words [] = []
  header_words (m ∷ ms) =
      (if is_udp m then first_word m ∷ second_word keep_bytes (left_over m) ∷ [] else [])
      ++ header_words ms

  abbrev pub open_word : Mode → ℕ → List Flit
  open_word idle b = []
  open_word second b = second_word keep_bytes b ∷ []

  abbrev pub all_words : HeaderToMlx → List Flit
  all_words s = s.data_out.items ++ (open_word s.mode s.buffer ++ header_words s.metadata_in.items)

  abbrev pub all_empty : HeaderToMlx → List Bool
  all_empty s = s.empty_packets.items ++ map is_empty s.metadata_in.items

  abbrev pub all_enable : HeaderToMlx → List Bool
  all_enable s = s.enable_stream.items ++ map is_udp s.metadata_in.items

  abbrev pub SameHeaders : HeaderToMlx → HeaderToMlx → Type 0
  SameHeaders s t =
      (all_words s ≡ all_words t) × (all_empty s ≡ all_empty t) × (all_enable s ≡ all_enable t)

  first_sent :
      (u : Bool) (out : Stream Flit) (w : Flit) (b : ℕ) (rest : List Flit)
      → (if u then write out w else out).items ++ (open_word (if u then second else idle) b ++ rest)
        ≡ out.items ++ ((if u then w ∷ second_word keep_bytes b ∷ [] else []) ++ rest)
  first_sent true out w b rest = append_assoc out.items (w ∷ []) (second_word keep_bytes b ∷ rest)
  first_sent false out w b rest = refl

  SameHeaders-header_in :
      (mode : Mode) (s : HeaderToMlx) → s.mode ≡ mode → SameHeaders (header_in keep_bytes mode s) s
  unfolding header_in send_first
  SameHeaders-header_in idle s e = elim (Bool-cases (blocked s)) [
    | inl b ↦ rw b (refl, refl, refl)
    | inr b ↦ elim (Option-cases (read s.metadata_in)) [
      | inl f ↦ rw (b, f) (refl, refl, refl)
      | inr ((m, ms), f) ↦
          rw (header_in, b, f, e, (read-some s.metadata_in f).0)
            (
              first_sent (is_udp m) s.data_out (first_word m) (left_over m) (header_words ms.items),
              append_assoc s.empty_packets.items (is_empty m ∷ []) (map is_empty ms.items),
              append_assoc s.enable_stream.items (is_udp m ∷ []) (map is_udp ms.items),
            )
    ]
  ]
  SameHeaders-header_in second s e = rw e (
    append_assoc s.data_out.items (second_word keep_bytes s.buffer ∷ [])
        (header_words s.metadata_in.items),
    refl,
    refl,
  )

  -- However many calls are made, the header words out and those to come stay the same together,
  -- and so do the marks of empty packets and of enabled ones: each UDP packet gives two words, any
  -- other none, and each packet one mark of both kinds, in order.
  pub run-SameHeaders : (n : ℕ) (s : HeaderToMlx) → SameHeaders (run keep_bytes n s) s
  unfolding run hdr_to_mlx
  run-SameHeaders zero s = (refl, refl, refl)
  run-SameHeaders (suc n) s =
      let (a, b, c) = SameHeaders-header_in s.mode s refl in
      let (a', b', c') = run-SameHeaders n (hdr_to_mlx keep_bytes s) in (a' ∙ a, b' ∙ b, c' ∙ c)

  -- The two words of a packet whose header fits 336 bits hold the header's bits, in order, and 176
  -- zero bits.
  pub first_word-second_word :
      (m : Metadata)
      → header_bits (metadata_to_header m) < 2 ^ 336
      → (first_word m).bits * 2 ^ 256 + (second_word keep_bytes (left_over m)).bits
        ≡ header_bits (metadata_to_header m) * 2 ^ 176
  unfolding first_word second_word left_over to_header_buffer
  first_word-second_word m h = omega arith
