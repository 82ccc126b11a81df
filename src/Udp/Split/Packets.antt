-- ===== src/Udp/Split/Packets.antt =====
-- A packet goes through the splitter in as many calls as it has words.
use nica.Base.{
  ℕ, suc, ◌+◌, ◌-◌, ◌*◌, ◌^◌, ◌≤◌, ◌<◌, ◌≡◌, refl, ap, ◌∙◌, false, List, [], ◌∷◌, ◌++◌, length, leb,
  range, cat, length-append, arith,
}
use mathlib.Core.List.{append_assoc}
use nica.Stream.{Stream, read}
use nica.Flit.{Flit, to_flits}
use nica.Mlx.{MlxMetadata}
use nica.Udp.{HeaderBuffer, header_buffer}
use nica.Udp.Split.{
  Mode, idle, reading_header, stream, last_word, Split, data_start, start_packet, read_header,
  read_word, split_in, split, run, final_word, finish_packet,
}
use nica.Udp.Split.Words.{data_word, data_words, joined_flits, joined, joined-final_word, WordsFit}

-- The state with the streams given one by one.
module _ (keep_bytes : ℕ → ℕ) (m : MlxMetadata) (ms : Stream MlxMetadata) (ws : List Flit) (wd : ℕ)
    (headers : List HeaderBuffer) (hd : ℕ) (od : ℕ) where
  abbrev pub at : Mode → ℕ → List Flit → List HeaderBuffer → List Flit → Split
  at mode b l hs out = record {
    mode = mode;
    meta = m;
    buffer = b;
    in_metadata = ms;
    in_data = record { items = l ++ ws; depth = wd };
    header = record { items = hs; depth = hd };
    data_out = record { items = out; depth = od };
  }

  run-data_words :
      (body : List (ℕ × ℕ)) (tail : ℕ × ℕ) (b : ℕ) (hs : List HeaderBuffer) (out : List Flit)
      → length out + length (to_flits body tail) ≤ od
      → run keep_bytes (length (to_flits body tail)) (at stream b (to_flits body tail) hs out)
        ≡ at last_word tail.0 [] hs (out ++ data_words b body tail)
  unfolding run split split_in read_word read
  run-data_words [] tail b hs out room =
      let free : leb od (length out) ≡ false = ground arith in rw (run, free) refl
  run-data_words (w ∷ body) tail b hs out room =
      let free : leb od (length out) ≡ false = ground arith in
      let d = data_word b w.0 in
      rw (run, free)
        (run-data_words body tail w.0 hs (out ++ d ∷ []) (omega (arith, length-append out (d ∷ [])))
          ∙ ap (at last_word tail.0 [] hs) (append_assoc out (d ∷ []) (data_words w.0 body tail)))

  -- The header of a packet whose first two words are `first` and `second`.
  abbrev pub header_of : ℕ → ℕ → HeaderBuffer
  header_of first second =
      header_buffer (cat first (256 - data_start) (range second 255 data_start)) m.id m.user false

  -- With the packet's first word in the buffer, and room for its header and its data, as many calls
  -- as it has further words read exactly these, put out one header with the packet's metadata, and
  -- all data words but the last.
  run-packet :
      (first : ℕ) (second : ℕ × ℕ) (body : List (ℕ × ℕ)) (tail : ℕ × ℕ) (out : List Flit)
      → length headers < hd
      → length out + length (to_flits body tail) ≤ od
      → run keep_bytes
          (length (to_flits (second ∷ body) tail))
          (at reading_header first (to_flits (second ∷ body) tail) headers out)
        ≡ at last_word tail.0 []
            (headers ++ header_of first second.0 ∷ [])
            (out ++ data_words second.0 body tail)
  unfolding run split split_in read_header read
  run-packet first second body tail out room room' =
      let free : leb hd (length headers) ≡ false = ground arith in
      rw (run, free)
        (run-data_words body tail second.0 (headers ++ header_of first second.0 ∷ []) out room')

  length-data_words :
      (body : List (ℕ × ℕ)) (tail : ℕ × ℕ) (b : ℕ)
      → length (data_words b body tail) ≡ length (to_flits body tail)
  length-data_words [] tail b = refl
  length-data_words (w ∷ body) tail b = ap suc (length-data_words body tail w.0)

  data_out-start_packet : (s : Split) → (start_packet s).data_out ≡ s.data_out
  unfolding start_packet
  data_out-start_packet s = ground arith

  run-finish_packet :
      (b : ℕ) (hs : List HeaderBuffer) (out : List Flit)
      → length out < od
      → (run keep_bytes 1 (at last_word b [] hs out)).data_out.items
        ≡ out ++ final_word keep_bytes b ∷ []
  unfolding run split split_in finish_packet
  run-finish_packet b hs out room =
      let free : leb od (length out) ≡ false = ground arith in
      let s = record (at idle b [] hs out) {
        data_out = record { items = out ++ final_word keep_bytes b ∷ []; depth = od };
      } in
      rw (run, free) (ap (λ (d : Stream Flit). d.items) (data_out-start_packet s))

  -- A packet of at least three words of 256 bits, its first in the buffer, and room for its header
  -- and its data: after as many calls as it has further words, one header is out, with the
  -- packet's metadata, and after one call more the data are out; the header's bits and the data's
  -- together are the bits of the packet, in order, and 80 zero bits.
  pub joined_flits-run :
      (first : ℕ) (second : ℕ × ℕ) (body : List (ℕ × ℕ)) (tail : ℕ × ℕ) (out : List Flit)
      → second.0 < 2 ^ 256
      → WordsFit body
      → tail.0 < 2 ^ 256
      → length headers < hd
      → length out + length (to_flits body tail) < od
      → let r =
          run keep_bytes
            (length (to_flits (second ∷ body) tail))
            (at reading_header first (to_flits (second ∷ body) tail) headers out) in
        let ds = data_words second.0 body tail ++ final_word keep_bytes tail.0 ∷ [] in
        (r.header.items ≡ headers ++ header_of first second.0 ∷ [])
        × ((run keep_bytes 1 r).data_out.items ≡ out ++ ds)
        × (joined_flits (header_of first second.0).hdr ds
            ≡ joined (first * 2 ^ 256 + second.0) body tail * 2 ^ 80)
  unfolding header_buffer
  joined_flits-run first second body tail out s f t room room' =
      let e = run-packet first second body tail out room (omega arith) in
      let hs = headers ++ header_of first second.0 ∷ [] in
      let words = data_words second.0 body tail in
      let fits : length (out ++ words) < od =
        omega (arith, length-append out words, length-data_words body tail second.0) in
      (
        ap (λ (r : Split). r.header.items) e,
        ap (λ (r : Split). (run keep_bytes 1 r).data_out.items) e
            ∙ run-finish_packet tail.0 hs (out ++ words) fits
            ∙ append_assoc out words (final_word keep_bytes tail.0 ∷ []),
        joined-final_word keep_bytes first second.0 body tail s f t,
      )
