-- ===== src/Threshold/Parsing.antt =====
-- The parser of the threshold ikernel on whole packets.
use nica.Base.{
  ℕ, zero, suc, ◌+◌, ◌≡◌, ◌<◌, refl, ap, ◌∙◌, false, true, List, [], ◌∷◌, ◌++◌, length,
  length-append, leb, arith, if◌then◌else◌,
}
use mathlib.Core.List.{append_assoc, append-nil}
use native.Mathlib.Nat.{zero-add, suc-add}
use nica.Stream.{read}
use nica.Flit.{Flit, Packet, flits, to_flits, all_flits}
use nica.Threshold.{Parser, ParserState, first, rest, parser, parse_in, value_of}

-- A number of calls.
unfoldable pub parser_run : ℕ → Parser → Parser
unfolding parser
parser_run zero s = s
parser_run (suc n) s = parser_run n (parser s)

parser_run-add : (m n : ℕ) (s : Parser) → parser_run (m + n) s ≡ parser_run n (parser_run m s)
unfolding parser_run
parser_run-add zero n s = rw zero-add
parser_run-add (suc m) n s = rw suc-add (parser_run-add m n (parser s))

abbrev head_of : List (ℕ × ℕ) → ℕ × ℕ → Flit
head_of [] t = record { bits = t.0; keep = t.1; last = true }
head_of (w ∷ ws) t = record { bits = w.0; keep = w.1; last = false }

-- The value of each packet: the field of its first word.
abbrev pub fields_of : List Packet → List ℕ
fields_of [] = []
fields_of (p ∷ ps) = value_of (head_of p.body p.tail) ∷ fields_of ps

module _ (wd vd : ℕ) where
  abbrev pub at : ParserState → List Flit → List ℕ → Parser
  at st ws vs = record {
    parser_state = st;
    data_dup_to_parser = record { items = ws; depth = wd };
    parsed = record { items = vs; depth = vd };
  }

  rest_run :
      (body : List (ℕ × ℕ)) (tail : ℕ × ℕ) (ws : List Flit) (vs : List ℕ)
      → parser_run (length (to_flits body tail)) (at rest (to_flits body tail ++ ws) vs)
        ≡ at first ws vs
  unfolding parser_run parser read
  rest_run [] tail ws vs = refl
  rest_run (w ∷ body) tail ws vs = rest_run body tail ws vs

  first_step :
      (d : Flit) (ws : List Flit) (vs : List ℕ)
      → length vs < vd
      → parse_in first (at first (d ∷ ws) vs)
        ≡ at (if d.last then first else rest) ws (vs ++ value_of d ∷ [])
  unfolding parse_in read
  first_step d ws vs room = let free : leb vd (length vs) ≡ false = ground arith in rw free refl

  packet_run :
      (body : List (ℕ × ℕ)) (tail : ℕ × ℕ) (ws : List Flit) (vs : List ℕ)
      → length vs < vd
      → parser_run (length (to_flits body tail)) (at first (to_flits body tail ++ ws) vs)
        ≡ at first ws (vs ++ value_of (head_of body tail) ∷ [])
  unfolding parser_run parser read
  packet_run [] tail ws vs room = first_step (head_of [] tail) ws vs room
  packet_run (w ∷ body) tail ws vs room =
      let d = head_of (w ∷ body) tail in
      ap (parser_run (length (to_flits body tail)))
        (first_step d (to_flits body tail ++ ws) vs room)
      ∙ rest_run body tail ws (vs ++ value_of d ∷ [])

  -- With room for a value of each packet, a call for each word of the packets empties the input,
  -- adds the field of the first word of each packet, in order, and leaves the parser at a first
  -- word.
  pub parser_run_lem :
      (ps : List Packet) (vs : List ℕ)
      → length vs + length ps < vd + 1
      → parser_run (length (all_flits ps)) (at first (all_flits ps) vs)
        ≡ at first [] (vs ++ fields_of ps)
  unfolding parser_run
  parser_run_lem [] vs room = rw (append-nil vs) refl
  parser_run_lem (q ∷ ps) vs room =
      let v = value_of (head_of q.body q.tail) in
      let one = length-append vs (v ∷ []) in
      ap (λ (n : ℕ). parser_run n (at first (all_flits (q ∷ ps)) vs))
        (length-append (flits q) (all_flits ps))
      ∙ parser_run-add (length (flits q)) (length (all_flits ps)) (at first (all_flits (q ∷ ps)) vs)
      ∙ ap (parser_run (length (all_flits ps)))
          (packet_run q.body q.tail (all_flits ps) vs (omega arith))
      ∙ parser_run_lem ps (vs ++ v ∷ []) (omega arith)
      ∙ ap (at first []) (append_assoc vs (v ∷ []) (fields_of ps))
