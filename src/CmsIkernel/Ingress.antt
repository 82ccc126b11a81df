-- ===== src/CmsIkernel/Ingress.antt =====
-- The ingress of the sketch's ikernel on whole packets.
use nica.Base.{
  ℕ, zero, suc, ◌+◌, ◌≡◌, ◌<◌, refl, ap, ◌∙◌, false, true, List, [], ◌∷◌, ◌++◌, length,
  length-append, leb, arith, if◌then◌else◌,
}
use mathlib.Core.List.{append_assoc, append-nil}
use native.Mathlib.Nat.{zero-add, suc-add}
use nica.Stream.{read}
use nica.Flit.{Flit, Packet, flits, to_flits, all_flits}
use nica.Metadata.{Metadata}
use nica.Pipeline.{PipelinePorts}
use nica.CmsIkernel.{
  Cms, State, metadata, first_word, other_words, net_ingress, ingress_in, value_of,
}

-- A number of calls.
unfoldable pub ingress_run : ℕ → Cms × PipelinePorts → Cms × PipelinePorts
unfolding net_ingress
ingress_run zero s = s
ingress_run (suc n) (s, p) = ingress_run n (net_ingress s p)

ingress_run-add :
    (m n : ℕ) (s : Cms × PipelinePorts) → ingress_run (m + n) s ≡ ingress_run n (ingress_run m s)
unfolding ingress_run
ingress_run-add zero n s = rw zero-add
ingress_run-add (suc m) n (s, p) = rw suc-add (ingress_run-add m n (net_ingress s p))

-- The first word of a packet.
abbrev first_of : List (ℕ × ℕ) → ℕ × ℕ → Flit
first_of [] t = record { bits = t.0; keep = t.1; last = true }
first_of (w ∷ ws) t = record { bits = w.0; keep = w.1; last = false }

abbrev pub values_of : List Packet → List ℕ
values_of [] = []
values_of (p ∷ ps) = value_of (first_of p.body p.tail) ∷ values_of ps

-- One call for the metadata of a packet and one for each of its words.
abbrev pub calls_for : List Packet → ℕ
calls_for [] = 0
calls_for (p ∷ ps) = suc (length (flits p)) + calls_for ps

module _ (s : Cms) (p : PipelinePorts) (vd md dd : ℕ) where
  -- The state with its ports, where all that the ingress does not touch is that of `s` and `p`.
  abbrev pub at : State → List ℕ → List Metadata → List Flit → Cms × PipelinePorts
  at st vs ms ws = (
    record s { state = st; values_stream = record { items = vs; depth = vd } },
    record p {
      metadata_input = record { items = ms; depth = md };
      data_input = record { items = ws; depth = dd };
    },
  )

  rest_run :
      (body : List (ℕ × ℕ)) (tail : ℕ × ℕ) (vs : List ℕ) (ms : List Metadata) (ws : List Flit)
      → ingress_run (length (to_flits body tail)) (at other_words vs ms (to_flits body tail ++ ws))
        ≡ at metadata vs ms ws
  unfolding ingress_run net_ingress read
  rest_run [] tail vs ms ws = refl
  rest_run (w ∷ body) tail vs ms ws = rest_run body tail vs ms ws

  first_step :
      (d : Flit) (vs : List ℕ) (ms : List Metadata) (ws : List Flit)
      → length vs < vd
      → ingress_in first_word (at first_word vs ms (d ∷ ws)).0 (at first_word vs ms (d ∷ ws)).1
        ≡ at (if d.last then metadata else other_words) (vs ++ value_of d ∷ []) ms ws
  unfolding ingress_in read
  first_step d vs ms ws room = let free : leb vd (length vs) ≡ false = ground arith in rw free refl

  packet_run :
      (body : List (ℕ × ℕ)) (tail : ℕ × ℕ) (vs : List ℕ) (m : Metadata) (ms : List Metadata)
      (ws : List Flit)
      → length vs < vd
      → ingress_run
          (suc (length (to_flits body tail)))
          (at metadata vs (m ∷ ms) (to_flits body tail ++ ws))
        ≡ at metadata (vs ++ value_of (first_of body tail) ∷ []) ms ws
  unfolding ingress_run net_ingress read
  packet_run [] tail vs m ms ws room = first_step (first_of [] tail) vs ms ws room
  packet_run (w ∷ body) tail vs m ms ws room =
      let d = first_of (w ∷ body) tail in
      ap (ingress_run (length (to_flits body tail)))
        (first_step d vs ms (to_flits body tail ++ ws) room)
      ∙ rest_run body tail (vs ++ value_of d ∷ []) ms ws

  -- With the metadata of each packet, its words, and room for a value of each, a call for each
  -- metadata and each word empties both inputs, adds to the values exactly the field of the first
  -- word of each packet, in order, and leaves the ingress between packets.
  pub values_lem :
      (ps : List Packet) (vs : List ℕ) (ms : List Metadata)
      → length ms ≡ length ps
      → length vs + length ps < vd + 1
      → ingress_run (calls_for ps) (at metadata vs ms (all_flits ps))
        ≡ at metadata (vs ++ values_of ps) [] []
  unfolding ingress_run
  values_lem [] vs [] same room = rw (append-nil vs) refl
  values_lem [] vs (m ∷ ms) same room = absurd (omega arith)
  values_lem (q ∷ ps) vs [] same room = absurd (omega arith)
  values_lem (q ∷ ps) vs (m ∷ ms) same room =
      let v = value_of (first_of q.body q.tail) in
      let one = length-append vs (v ∷ []) in
      ingress_run-add (suc (length (flits q))) (calls_for ps)
        (at metadata vs (m ∷ ms) (all_flits (q ∷ ps)))
      ∙ ap (λ (t : Cms × PipelinePorts). ingress_run (calls_for ps) t)
          (packet_run q.body q.tail vs m ms (all_flits ps) (omega arith))
      ∙ values_lem ps (vs ++ v ∷ []) ms (omega arith) (omega arith)
      ∙ ap (λ (l : List ℕ). at metadata l [] []) (append_assoc vs (v ∷ []) (values_of ps))
