-- ===== src/Udp/Dropper/Drops.antt =====
-- The dropper drops and passes whole packets, as its decisions say.
use nica.Base.{
  ℕ, zero, suc, Bool, true, false, not, ◌&&◌, ◌||◌, List, [], ◌∷◌, ◌++◌, if◌then◌else◌, ◌≡◌, refl,
  ap, ◌∙◌, inl, inr, Bool-cases, Option-cases, if-same, arith,
}
use nica.Stream.{Stream, full, read, write, read-some, items-write_if}
use nica.Flit.{Flit}
use nica.PerPacket.{per_packet}
use nica.Udp.{HeaderBuffer}
use nica.Udp.Dropper.{
  Mode, idle, stream, Ports, is_empty, accept, take_header, send_word, fetch_word, step_in,
  dropper_step, run,
}
use mathlib.Core.List.{append_assoc}

-- The headers that pass.
abbrev pub kept : List Bool → List HeaderBuffer → List HeaderBuffer
kept [] hs = []
kept (p ∷ ps) [] = []
kept (p ∷ ps) (h ∷ hs) = (if p then h ∷ [] else []) ++ kept ps hs

-- One entry for each packet with data: whether the data pass.
abbrev pub entries : Bool → List Bool → List HeaderBuffer → List Bool
entries have [] hs = []
entries have (p ∷ ps) [] = []
entries have (p ∷ ps) (h ∷ hs) =
    (if is_empty h then (if have then false ∷ [] else []) else p ∷ []) ++ entries have ps hs

abbrev pub emit : Bool → Flit → List Flit
emit p w = if p then w ∷ [] else []

-- What is to come out on the data stream: the words of the packets that pass.
abbrev pub data_of : List Bool → List Flit → List Flit
data_of = per_packet (λ (w : Flit). w.last) emit (λ p w. p)

abbrev pub open_entry : Mode → Bool → List Bool
open_entry idle d = []
open_entry stream d = not d ∷ []

abbrev pub buffered : Bool → Flit → List Flit
buffered v w = if v then w ∷ [] else []

abbrev pub header_result : Ports → List HeaderBuffer
header_result s = s.header_out.items ++ kept s.pass.items s.header_in.items

abbrev pub data_result : Ports → List Flit
data_result s =
    let d = s.dropper in
    s.data_out.items
    ++ data_of
        (open_entry d.mode d.drop
          ++ entries d.empty_packets_have_data s.pass.items s.header_in.items)
        (buffered d.data_buf_valid d.data_buf ++ s.data_in.items)

entry_of :
    (e v p : Bool)
    → open_entry (if not e || v then stream else idle) (if e && v then true else not p)
      ≡ (if e then (if v then false ∷ [] else []) else p ∷ [])
entry_of true true p = refl
entry_of true false p = refl
entry_of false true true = refl
entry_of false true false = refl
entry_of false false true = refl
entry_of false false false = refl

header_result-take_header : (s : Ports) → header_result (take_header s) ≡ header_result s
unfolding take_header accept
header_result-take_header s = elim (Bool-cases (full s.header_out)) [
  | inl e ↦ rw e refl
  | inr e ↦ elim (Option-cases (read s.pass)) [
    | inl f ↦ rw (e, f) refl
    | inr ((p, ps), f) ↦ elim (Option-cases (read s.header_in)) [
      | inl g ↦ rw (e, f, g) refl
      | inr ((h, hs), g) ↦
          rw (e, f, g, (read-some s.pass f).0, (read-some s.header_in g).0)
            (items-write_if p s.header_out h (kept ps.items hs.items))
    ]
  ]
]

data_result-take_header :
    (s : Ports) → s.dropper.mode ≡ idle → data_result (take_header s) ≡ data_result s
unfolding take_header accept
data_result-take_header s m = elim (Bool-cases (full s.header_out)) [
  | inl e ↦ rw e refl
  | inr e ↦ elim (Option-cases (read s.pass)) [
    | inl f ↦ rw (e, f) refl
    | inr ((p, ps), f) ↦ elim (Option-cases (read s.header_in)) [
      | inl g ↦ rw (e, f, g) refl
      | inr ((h, hs), g) ↦
          rw (e, f, g, m, (read-some s.pass f).0, (read-some s.header_in g).0)
            (ap
              (λ (es : List Bool).
                s.data_out.items
                ++ data_of (es ++ entries s.dropper.empty_packets_have_data ps.items hs.items)
                    (buffered s.dropper.data_buf_valid s.dropper.data_buf ++ s.data_in.items))
              (entry_of (is_empty h) s.dropper.empty_packets_have_data p))
    ]
  ]
]

sent :
    (l d : Bool) (w : Flit) (out : Stream Flit) (es : List Bool) (ws : List Flit)
    → (if d then out else write out w).items
        ++ data_of (open_entry (if l then idle else stream) d ++ es) ws
      ≡ out.items ++ (emit (not d) w ++ data_of (if l then es else not d ∷ es) ws)
sent true true w out es ws = refl
sent false true w out es ws = refl
sent true false w out es ws = append_assoc out.items (w ∷ []) (data_of es ws)
sent false false w out es ws = append_assoc out.items (w ∷ []) (data_of (true ∷ es) ws)

data_result-send_word :
    (s : Ports) → s.dropper.mode ≡ stream → data_result (send_word s) ≡ data_result s
unfolding send_word
data_result-send_word s m = elim (Bool-cases s.dropper.data_buf_valid) [
  | inl v ↦ elim (Bool-cases (full s.data_out)) [
    | inl e ↦ rw (v, e) refl
    | inr e ↦
        rw (v, e, m)
          (sent s.dropper.data_buf.last s.dropper.drop s.dropper.data_buf s.data_out
            (entries s.dropper.empty_packets_have_data s.pass.items s.header_in.items)
            s.data_in.items)
  ]
  | inr v ↦ rw v refl
]

data_result-fetch_word : (s : Ports) → data_result (fetch_word s) ≡ data_result s
unfolding fetch_word
data_result-fetch_word s = elim (Bool-cases s.dropper.data_buf_valid) [
  | inl v ↦ rw v refl
  | inr v ↦ elim (Option-cases (read s.data_in)) [
    | inl f ↦ rw f (ap data_result (if-same s.dropper.data_buf_valid s))
    | inr ((d, rest), f) ↦ rw (v, f, (read-some s.data_in f).0) refl
  ]
]

header_result-stream : (s : Ports) → header_result (fetch_word (send_word s)) ≡ header_result s
unfolding fetch_word send_word
header_result-stream s = ground arith

-- One call keeps the headers and the data that are out or still to come.
step_results :
    (m : Mode) (s : Ports)
    → s.dropper.mode ≡ m
    → (header_result (step_in m s) ≡ header_result s) × (data_result (step_in m s) ≡ data_result s)
unfolding step_in
step_results idle s e = (header_result-take_header s, data_result-take_header s e)
step_results stream s e =
    (header_result-stream s, data_result-fetch_word (send_word s) ∙ data_result-send_word s e)

-- However many calls are made, the headers out and those that the remaining decisions pass are the
-- same together, and so are the data out and the words of the remaining packets that are to pass:
-- packets with data pass or drop whole, in order, and the data of an empty packet are never passed.
pub run_results :
    (n : ℕ) (s : Ports)
    → (header_result (run n s) ≡ header_result s) × (data_result (run n s) ≡ data_result s)
unfolding run dropper_step
run_results zero s = (refl, refl)
run_results (suc n) s =
    let (h, d) = step_results s.dropper.mode s refl in
    let (h', d') = run_results n (dropper_step s) in (h' ∙ h, d' ∙ d)
