-- ===== src/DropOrPass/Packets.antt =====
-- The filter on whole packets.
use nica.Base.{
  ℕ, zero, suc, ◌+◌, ◌≡◌, ◌⊎◌, refl, ap, ◌∙◌, Bool, true, false, List, [], ◌∷◌, ◌++◌, length,
  length-append, arith,
}
use mathlib.Core.List.{append_assoc, append-nil}
use native.Mathlib.Nat.{zero-add, suc-add}
use nica.Stream.{read}
use nica.Flit.{Flit, Packet, flits, to_flits}
use nica.DropOrPass.{Mode, decision, stream, Ports, step, run}

-- A decision for each packet: the words that shall come out.
abbrev pub selected : List (Bool × Packet) → List Flit
selected [] = []
selected ((true, p) ∷ ps) = flits p ++ selected ps
selected ((false, p) ∷ ps) = selected ps

abbrev pub decisions_of : List (Bool × Packet) → List Bool
decisions_of [] = []
decisions_of ((b, p) ∷ ps) = b ∷ decisions_of ps

abbrev pub words_of : List (Bool × Packet) → List Flit
words_of [] = []
words_of ((b, p) ∷ ps) = flits p ++ words_of ps

abbrev passed : Bool → List Flit → List Flit
passed true ws = ws
passed false ws = []

run-add : (m n : ℕ) (s : Ports) → run (m + n) s ≡ run n (run m s)
unfolding run
run-add zero n s = rw zero-add
run-add (suc m) n s = rw suc-add (run-add m n (step s))

-- The state of a filter that has the streams `ds`, `ws` and `out`.
abbrev at : Mode → Bool → List Bool → ℕ → List Flit → ℕ → List Flit → ℕ → Ports
at m p ds dd ws wd out od = record {
  filter = record { mode = m; pass = p };
  decisions = record { items = ds; depth = dd };
  input = record { items = ws; depth = wd };
  output = record { items = out; depth = od };
}

-- In the middle of a packet, the rest of it goes where the decision says.
stream_run :
    (body : List (ℕ × ℕ)) (tail : ℕ × ℕ) (p : Bool) (ds : List Bool) (dd : ℕ) (ws : List Flit)
    (wd : ℕ) (out : List Flit) (od : ℕ)
    → run (length (to_flits body tail)) (at stream p ds dd (to_flits body tail ++ ws) wd out od)
      ≡ at decision p ds dd ws wd (out ++ passed p (to_flits body tail)) od
unfolding run step read
stream_run [] tail true ds dd ws wd out od = refl
stream_run [] tail false ds dd ws wd out od = rw (append-nil out)
stream_run (w ∷ body) tail true ds dd ws wd out od =
    let f : Flit = record { bits = w.0; keep = w.1; last = false } in
    stream_run body tail true ds dd ws wd (out ++ f ∷ []) od
    ∙ ap (λ (l : List Flit). at decision true ds dd ws wd l od)
        (append_assoc out (f ∷ []) (to_flits body tail))
stream_run (w ∷ body) tail false ds dd ws wd out od = stream_run body tail false ds dd ws wd out od

-- A decision is taken with the first word of its packet.
packet_run :
    (q b : Bool) (p : Packet) (ds : List Bool) (dd : ℕ) (ws : List Flit) (wd : ℕ) (out : List Flit)
    (od : ℕ)
    → run (length (flits p)) (at decision q (b ∷ ds) dd (flits p ++ ws) wd out od)
      ≡ at decision b ds dd ws wd (out ++ passed b (flits p)) od
unfolding run read
packet_run q b p ds dd ws wd out od = start p.body ∙ stream_run p.body p.tail b ds dd ws wd out od
  where
    start :
        (body : List (ℕ × ℕ))
        → run
            (length (to_flits body p.tail))
            (at decision q (b ∷ ds) dd (to_flits body p.tail ++ ws) wd out od)
          ≡ run
              (length (to_flits body p.tail))
              (at stream b ds dd (to_flits body p.tail ++ ws) wd out od)
    start [] = refl
    start (w ∷ body) = refl

append-passed :
    (b : Bool) (p : Packet) (out : List Flit) (ps : List (Bool × Packet))
    → (out ++ passed b (flits p)) ++ selected ps ≡ out ++ selected ((b, p) ∷ ps)
append-passed true p out ps = append_assoc out (flits p) (selected ps)
append-passed false p out ps = rw (append-nil out)

last_pass : Bool → List (Bool × Packet) → Bool
last_pass q [] = q
last_pass q ((b, p) ∷ ps) = last_pass b ps

packets_run :
    (ps : List (Bool × Packet)) (q : Bool) (dd wd : ℕ) (out : List Flit) (od : ℕ)
    → run (length (words_of ps)) (at decision q (decisions_of ps) dd (words_of ps) wd out od)
      ≡ at decision (last_pass q ps) [] dd [] wd (out ++ selected ps) od
unfolding run last_pass
packets_run [] q dd wd out od = rw (append-nil out)
packets_run ((b, p) ∷ ps) q dd wd out od =
    rw (length-append (flits p) (words_of ps), run-add)
      (ap (run (length (words_of ps)))
          (packet_run q b p (decisions_of ps) dd (words_of ps) wd out od)
        ∙ packets_run ps b dd wd (out ++ passed b (flits p)) od
        ∙ ap (λ (l : List Flit). at decision (last_pass b ps) [] dd [] wd l od)
            (append-passed b p out ps))

-- With one decision for each packet of the input, as many calls as the packets have words empty
-- both streams, add to the output exactly the words of the packets that are to pass, in order, and
-- leave the filter between packets.
pub run-selected :
    (s : Ports) (ps : List (Bool × Packet))
    → s.filter.mode ≡ decision
    → s.decisions.items ≡ decisions_of ps
    → s.input.items ≡ words_of ps
    → let r = run (length (words_of ps)) s in
      (r.output.items ≡ s.output.items ++ selected ps)
      × (r.input.items ≡ [])
      × (r.decisions.items ≡ [])
      × (r.filter.mode ≡ decision)
run-selected s ps m ds ws =
    let start : s
        ≡ at decision s.filter.pass (decisions_of ps) s.decisions.depth (words_of ps) s.input.depth
            s.output.items s.output.depth =
      λ i.
        at (m i) s.filter.pass (ds i) s.decisions.depth (ws i) s.input.depth s.output.items
          s.output.depth in
    let whole =
      ap (run (length (words_of ps))) start
      ∙ packets_run ps s.filter.pass s.decisions.depth s.input.depth s.output.items
          s.output.depth in
    rw whole (refl, refl, refl, refl)

-- Without a decision between packets, or without a word, a call changes no stream.
pub step-waits :
    (s : Ports)
    → (s.filter.mode ≡ decision) × (s.decisions.items ≡ [])
      ⊎ ((s.filter.mode ≡ stream) × (s.input.items ≡ []))
    → step s ≡ s
unfolding step read
step-waits s h = ground arith
