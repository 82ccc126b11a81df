-- ===== src/Mlx/Packets.antt =====
-- The elements of the network port on whole packets.
use nica.Base.{
  ℕ, zero, suc, Bool, true, false, not, ◌==◌, List, [], ◌∷◌, ◌++◌, if◌then◌else◌, ◌≡◌, refl, sym,
  ◌∙◌, inl, inr, Bool-cases, Option-cases,
}
use nica.Stream.{Stream, full, read, write, read-some}
use nica.Flit.{Flit}
use nica.PerPacket.{per_packet}
use nica.Mlx.{
  Axi4s, MlxMetadata, Mode, idle, stream, DropperPorts, drop_in, drop_word, drop_step, drop_run,
  JoinPorts, join_in, join_step, join_run, join_metadata, ExtractPorts, extract_step, extract_run,
  split_metadata,
}
use mathlib.Core.List.{append_assoc, append-nil}

abbrev pub open_entry : {E : Type 0} → Mode → E → List E
open_entry idle e = []
open_entry stream e = e ∷ []

module _ {E W V : Type 0} (last : W → Bool) (emit : E → W → List V) where
  -- One word handled: what it puts out moves from what is to come to what is out.
  word_step :
      (l : Bool) (w : W) (e : E) (es : List E) (ws : List W) (out : List V)
      → last w ≡ l
      → (out ++ emit e w)
          ++ per_packet last emit
              (λ (x : E) (v : W). x)
              (open_entry (if l then idle else stream) e ++ es)
              ws
        ≡ out ++ per_packet last emit (λ (x : E) (v : W). x) (e ∷ es) (w ∷ ws)
  word_step true w e es ws out h =
      rw h (append_assoc out (emit e w) (per_packet last emit (λ (x : E) (v : W). x) es ws))
  word_step false w e es ws out h =
      rw h (append_assoc out (emit e w) (per_packet last emit (λ (x : E) (v : W). x) (e ∷ es) ws))

abbrev pub emit_pass : Bool → Axi4s → List Axi4s
emit_pass p w = if p then w ∷ [] else []

-- The words out, and those of the remaining packets that are to pass.
abbrev pub drop_result : DropperPorts → List Axi4s
drop_result s =
    s.out.items
    ++ per_packet (λ (w : Axi4s). w.last) emit_pass (λ (p : Bool) (w : Axi4s). p)
        (open_entry s.dropper.mode (not s.dropper.drop) ++ s.pass.items) s.words.items

written :
    (d : Bool) (w : Axi4s) (out : Stream Axi4s)
    → (if d then out else write out w).items ≡ out.items ++ emit_pass (not d) w
written true w out = sym (append-nil out.items)
written false w out = refl

drop_result-drop_word :
    (s : DropperPorts) (d : Bool) (w : Axi4s)
    → drop_result (drop_word s d w)
      ≡ s.out.items
        ++ per_packet
            (λ (w : Axi4s). w.last)
            emit_pass
            (λ (p : Bool) (w : Axi4s). p)
            (not d ∷ s.pass.items)
            (w ∷ s.words.items)
unfolding drop_word
drop_result-drop_word s d w = rw (written d w s.out) (
    word_step (λ (w : Axi4s). w.last) emit_pass w.last w (not d) s.pass.items s.words.items
      s.out.items refl)

not-not : (b : Bool) → not (not b) ≡ b
not-not true = refl
not-not false = refl

drop_result-drop_in :
    (m : Mode) (s : DropperPorts) → s.dropper.mode ≡ m → drop_result (drop_in m s) ≡ drop_result s
unfolding drop_in
drop_result-drop_in idle s m = elim (Bool-cases (full s.out)) [
  | inl e ↦ rw e refl
  | inr e ↦ elim (Option-cases (read s.pass)) [
    | inl f ↦ rw (e, f) refl
    | inr ((p, ps), f) ↦ elim (Option-cases (read s.words)) [
      | inl g ↦ rw (e, f, g) refl
      | inr ((w, ws), g) ↦
          rw (e, f, g, m, (read-some s.pass f).0, (read-some s.words g).0)
            (drop_result-drop_word (record s { words = ws; pass = ps }) (not p) w
              ∙ rw (not-not p) refl)
    ]
  ]
]
drop_result-drop_in stream s m = elim (Bool-cases (full s.out)) [
  | inl e ↦ rw e refl
  | inr e ↦ elim (Option-cases (read s.words)) [
    | inl g ↦ rw (e, g) refl
    | inr ((w, ws), g) ↦
        rw (e, g, m, (read-some s.words g).0)
          (drop_result-drop_word (record s { words = ws }) s.dropper.drop w)
  ]
]

-- However many calls the dropper makes, the words out and those of the remaining packets that are
-- to pass stay the same together: packets pass or drop whole and in order.
pub drop_result-drop_run : (n : ℕ) (s : DropperPorts) → drop_result (drop_run n s) ≡ drop_result s
unfolding drop_run drop_step
drop_result-drop_run zero s = refl
drop_result-drop_run (suc n) s =
    drop_result-drop_run n (drop_step s) ∙ drop_result-drop_in s.dropper.mode s refl

abbrev pub emit_joined : MlxMetadata → Flit → List Axi4s
emit_joined m d = join_metadata m d ∷ []

-- The words out, and the remaining ones with the metadata of their packets.
abbrev pub join_result : JoinPorts → List Axi4s
join_result s =
    s.out.items
    ++ per_packet (λ (w : Flit). w.last) emit_joined (λ (m : MlxMetadata) (w : Flit). m)
        (open_entry s.mode s.m ++ s.meta_in.items) s.data_in.items

join_result-join_in :
    (mode : Mode) (s : JoinPorts) → s.mode ≡ mode → join_result (join_in mode s) ≡ join_result s
unfolding join_in
join_result-join_in idle s m = elim (Option-cases (read s.meta_in)) [
  | inl f ↦ rw (join_in, f) refl
  | inr ((x, xs), f) ↦ rw (join_in, f, m, (read-some s.meta_in f).0) refl
]
join_result-join_in stream s m = elim (Bool-cases (full s.out)) [
  | inl e ↦ rw e refl
  | inr e ↦ elim (Option-cases (read s.data_in)) [
    | inl g ↦ rw (e, g) refl
    | inr ((d, ds), g) ↦
        rw (e, g, m, (read-some s.data_in g).0)
          (word_step (λ (w : Flit). w.last) emit_joined d.last d s.m s.meta_in.items ds.items
            s.out.items refl)
  ]
]

-- However many calls are made, the words out and the remaining data joined with the metadata of
-- their packets stay the same together: the n-th packet carries the n-th metadata on all its words.
pub join_result-join_run : (n : ℕ) (s : JoinPorts) → join_result (join_run n s) ≡ join_result s
unfolding join_run join_step
join_result-join_run zero s = refl
join_result-join_run (suc n) s =
    join_result-join_run n (join_step s) ∙ join_result-join_in s.mode s refl

-- The metadata of the words numbered 0.
abbrev pub heads : List (ℕ × Axi4s) → List MlxMetadata
heads [] = []
heads ((n, w) ∷ ws) = (if n == 0 then (split_metadata w).0 ∷ [] else []) ++ heads ws

abbrev pub flits_of : List (ℕ × Axi4s) → List Flit
flits_of [] = []
flits_of ((n, w) ∷ ws) = (split_metadata w).1 ∷ flits_of ws

abbrev pub extracted_metadata : ExtractPorts → List MlxMetadata
extracted_metadata s = s.out_metadata.items ++ heads s.numbered.items

abbrev pub extracted_data : ExtractPorts → List Flit
extracted_data s = s.out_data.items ++ flits_of s.numbered.items

extract_step_kept :
    (s : ExtractPorts)
    → (extracted_metadata (extract_step s) ≡ extracted_metadata s)
      × (extracted_data (extract_step s) ≡ extracted_data s)
unfolding extract_step
extract_step_kept s = elim (Bool-cases (full s.out_data)) [
  | inl e ↦ rw e (refl, refl)
  | inr e ↦ elim (Option-cases (read s.numbered)) [
    | inl f ↦ rw (e, f) (refl, refl)
    | inr (((n, w), rest), f) ↦ elim (Bool-cases (n == 0)) [
      | inl z ↦ elim (Bool-cases (full s.out_metadata)) [
        | inl g ↦ rw (extract_step, e, f, z, g) (refl, refl)
        | inr g ↦
            rw (extract_step, e, f, z, g, (read-some s.numbered f).0, z)
              (
                append_assoc s.out_metadata.items ((split_metadata w).0 ∷ []) (heads rest.items),
                append_assoc s.out_data.items ((split_metadata w).1 ∷ []) (flits_of rest.items),
              )
      ]
      | inr z ↦
          rw (extract_step, e, f, z, (read-some s.numbered f).0, z)
            (refl, append_assoc s.out_data.items ((split_metadata w).1 ∷ []) (flits_of rest.items))
    ]
  ]
]

-- However many calls are made, the metadata out with those of the remaining first words, and the
-- data out with the remaining data, stay the same: each packet gives its metadata once, and no data
-- are lost when one of the two outputs is full.
pub extract_run_kept :
    (n : ℕ) (s : ExtractPorts)
    → (extracted_metadata (extract_run n s) ≡ extracted_metadata s)
      × (extracted_data (extract_run n s) ≡ extracted_data s)
unfolding extract_run
extract_run_kept zero s = (refl, refl)
extract_run_kept (suc n) s =
    let (m, d) = extract_step_kept s in
    let (m', d') = extract_run_kept n (extract_step s) in (m' ∙ m, d' ∙ d)
