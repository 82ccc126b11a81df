-- ===== src/Demux/Routing.antt =====
-- Every metadata goes to the port of its ikernel, in order.
use nica.Base.{
  ℕ, ◌≡◌, refl, sym, ap, ◌∙◌, List, [], ◌∷◌, ◌++◌, map, inl, inr, Bool-cases, Option-cases, ◌==◌,
  ==_iff, ◌||◌, store, if◌then◌else◌,
}
use mathlib.Core.List.{append_assoc}
use mathlib.Core.Path.{subst}
use nica.Stream.{Stream, full, read, write, read-some, read-write}
use nica.Metadata.{Metadata}
use nica.Flit.{Flit}
use nica.Links.{dup, any_full}
use nica.Demux.{
  Demux, TcPorts, State, idle, stream, MetaState, meta_idle, write_metadata, select_port,
  port_selector, demux_meta, demux_meta_in, demux_data, demux_data_in, dup_metadata, dup_ports,
  demux,
}

-- The metadata for one port.
abbrev pub for_port : ℕ → List Metadata → List Metadata
for_port k [] = []
for_port k (m ∷ ms) = if select_port m == k then m ∷ for_port k ms else for_port k ms

for_port-append : (k : ℕ) (a b : List Metadata) → for_port k (a ++ b) ≡ for_port k a ++ for_port k b
for_port-append k [] b = refl
for_port-append k (m ∷ a) b = elim (Bool-cases (select_port m == k)) [
  | inl t ↦ rw t (ap (λ (l : List Metadata). m ∷ l) (for_port-append k a b))
  | inr f ↦ rw f (for_port-append k a b)
]

-- The port that `demux_meta` has taken and not written to yet.
abbrev pub taken : MetaState → ℕ → List ℕ
taken meta_idle port = []
taken write_metadata port = port ∷ []

-- The ports on their way to `demux_meta`, and those still to be selected.
abbrev pub coming : Demux → List ℕ
coming s =
    s.port_to_meta_output.items
    ++ (s.selected_ports.items ++ map select_port s.meta_to_select_port.items)

-- These are the ports of the metadata that wait for `demux_meta`, one for one.
abbrev pub IsRouted : Demux → Type 0
IsRouted s = taken s.meta_state s.meta_port ++ coming s ≡ map select_port s.meta_to_output.items

-- What the metadata's way depends on is the same.
abbrev Same : Demux → Demux → Type 0
Same t s =
    (coming t ≡ coming s)
    × (t.meta_to_output ≡ s.meta_to_output)
    × (t.meta_state ≡ s.meta_state)
    × (t.meta_port ≡ s.meta_port)

IsRouted-Same : (t s : Demux) → Same t s → IsRouted s → IsRouted t
IsRouted-Same t s (c, o, st, p) h =
    (λ i. taken (st i) (p i) ++ c i)
    ∙ h
    ∙ ap (λ (q : Stream Metadata). map select_port q.items) (sym o)

-- A call of `port_selector` turns one metadata into its port.
port_selector-Same : (s : Demux) → Same (port_selector s) s
unfolding port_selector
port_selector-Same s = elim (Bool-cases (full s.selected_ports || full s.empty_stream)) [
  | inl t ↦ rw t (refl, refl, refl, refl)
  | inr f ↦ elim (Option-cases (read s.meta_to_select_port)) [
    | inl e ↦ rw (f, e, port_selector) (refl, refl, refl, refl)
    | inr ((m, t), e) ↦
        let moved =
          append_assoc s.selected_ports.items (select_port m ∷ []) (map select_port t.items)
          ∙ ap (λ (l : List Metadata). s.selected_ports.items ++ map select_port l)
              (sym (read-some s.meta_to_select_port e).0) in
        rw (f, e, port_selector)
          (ap (λ (l : List ℕ). s.port_to_meta_output.items ++ l) moved, refl, refl, refl)
  ]
]

-- A call of `dup_ports` moves a port on.
dup_ports-Same : (s : Demux) → Same (dup_ports s) s
unfolding dup_ports dup
dup_ports-Same s = elim (Bool-cases (any_full s.port_to_meta_output s.port_to_data_output)) [
  | inl t ↦ rw (t, dup) (refl, refl, refl, refl)
  | inr f ↦ elim (Option-cases (read s.selected_ports)) [
    | inl e ↦ rw (f, e, dup) (refl, refl, refl, refl)
    | inr ((port, t), e) ↦
        let later = map select_port s.meta_to_select_port.items in
        let moved =
          append_assoc s.port_to_meta_output.items (port ∷ []) (t.items ++ later)
          ∙ ap (λ (l : List ℕ). s.port_to_meta_output.items ++ (l ++ later))
              (sym (read-some s.selected_ports e).0) in
        rw (f, e, dup) (moved, refl, refl, refl)
  ]
]

demux_data_in-Same :
    (st : State) (s : Demux) (words : Stream Flit) (tc : TcPorts)
    → let (t, words', tc') = demux_data_in st s words tc in Same t s × (tc'.meta ≡ tc.meta)
unfolding demux_data_in
demux_data_in-Same idle s words tc = elim (Option-cases (read s.empty_stream)) [
  | inl e ↦ rw (e, demux_data_in) ((refl, refl, refl, refl), refl)
  | inr ((b, t), e) ↦ elim (Option-cases (read s.port_to_data_output)) [
    | inl g ↦ rw (e, g, demux_data_in) ((refl, refl, refl, refl), refl)
    | inr ((port, u), g) ↦ rw (e, g, demux_data_in) ((refl, refl, refl, refl), refl)
  ]
]
demux_data_in-Same stream s words tc = elim (Bool-cases (full (tc.words s.data_port))) [
  | inl t ↦ rw t ((refl, refl, refl, refl), refl)
  | inr f ↦ elim (Option-cases (read words)) [
    | inl e ↦ rw (f, e, demux_data_in) ((refl, refl, refl, refl), refl)
    | inr ((d, t), e) ↦ rw (f, e, demux_data_in) ((refl, refl, refl, refl), refl)
  ]
]

map-snoc :
    (ms : List Metadata) (m : Metadata)
    → map select_port (ms ++ m ∷ []) ≡ map select_port ms ++ select_port m ∷ []
map-snoc [] m = refl
map-snoc (x ∷ ms) m = ap (λ (l : List ℕ). select_port x ∷ l) (map-snoc ms m)

-- The same metadata at the end of both ways.
longer :
    (s : Demux) (m : Metadata)
    → IsRouted s
    → taken s.meta_state s.meta_port
        ++ (s.port_to_meta_output.items
            ++ (s.selected_ports.items ++ map select_port (s.meta_to_select_port.items ++ m ∷ [])))
      ≡ map select_port (s.meta_to_output.items ++ m ∷ [])
longer s m h =
    let a = taken s.meta_state s.meta_port in
    let b = s.port_to_meta_output.items in
    let c = s.selected_ports.items in
    let d = map select_port s.meta_to_select_port.items in
    let p = select_port m ∷ [] in
    ap (λ (l : List ℕ). a ++ (b ++ (c ++ l))) (map-snoc s.meta_to_select_port.items m)
    ∙ ap (λ (l : List ℕ). a ++ (b ++ l)) (sym (append_assoc c d p))
    ∙ ap (λ (l : List ℕ). a ++ l) (sym (append_assoc b (c ++ d) p))
    ∙ sym (append_assoc a (b ++ (c ++ d)) p)
    ∙ ap (λ (l : List ℕ). l ++ p) h
    ∙ sym (map-snoc s.meta_to_output.items m)

-- `dup_metadata` keeps the metadata that wait, followed by those to come, and their ports.
dup_metadata-IsRouted :
    (metadata_in : Stream Metadata) (s : Demux)
    → IsRouted s
    → let (rest, t) = dup_metadata metadata_in s in
      IsRouted t
      × (t.meta_to_output.items ++ rest.items ≡ s.meta_to_output.items ++ metadata_in.items)
unfolding dup_metadata dup
dup_metadata-IsRouted metadata_in s h =
    elim (Bool-cases (any_full s.meta_to_select_port s.meta_to_output)) [
      | inl t ↦ rw (t, dup) (h, refl)
      | inr f ↦ elim (Option-cases (read metadata_in)) [
        | inl e ↦ rw (f, e, dup) (h, refl)
        | inr ((m, rest), e) ↦
            rw (f, e, dup) (longer s m h, read-write metadata_in s.meta_to_output e)
      ]
    ]

-- A metadata written to its own port stands before what waits for that port.
write-for_port :
    (metas : ℕ → Stream Metadata) (m : Metadata) (k : ℕ) (ms : List Metadata)
    → (store metas (select_port m) (write (metas (select_port m)) m) k).items ++ for_port k ms
      ≡ (metas k).items ++ for_port k (m ∷ ms)
write-for_port metas m k ms = elim (Bool-cases (select_port m == k)) [
  | inl t ↦
      let here : select_port m ≡ k = (==_iff (select_port m) k).0 t in
      let own = (metas (select_port m)).items in
      rw t (
        append_assoc own (m ∷ []) (for_port k ms)
        ∙ ap (λ (j : ℕ). (metas j).items ++ m ∷ for_port k ms) here)
  | inr f ↦ rw f refl
]

-- The metadata written to each port, followed by those that wait for it, are the same.
abbrev Kept : List Metadata → TcPorts → List Metadata → TcPorts → Type 0
Kept ms tc' ms' tc =
    (k : ℕ) → (tc'.meta k).items ++ for_port k ms ≡ (tc.meta k).items ++ for_port k ms'

demux_meta_in-IsRouted :
    (st : MetaState) (s : Demux) (tc : TcPorts)
    → s.meta_state ≡ st
    → IsRouted s
    → let (t, tc') = demux_meta_in st s tc in
      IsRouted t × Kept t.meta_to_output.items tc' s.meta_to_output.items tc
unfolding demux_meta_in
demux_meta_in-IsRouted meta_idle s tc e h = elim (Option-cases (read s.port_to_meta_output)) [
  | inl g ↦ rw (g, demux_meta_in) (h, λ (k : ℕ). refl)
  | inr ((port, rest), g) ↦
      let later = s.selected_ports.items ++ map select_port s.meta_to_select_port.items in
      let h' =
        subst
          (λ (x : MetaState).
            taken x s.meta_port ++ coming s ≡ map select_port s.meta_to_output.items)
          e h in
      rw (g, demux_meta_in)
        (
          ap (λ (l : List ℕ). l ++ later) (sym (read-some s.port_to_meta_output g).0) ∙ h',
          λ (k : ℕ). refl,
        )
]
demux_meta_in-IsRouted write_metadata s tc e h = elim (Bool-cases (full (tc.meta s.meta_port))) [
  | inl t ↦ rw t (h, λ (k : ℕ). refl)
  | inr f ↦ elim (Option-cases (read s.meta_to_output)) [
    | inl g ↦ rw (f, g, demux_meta_in) (h, λ (k : ℕ). refl)
    | inr ((m, rest), g) ↦
        let h' =
          subst
            (λ (x : MetaState).
              taken x s.meta_port ++ coming s ≡ map select_port s.meta_to_output.items)
            e h in
        let ms = (read-some s.meta_to_output g).0 in
        let q = h' ∙ ap (λ (l : List Metadata). map select_port l) ms in
        let own : select_port m ≡ s.meta_port = cc in
        let others : coming s ≡ map select_port rest.items = cc in
        rw (f, g, demux_meta_in)
          (
            others,
            λ (k : ℕ).
                ap
                  (λ (j : ℕ).
                    (store tc.meta j (write (tc.meta j) m) k).items ++ for_port k rest.items)
                  (sym own)
                ∙ write-for_port tc.meta m k rest.items
                ∙ ap (λ (l : List Metadata). (tc.meta k).items ++ for_port k l) (sym ms),
          )
  ]
]

-- More metadata may follow on both sides.
followed :
    (k : ℕ) (a a' ms ms' ws : List Metadata)
    → a ++ for_port k ms ≡ a' ++ for_port k ms'
    → a ++ for_port k (ms ++ ws) ≡ a' ++ for_port k (ms' ++ ws)
followed k a a' ms ms' ws e =
    apart a ms ∙ ap (λ (l : List Metadata). l ++ for_port k ws) e ∙ sym (apart a' ms')
  where
    apart :
        (b ns : List Metadata) → b ++ for_port k (ns ++ ws) ≡ (b ++ for_port k ns) ++ for_port k ws
    apart b ns =
        ap (λ (l : List Metadata). b ++ l) (for_port-append k ns ws)
        ∙ sym (append_assoc b (for_port k ns) (for_port k ws))

-- What a call of `demux` leaves: the ports on their way still those of the metadata that wait, and
-- for each port the metadata written, followed by those that wait or come for it, as before.
abbrev pub Routed :
    Demux → Stream Metadata → TcPorts → Demux × Stream Metadata × Stream Flit × TcPorts → Type 0
Routed s metadata_in tc (s', rest, _, tc') =
    IsRouted s'
    × ((k : ℕ)
        → (tc'.meta k).items ++ for_port k (s'.meta_to_output.items ++ rest.items)
          ≡ (tc.meta k).items ++ for_port k (s.meta_to_output.items ++ metadata_in.items))

-- While the ports on their way are those of the waiting metadata, a call of `demux` writes each
-- metadata to the port that `select_port` gives for it and to no other, loses none, and keeps the
-- order for each port.
pub demux-Routed :
    (s : Demux) (metadata_in : Stream Metadata) (data_in : Stream Flit) (tc : TcPorts)
    → IsRouted s
    → Routed s metadata_in tc (demux s metadata_in data_in tc)
unfolding demux demux_meta demux_data
demux-Routed s metadata_in data_in tc h =
    let (rest, s1) = dup_metadata metadata_in s in
    let (h1, same1) = dup_metadata-IsRouted metadata_in s h in
    let s2 = port_selector s1 in
    let s3 = dup_ports s2 in
    let frame2 = port_selector-Same s1 in
    let frame3 = dup_ports-Same s2 in
    let h2 = IsRouted-Same s2 s1 frame2 h1 in
    let h3 = IsRouted-Same s3 s2 frame3 h2 in
    let (s4, tc1) = demux_meta_in s3.meta_state s3 tc in
    let (h4, kept) = demux_meta_in-IsRouted s3.meta_state s3 tc refl h3 in
    let (s5, _, tc2) = demux_data_in s4.state s4 data_in tc1 in
    let (frame5, metas) = demux_data_in-Same s4.state s4 data_in tc1 in
    (
      IsRouted-Same s5 s4 frame5 h4,
      λ (k : ℕ).
          (λ i. (metas i k).items ++ for_port k ((frame5.1 i).items ++ rest.items))
          ∙ followed k (tc1.meta k).items (tc.meta k).items s4.meta_to_output.items
              s3.meta_to_output.items rest.items (kept k)
          ∙ ap (λ (q : Stream Metadata). (tc.meta k).items ++ for_port k (q.items ++ rest.items))
              (frame3.1 ∙ frame2.1)
          ∙ ap (λ (l : List Metadata). (tc.meta k).items ++ for_port k l) same1,
    )
