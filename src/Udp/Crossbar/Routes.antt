-- ===== src/Udp/Crossbar/Routes.antt =====
-- Every ikernel gets the headers, decisions and data of its own packets, in order.
use nica.Base.{
  ℕ, zero, suc, ◌<◌, ◌≡◌, Bool, true, false, ◌==◌, ltb, List, [], ◌∷◌, ◌++◌, store, if◌then◌else◌,
  refl, ap, ◌∙◌, inl, inr, Bool-cases, Option-cases, arith,
}
use mathlib.Core.List.{append_assoc}
use mathlib.Core.Path.{subst}
use nica.Stream.{Stream, full, read, write, read-some}
use nica.Flit.{Flit}
use nica.PerPacket.{per_packet}
use nica.FlowTable.{Result}
use nica.Udp.{HeaderBuffer}
use nica.Udp.Crossbar.{
  Mode, idle, stream, Crossbar, is_empty, any_full, route, take_decision, forward, cross_in,
  crossbar, run,
}

abbrev pub only : {A : Type 0} → Bool → A → List A
only b x = if b then x ∷ [] else []

-- The headers and the decisions of ikernel `i`.
abbrev pub headers_for : ℕ → List Result → List HeaderBuffer → List HeaderBuffer
headers_for i [] hs = []
headers_for i (r ∷ rs) [] = []
headers_for i (r ∷ rs) (h ∷ hs) = only (r.v.engine_id == i) h ++ headers_for i rs hs

abbrev pub results_for : ℕ → List Result → List HeaderBuffer → List Result
results_for i [] hs = []
results_for i (r ∷ rs) [] = []
results_for i (r ∷ rs) (h ∷ hs) = only (r.v.engine_id == i) r ++ results_for i rs hs

-- The engines of the packets that have data.
abbrev pub engines : List Result → List HeaderBuffer → List ℕ
engines [] hs = []
engines (r ∷ rs) [] = []
engines (r ∷ rs) (h ∷ hs) = (if is_empty h then [] else r.v.engine_id ∷ []) ++ engines rs hs

abbrev pub data_for : ℕ → List ℕ → List Flit → List Flit
data_for i =
    per_packet (λ (w : Flit). w.last) (λ (e : ℕ) (w : Flit). only (e == i) w)
      (λ (e : ℕ) (w : Flit). e)

abbrev pub open_entry : Mode → ℕ → List ℕ
open_entry idle e = []
open_entry stream e = e ∷ []

abbrev pub all_headers : ℕ → Crossbar → List HeaderBuffer
all_headers i s = (s.hdr_out i).items ++ headers_for i s.steer_results.items s.hdr_in.items

abbrev pub all_results : ℕ → Crossbar → List Result
all_results i s = (s.ft_results i).items ++ results_for i s.steer_results.items s.hdr_in.items

abbrev pub all_data : ℕ → Crossbar → List Flit
all_data i s =
    (s.data_out i).items
    ++ data_for i
        (open_entry s.mode s.current_steering_decision.v.engine_id
          ++ engines s.steer_results.items s.hdr_in.items)
        s.data_in.items

abbrev pub EnginesBelow : ℕ → List Result → Type 0
EnginesBelow n [] = Unit {0}
EnginesBelow n (r ∷ rs) = (r.v.engine_id < n) × EnginesBelow n rs

-- What ikernel `i` has got and is to get is the same in two states.
abbrev pub SameRoutes : ℕ → Crossbar → Crossbar → Type 0
SameRoutes i s t =
    (all_headers i s ≡ all_headers i t)
    × (all_results i s ≡ all_results i t)
    × (all_data i s ≡ all_data i t)

-- A write to the output of engine `e`, seen at output `i`.
items-store :
    {A : Type 0} (f : ℕ → Stream A) (e i : ℕ) (x : A) (rest : List A)
    → (store f e (write (f e) x) i).items ++ rest ≡ (f i).items ++ (only (e == i) x ++ rest)
items-store f e i x rest = elim (Bool-cases (e == i)) [
  | inl t ↦ let same : e ≡ i = ground arith in rw (t, same) (append_assoc (f i).items (x ∷ []) rest)
  | inr t ↦ rw t refl
]

opened : (b : Bool) (e : ℕ) → open_entry (if b then idle else stream) e ≡ (if b then [] else e ∷ [])
opened true e = refl
opened false e = refl

forwarded :
    (l : Bool) (f : ℕ → Stream Flit) (e i : ℕ) (w : Flit) (es : List ℕ) (ws : List Flit)
    → (store f e (write (f e) w) i).items
        ++ data_for i (open_entry (if l then idle else stream) e ++ es) ws
      ≡ (f i).items ++ (only (e == i) w ++ data_for i (if l then es else e ∷ es) ws)
forwarded true f e i w es ws = items-store f e i w (data_for i es ws)
forwarded false f e i w es ws = items-store f e i w (data_for i (e ∷ es) ws)

module _ (n : ℕ) (none_read : HeaderBuffer) where
  SameRoutes-take_decision :
      (s : Crossbar) (i : ℕ)
      → s.mode ≡ idle
      → EnginesBelow n s.steer_results.items
      → SameRoutes i (take_decision n none_read s) s
        × EnginesBelow n (take_decision n none_read s).steer_results.items
  unfolding take_decision route
  SameRoutes-take_decision s i m b = elim (Bool-cases (any_full n s)) [
    | inl e ↦ rw e ((refl, refl, refl), b)
    | inr e ↦ elim (Option-cases (read s.steer_results)) [
      | inl f ↦ rw (e, f) ((refl, refl, refl), b)
      | inr ((r, rs), f) ↦ elim (Option-cases (read s.hdr_in)) [
        | inl g ↦ rw (e, f, g) ((refl, refl, refl), b)
        | inr ((h, hs), g) ↦
            let (below, rest) =
              subst (λ (l : List Result). EnginesBelow n l) (read-some s.steer_results f).0 b in
            let engine : ltb r.v.engine_id n ≡ true = ground arith in
            rw
              (
                take_decision,
                e,
                f,
                g,
                engine,
                m,
                (read-some s.steer_results f).0,
                (read-some s.hdr_in g).0,
              )
              (
                (
                  items-store s.hdr_out r.v.engine_id i h (headers_for i rs.items hs.items),
                  items-store s.ft_results r.v.engine_id i r (results_for i rs.items hs.items),
                  ap
                      (λ (es : List ℕ).
                        (s.data_out i).items
                        ++ data_for i (es ++ engines rs.items hs.items) s.data_in.items)
                      (opened (is_empty h) r.v.engine_id),
                ),
                rest,
              )
      ]
    ]
  ]

  SameRoutes-forward : (s : Crossbar) (i : ℕ) → s.mode ≡ stream → SameRoutes i (forward n s) s
  unfolding forward
  SameRoutes-forward s i m = elim (Bool-cases (ltb s.current_steering_decision.v.engine_id n)) [
    | inl e ↦ elim (Option-cases (read s.data_in)) [
      | inl f ↦ rw (forward, e, f) (refl, refl, refl)
      | inr ((d, ds), f) ↦
          elim (Bool-cases (full (s.data_out s.current_steering_decision.v.engine_id))) [
            | inl g ↦ rw (forward, e, f, g) (refl, refl, refl)
            | inr g ↦
                rw (forward, e, f, g, m, (read-some s.data_in f).0)
                  (
                    refl,
                    refl,
                    forwarded d.last s.data_out s.current_steering_decision.v.engine_id i d
                        (engines s.steer_results.items s.hdr_in.items) ds.items,
                  )
          ]
    ]
    | inr e ↦ rw e (refl, refl, refl)
  ]

  steer_results-forward : (s : Crossbar) → (forward n s).steer_results ≡ s.steer_results
  unfolding forward
  steer_results-forward s = ground arith

  SameRoutes-cross_in :
      (m : Mode) (s : Crossbar) (i : ℕ)
      → s.mode ≡ m
      → EnginesBelow n s.steer_results.items
      → SameRoutes i (cross_in n none_read m s) s
        × EnginesBelow n (cross_in n none_read m s).steer_results.items
  unfolding cross_in
  SameRoutes-cross_in idle s i e b = SameRoutes-take_decision s i e b
  SameRoutes-cross_in stream s i e b = (SameRoutes-forward s i e, rw (steer_results-forward s) b)

  -- While every decision names an existing engine, however many calls are made, each ikernel's
  -- headers, decisions and data, those out together with those still to come to it, stay the same:
  -- an ikernel gets whole packets, its own and no others, in the order of the input.
  pub run-SameRoutes :
      (k : ℕ) (s : Crossbar) (i : ℕ)
      → EnginesBelow n s.steer_results.items
      → SameRoutes i (run n none_read k s) s
  unfolding run crossbar
  run-SameRoutes zero s i b = (refl, refl, refl)
  run-SameRoutes (suc k) s i b =
      let ((h, r, d), below) = SameRoutes-cross_in s.mode s i refl b in
      let (h', r', d') = run-SameRoutes k (crossbar n none_read s) i below in
      (h' ∙ h, r' ∙ r, d' ∙ d)
