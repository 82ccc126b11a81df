-- ===== src/Udp/Steering/Decisions.antt =====
-- What the flow table and the checks decide reaches the dropper, the host and the ikernels.
use nica.Base.{
  ◌+◌, ◌≤◌, ◌%◌, ◌^◌, ◌≡◌, Bool, true, false, ◌||◌, ltb, List, [], ◌∷◌, ◌++◌, map, if◌then◌else◌,
  refl, ap, ◌∙◌, inl, inr, Bool-cases, Option-cases, arith,
}
use nica.Stream.{full, read, read-some, items-write_if}
use nica.Metadata.{Metadata}
use nica.FlowTable.{Result}
use nica.Udp.{HeaderBuffer, header_of_bits, metadata_to_header}
use nica.Udp.Steering.{
  Checks, Steering, checks_of, hdr_checks, decide, is_ikernel, is_passthrough, checks_to_action,
  update_stats_checks, update_stats_actions, steer_decisions,
}
use mathlib.Core.List.{append_assoc}

abbrev pub checks_of_buffer : Bool → HeaderBuffer → Checks
checks_of_buffer enable buf = checks_of enable (header_of_bits buf.hdr)

-- A decision for each pair of checks and an answer of the flow table.
abbrev pub decided : List Checks → List Result → List Result
decided [] rs = []
decided (c ∷ cs) [] = []
decided (c ∷ cs) (r ∷ rs) = decide c r ∷ decided cs rs

abbrev pub to_ikernels : List Result → List Result
to_ikernels [] = []
to_ikernels (r ∷ rs) = (if is_ikernel r then r ∷ [] else []) ++ to_ikernels rs

-- The decisions to come.
abbrev pub coming : Bool → Steering → List Result
coming enable s =
    decided (s.checks_to_actions.items ++ map (checks_of_buffer enable) s.hdr_dup_to_checks.items)
      s.ft_to_action.items

-- The decisions out to the dropper, to `pass_raw` and to the crossbar, with those to come.
abbrev pub decisions : Bool → Steering → List Result
decisions enable s = s.ft_results.items ++ coming enable s

abbrev pub all_matched : Bool → Steering → List Bool
all_matched enable s = s.matched.items ++ map is_ikernel (decisions enable s)

abbrev pub all_passed : Bool → Steering → List Bool
all_passed enable s = s.pass_raw.items ++ map is_passthrough (decisions enable s)

abbrev pub all_results : Bool → Steering → List Result
all_results enable s = s.result_out.items ++ to_ikernels (coming enable s)

-- Two states agree on everything that is decided.
abbrev pub Agree : Bool → Steering → Steering → Type 0
Agree enable s t =
    (all_matched enable s ≡ all_matched enable t)
    × (all_passed enable s ≡ all_passed enable t)
    × (all_results enable s ≡ all_results enable t)

Agree-trans :
    (enable : Bool) (s t u : Steering) → Agree enable s t → Agree enable t u → Agree enable s u
Agree-trans enable s t u (a, b, c) (a', b', c') = (a ∙ a', b ∙ b', c ∙ c')

Agree-hdr_checks : (enable : Bool) (s : Steering) → Agree enable (hdr_checks enable s) s
unfolding hdr_checks
Agree-hdr_checks enable s = elim (Bool-cases (full s.checks_to_actions)) [
  | inl e ↦ rw e (refl, refl, refl)
  | inr e ↦ elim (Option-cases (read s.hdr_dup_to_checks)) [
    | inl f ↦ rw (e, f) (refl, refl, refl)
    | inr ((h, hs), f) ↦
        rw
          (
            hdr_checks,
            e,
            f,
            (read-some s.hdr_dup_to_checks f).0,
            append_assoc s.checks_to_actions.items (checks_of_buffer enable h ∷ [])
                (map (checks_of_buffer enable) hs.items),
          )
          (refl, refl, refl)
  ]
]

Agree-checks_to_action : (enable : Bool) (s : Steering) → Agree enable (checks_to_action s) s
unfolding checks_to_action
Agree-checks_to_action enable s = elim (Bool-cases (full s.ft_results || full s.result_out)) [
  | inl e ↦ rw e (refl, refl, refl)
  | inr e ↦ elim (Option-cases (read s.checks_to_actions)) [
    | inl f ↦ rw (e, f) (refl, refl, refl)
    | inr ((c, cs), f) ↦ elim (Option-cases (read s.ft_to_action)) [
      | inl g ↦ rw (e, f, g) (refl, refl, refl)
      | inr ((r, rs), g) ↦
          let rest =
            decided (cs.items ++ map (checks_of_buffer enable) s.hdr_dup_to_checks.items)
              rs.items in
          let same = append_assoc s.ft_results.items (decide c r ∷ []) rest in
          rw
            (
              checks_to_action,
              e,
              f,
              g,
              (read-some s.checks_to_actions f).0,
              (read-some s.ft_to_action g).0,
            )
            (
              ap (λ (l : List Result). s.matched.items ++ map is_ikernel l) same,
              ap (λ (l : List Result). s.pass_raw.items ++ map is_passthrough l) same,
              items-write_if (is_ikernel (decide c r)) s.result_out (decide c r) (to_ikernels rest),
            )
    ]
  ]
]

Agree-update_stats_checks : (enable : Bool) (s : Steering) → Agree enable (update_stats_checks s) s
unfolding update_stats_checks
Agree-update_stats_checks enable s = elim (Option-cases (read s.checks_to_stats)) [
  | inl f ↦ rw (update_stats_checks, f) (refl, refl, refl)
  | inr ((c, cs), f) ↦ rw (update_stats_checks, f) (refl, refl, refl)
]

Agree-update_stats_actions :
    (enable : Bool) (s : Steering) → Agree enable (update_stats_actions s) s
unfolding update_stats_actions
Agree-update_stats_actions enable s = elim (Bool-cases (full s.matched || full s.pass_raw)) [
  | inl e ↦ rw e (refl, refl, refl)
  | inr e ↦ elim (Option-cases (read s.ft_results)) [
    | inl f ↦ rw (update_stats_actions, e, f) (refl, refl, refl)
    | inr ((r, rs), f) ↦
        rw (update_stats_actions, e, f, (read-some s.ft_results f).0)
          (
            append_assoc s.matched.items (is_ikernel r ∷ [])
                (map is_ikernel (rs.items ++ coming enable s)),
            append_assoc s.pass_raw.items (is_passthrough r ∷ [])
                (map is_passthrough (rs.items ++ coming enable s)),
            refl,
          )
  ]
]

-- The checks of a header and the answer of the flow table decide alike for the dropper, for
-- `pass_raw` and for the crossbar, in the order of the headers: every call of the elements around
-- the flow table keeps each of the three outputs together with what is still to be decided for it.
pub steer_decisions-Agree :
    (enable : Bool) (s : Steering) → Agree enable (steer_decisions (hdr_checks enable s)) s
unfolding steer_decisions
steer_decisions-Agree enable s =
    let a = hdr_checks enable s in
    let b = checks_to_action a in
    let c = update_stats_checks b in
    Agree-trans enable (update_stats_actions c) c s (Agree-update_stats_actions enable c) (
      Agree-trans enable c b s (Agree-update_stats_checks enable b)
        (Agree-trans enable b a s (Agree-checks_to_action enable a) (Agree-hdr_checks enable s)))

-- A packet whose header the builder made from metadata of at most 65507 bytes of data passes every
-- check of an enabled steering unit: the flow table alone decides on it.
pub decide-metadata_to_header :
    (m : Metadata) (r : Result)
    → m.length ≤ 65507
    → decide (checks_of true (metadata_to_header m)) r ≡ r
unfolding decide checks_of metadata_to_header
decide-metadata_to_header m r h =
    let long_enough : ltb ((28 + m.length) % 2 ^ 16) 28 ≡ false = ground arith in
    rw long_enough refl
