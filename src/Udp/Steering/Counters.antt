-- ===== src/Udp/Steering/Counters.antt =====
-- The counters of actions.
use nica.Base.{
  ℕ, ◌+◌, ◌%◌, ◌^◌, ◌≡◌, Bool, true, false, ◌||◌, ◌==◌, List, [], ◌∷◌, if◌then◌else◌, refl, inl,
  inr, Bool-cases, Option-cases, arith,
}
use nica.Stream.{full, read, read-some}
use nica.FlowTable.{Result}
use nica.Udp.Steering.{
  Steering, bump, count_action, update_stats_actions, is_ikernel, is_passthrough, ft_drop,
}

abbrev pub is_drop : Result → Bool
is_drop r = r.v.action == ft_drop

abbrev pub number : (Result → Bool) → List Result → ℕ
number p [] = 0
number p (r ∷ rs) = (if p r then 1 else 0) + number p rs

-- What the counters will show when the remaining decisions are counted.
abbrev pub counted : Steering → ℕ × ℕ × ℕ
counted s = (
  (s.stats.ft_action_passthrough + number is_passthrough s.ft_results.items) % 2 ^ 32,
  (s.stats.ft_action_drop + number is_drop s.ft_results.items) % 2 ^ 32,
  (s.stats.ft_action_ikernel + number is_ikernel s.ft_results.items) % 2 ^ 32,
)

bump-number :
    (b : Bool) (n k : ℕ) → (bump b n + k) % 2 ^ 32 ≡ (n + ((if b then 1 else 0) + k)) % 2 ^ 32
unfolding bump
bump-number true n k = omega arith
bump-number false n k = omega arith

-- Every call counts the decision that it takes under its action, once, modulo 2 ^ 32, and publishes
-- the counters as they were before the call.
pub update_stats_actions-counted :
    (s : Steering)
    → let t = update_stats_actions s in
      ((counted t).0 ≡ (counted s).0)
      × ((counted t).1 ≡ (counted s).1)
      × ((counted t).2 ≡ (counted s).2)
      × (t.published.ft_action_passthrough ≡ s.stats.ft_action_passthrough)
      × (t.published.ft_action_drop ≡ s.stats.ft_action_drop)
      × (t.published.ft_action_ikernel ≡ s.stats.ft_action_ikernel)
unfolding update_stats_actions count_action
update_stats_actions-counted s = elim (Bool-cases (full s.matched || full s.pass_raw)) [
  | inl e ↦ rw e (refl, refl, refl, refl, refl, refl)
  | inr e ↦ elim (Option-cases (read s.ft_results)) [
    | inl f ↦ rw (update_stats_actions, e, f) (refl, refl, refl, refl, refl, refl)
    | inr ((r, rs), f) ↦
        rw (update_stats_actions, e, f, (read-some s.ft_results f).0)
          (
            bump-number (is_passthrough r) s.stats.ft_action_passthrough
                (number is_passthrough rs.items),
            bump-number (is_drop r) s.stats.ft_action_drop (number is_drop rs.items),
            bump-number (is_ikernel r) s.stats.ft_action_ikernel (number is_ikernel rs.items),
            refl,
            refl,
            refl,
          )
  ]
]
