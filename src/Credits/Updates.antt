-- ===== src/Credits/Updates.antt =====
-- The way of a credit update from the registers of the host to the ring's context.
use nica.Base.{
  ℕ, ◌-◌, ◌≤◌, ◌<◌, ◌≡◌, refl, ◌∙◌, ap, ==_iff, true, false, inl, inr, Bool-cases, Option-cases,
  arith, store, List, [], ◌∷◌, ◌++◌, ◌==◌, ◌||◌, if◌then◌else◌, leb,
}
use nica.Stream.{full, read, write, read-some, read-write_empty}
use nica.Credits.{
  Direction, host, net, RingContext, inc_msn, CreditRegs, Credits, new_message, update,
  host_credits_update, apply_regs, regs_eq, num_rings,
}

-- What may happen to the credits: the host writes the registers, the ikernel takes an update, and
-- the ikernel sends a message for a ring, which is not 0.
pub data Step (s : Credits) : Credits → Type 0 where
  host_writes : (regs : CreditRegs) → Step s (host_credits_update s regs)
  takes : Step s (update s).0
  sends : (ring : ℕ) (dir : Direction) → 1 ≤ ring → Step s (new_message s ring dir)

pub data Reach (s : Credits) : Credits → Type 0 where
  here : Reach s s
  next : {t u : Credits} → Reach s t → Step t u → Reach s u

abbrev pub AllSafe : List CreditRegs → Type 0
AllSafe [] = Unit {0}
AllSafe (r ∷ rs) = (1 ≤ r.ring_id) × (r.ring_id < num_rings) × AllSafe rs

AllSafe-append :
    (rs : List CreditRegs) (r : CreditRegs)
    → AllSafe rs
    → 1 ≤ r.ring_id
    → r.ring_id < num_rings
    → AllSafe (rs ++ r ∷ [])
AllSafe-append [] r h lo hi = (lo, hi, tt)
AllSafe-append (q ∷ rs) r h lo hi = (h.0, h.1, AllSafe-append rs r h.2 lo hi)

-- Every update on its way is for a ring from 1 to 63.
abbrev pub IsSafe : Credits → Type 0
IsSafe s = AllSafe s.credit_updates.items

host_writes-IsSafe :
    (s : Credits) (regs : CreditRegs) → IsSafe s → IsSafe (host_credits_update s regs)
unfolding host_credits_update
host_writes-IsSafe s regs h = elim (Bool-cases (full s.credit_updates)) [
  | inl stop ↦ rw stop h
  | inr go ↦ elim (Bool-cases (regs_eq s.last_host_credit_regs regs)) [
    | inl same ↦ rw (go, same) h
    | inr other ↦ elim (Bool-cases (regs.ring_id == 0 || leb num_rings regs.ring_id)) [
      | inl bad ↦ rw (go, other, bad) h
      | inr good ↦
          rw (go, other, good)
            (AllSafe-append s.credit_updates.items regs h (ground arith) (ground arith))
    ]
  ]
]

update-IsSafe : (s : Credits) → IsSafe s → IsSafe (update s).0
unfolding update
update-IsSafe s h = elim (Option-cases (read s.credit_updates)) [
  | inl e ↦ rw (e, update) h
  | inr ((regs, rest), e) ↦ rw (e, update) (rw (read-some s.credit_updates e).0 at h).2
]

new_message-IsSafe :
    (s : Credits) (ring : ℕ) (dir : Direction) → IsSafe s → IsSafe (new_message s ring dir)
unfolding new_message
new_message-IsSafe s ring host h = h
new_message-IsSafe s ring net h = h

Step-IsSafe : {s t : Credits} → Step s t → IsSafe s → IsSafe t
Step-IsSafe {s} (host_writes regs) h = host_writes-IsSafe s regs h
Step-IsSafe {s} takes h = update-IsSafe s h
Step-IsSafe {s} (sends ring dir lo) h = new_message-IsSafe s ring dir h

IsSafe-Reach : {s t : Credits} → Reach s t → IsSafe s → IsSafe t
IsSafe-Reach here h = h
IsSafe-Reach (next r st) h = Step-IsSafe st (IsSafe-Reach r h)

update-above :
    (s : Credits) → IsSafe s → (i : ℕ) → 63 ≤ i → (update s).0.host_credits i ≡ s.host_credits i
unfolding update
update-above s h i above = elim (Option-cases (read s.credit_updates)) [
  | inl e ↦ rw (e, update) refl
  | inr ((regs, rest), e) ↦
      let safe = rw (read-some s.credit_updates e).0 at h in
      let other : (regs.ring_id - 1 == i) ≡ false = ground (arith, safe.0, safe.1, above) in
      rw (e, update, other) refl
]

-- However the host and the ikernel act, from a state in which every update on its way is for a
-- ring from 1 to 63, it stays so, and `update` changes only contexts at the indices 0 to 62 of the
-- 64.
pub Reach-IsSafe :
    {s t : Credits}
    → Reach s t
    → IsSafe s
    → IsSafe t × ((i : ℕ) → 63 ≤ i → (update t).0.host_credits i ≡ t.host_credits i)
Reach-IsSafe {t = t} r h = let safe = IsSafe-Reach r h in (safe, update-above t safe)

host_writes-limit :
    (s : Credits) (regs : CreditRegs) → (host_credits_update s regs).host_credits ≡ s.host_credits
unfolding host_credits_update
host_writes-limit s regs = elim (Bool-cases (full s.credit_updates)) [
  | inl stop ↦ rw stop
  | inr go ↦ elim (Bool-cases (regs_eq s.last_host_credit_regs regs)) [
    | inl same ↦ rw (go, same)
    | inr other ↦ elim (Bool-cases (regs.ring_id == 0 || leb num_rings regs.ring_id)) [
      | inl bad ↦ rw (go, other, bad)
      | inr good ↦ rw (go, other, good)
    ]
  ]
]

update-limit :
    (s : Credits) → IsSafe s → ((update s).0.host_credits 63).max_msn ≡ (s.host_credits 63).max_msn
update-limit s h = ap (λ (c : RingContext). c.max_msn) (update-above s h 63 (omega arith))

sends-limit :
    (s : Credits) (ring : ℕ) (dir : Direction)
    → ((new_message s ring dir).host_credits 63).max_msn ≡ (s.host_credits 63).max_msn
unfolding new_message inc_msn
sends-limit s ring host = ground arith
sends-limit s ring net = refl

Step-limit :
    {s t : Credits}
    → Step s t
    → IsSafe s
    → (t.host_credits 63).max_msn ≡ (s.host_credits 63).max_msn
Step-limit {s} (host_writes regs) h =
    ap (λ (c : ℕ → RingContext). (c 63).max_msn) (host_writes-limit s regs)
Step-limit {s} takes h = update-limit s h
Step-limit {s} (sends ring dir lo) h = sends-limit s ring dir

-- Ring 64, whose context is the last one, never gets a credit: whatever the host writes, the
-- limit of its messages stays what it was.
pub ring_64_limit :
    {s t : Credits}
    → Reach s t
    → IsSafe s
    → (t.host_credits 63).max_msn ≡ (s.host_credits 63).max_msn
ring_64_limit here h = refl
ring_64_limit (next r st) h = Step-limit st (IsSafe-Reach r h) ∙ ring_64_limit r h

host_writes-queued :
    (s : Credits) (regs : CreditRegs)
    → full s.credit_updates ≡ false
    → 1 ≤ regs.ring_id
    → regs.ring_id < num_rings
    → regs_eq s.last_host_credit_regs regs ≡ false
    → host_credits_update s regs
      ≡ record s { credit_updates = write s.credit_updates regs; last_host_credit_regs = regs }
unfolding host_credits_update
host_writes-queued s regs go lo hi new =
    let good : (regs.ring_id == 0 || leb num_rings regs.ring_id) ≡ false = ground arith in
    rw (go, new, good)

-- What the registers ask for: their limit, and message number 0 if they reset.
abbrev pub updated : CreditRegs → RingContext → RingContext
updated regs c = record { msn = if regs.reset then 0 else c.msn; max_msn = regs.max_msn }

-- An update for a ring from 1 to 63 that differs from the last one, written while no other is on
-- its way and the queue has room, is what the next `update` stores: the limit, and message number
-- 0 if it asks for a reset. The other rings keep their contexts.
pub update-host_credits_update :
    (s : Credits) (regs : CreditRegs)
    → s.credit_updates.items ≡ []
    → 1 ≤ s.credit_updates.depth
    → 1 ≤ regs.ring_id
    → regs.ring_id < num_rings
    → regs_eq s.last_host_credit_regs regs ≡ false
    → let (t, taken) = update (host_credits_update s regs) in
      (taken ≡ true)
      × ((i : ℕ)
          → t.host_credits i
            ≡ (if regs.ring_id - 1 == i then updated regs (s.host_credits i) else s.host_credits i))
unfolding update apply_regs
update-host_credits_update s regs none_waits room lo hi new =
    let go : full s.credit_updates ≡ false = rw none_waits (ground arith) in
    rw
      (
        host_writes-queued s regs go lo hi new,
        read-write_empty s.credit_updates regs none_waits,
        update,
      )
      (refl, λ i. rw (host_writes-limit s regs) (applied i))
  where
    applied :
        (i : ℕ)
        → store s.host_credits
            (regs.ring_id - 1)
            (apply_regs regs (s.host_credits (regs.ring_id - 1)))
            i
          ≡ (if regs.ring_id - 1 == i then updated regs (s.host_credits i) else s.host_credits i)
    applied i = elim (Bool-cases (regs.ring_id - 1 == i)) [
      | inl e ↦ rw e (ap (λ (j : ℕ). updated regs (s.host_credits j)) ((==_iff _ _).0 e))
      | inr e ↦ rw e
    ]
