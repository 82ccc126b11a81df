-- ===== src/Credits/Rings.antt =====
-- A ring never sends more messages than its credits.
use nica.Base.{
  ℕ, zero, suc, ◌+◌, ◌-◌, ◌%◌, ◌^◌, ◌<◌, ◌≡◌, ◌≢◌, refl, Bool, true, false, inl, inr, Bool-cases,
  arith, ◌⊎◌, ◌==◌, if◌then◌else◌,
}
use Prim.Native.Nat.{min}
use nica.Credits.{
  host, RingContext, ring_can_transmit, inc_msn, Credits, TcCounts, can_transmit, tc_has_room,
  new_message,
}

-- The messages that a ring may still send: from its number to the last that it may reach, which
-- may lie behind the wrap at 16 bits.
abbrev pub allowed : RingContext → ℕ
allowed c = (c.max_msn + 2 ^ 16 - c.msn) % 2 ^ 16

pub record RingFits (c : RingContext) : Type 0 where
  pub msn : c.msn < 2 ^ 16
  pub max_msn : c.max_msn < 2 ^ 16

-- What the ikernels do for a message to a ring: they send if `can_transmit` allows it.
unfoldable pub attempt : Credits → TcCounts → ℕ → ℕ → ℕ → Credits × Bool
attempt s tc id ring len =
    if can_transmit s tc id ring len host then (new_message s ring host, true) else (s, false)

-- A number of attempts on one ring, and how many of them sent a message.
unfoldable pub attempts : ℕ → Credits → TcCounts → ℕ → ℕ → ℕ → Credits × ℕ
unfolding attempt
attempts zero s tc id ring len = (s, 0)
attempts (suc n) s tc id ring len =
    let (s', sent) = attempt s tc id ring len in
    let (s'', more) = attempts n s' tc id ring len in (s'', (if sent then 1 else 0) + more)

allowed_step :
    (c : RingContext)
    → RingFits c
    → ring_can_transmit c ≡ true
    → allowed (inc_msn c) + 1 ≡ allowed c
unfolding ring_can_transmit inc_msn
allowed_step c f h = let n : c.msn ≢ c.max_msn = ground arith in omega arith

allowed_none : (c : RingContext) → RingFits c → ring_can_transmit c ≡ false → allowed c ≡ 0
unfolding ring_can_transmit
allowed_none c f h = let n : c.msn ≡ c.max_msn = ground arith in omega arith

inc_msn-RingFits : (c : RingContext) → RingFits c → RingFits (inc_msn c)
unfolding inc_msn
inc_msn-RingFits c f = omega arith

new_message-at :
    (s : Credits) (ring : ℕ)
    → (new_message s ring host).host_credits (ring - 1) ≡ inc_msn (s.host_credits (ring - 1))
unfolding new_message
new_message-at s ring = ground arith

module _ (tc : TcCounts) (id ring len : ℕ) (r : ring ≢ 0) where
  attempt_go :
      (s : Credits)
      → tc_has_room tc id len ≡ true
      → ring_can_transmit (s.host_credits (ring - 1)) ≡ true
      → attempt s tc id ring len ≡ (new_message s ring host, true)
  unfolding attempt can_transmit
  attempt_go s room go = let named : (ring == 0) ≡ false = ground arith in rw (named, go, room)

  attempt_blocked :
      (s : Credits)
      → (tc_has_room tc id len ≡ false) ⊎ (ring_can_transmit (s.host_credits (ring - 1)) ≡ false)
      → attempt s tc id ring len ≡ (s, false)
  unfolding attempt can_transmit
  attempt_blocked s (inl room) = rw room (ground arith)
  attempt_blocked s (inr stop) = let named : (ring == 0) ≡ false = ground arith in rw (named, stop)

  attempts_with_room :
      (n : ℕ) (s : Credits)
      → tc_has_room tc id len ≡ true
      → RingFits (s.host_credits (ring - 1))
      → (attempts n s tc id ring len).1 ≡ min n (allowed (s.host_credits (ring - 1)))
  unfolding attempts
  attempts_with_room zero s room f = omega arith
  attempts_with_room (suc n) s room f =
      let c = s.host_credits (ring - 1) in
      elim (Bool-cases (ring_can_transmit c)) [
        | inl go ↦
            let s' = new_message s ring host in
            let at = new_message-at s ring in
            let ih = attempts_with_room n s' room (rw at (inc_msn-RingFits c f)) in
            rw (attempt_go s room go) (omega (arith, rw at at ih, allowed_step c f go))
        | inr stop ↦
            rw (attempt_blocked s (inr stop))
              (omega (arith, attempts_with_room n s room f, allowed_none c f stop))
      ]

  attempts_without_room :
      (n : ℕ) (s : Credits) → tc_has_room tc id len ≡ false → (attempts n s tc id ring len).1 ≡ 0
  unfolding attempts
  attempts_without_room zero s room = refl
  attempts_without_room (suc n) s room =
      rw (attempt_blocked s (inl room)) (omega (arith, attempts_without_room n s room))

  -- With room in the traffic class, `n` attempts on a custom ring, whose message numbers have 16
  -- bits, send the lesser of `n` and the ring's credits; without room they send nothing.
  pub attempts_sent :
      (n : ℕ) (s : Credits)
      → RingFits (s.host_credits (ring - 1))
      → (attempts n s tc id ring len).1
        ≡ (if tc_has_room tc id len then min n (allowed (s.host_credits (ring - 1))) else 0)
  attempts_sent n s f = elim (Bool-cases (tc_has_room tc id len)) [
    | inl room ↦ rw room (attempts_with_room n s room f)
    | inr room ↦ rw room (attempts_without_room n s room)
  ]
