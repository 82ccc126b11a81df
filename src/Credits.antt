-- ===== src/Credits.antt =====
-- Flow control of nica/hls/ikernel.cpp and the class `ikernel` of nica/hls/ikernel.hpp: the credits
-- of the custom rings, their updates, and the test before a packet is sent.
pub mod Rings
pub mod Updates
pub mod Tests
use nica.Base.{
  ℕ, ◌+◌, ◌-◌, ◌*◌, ◌/◌, ◌%◌, ◌^◌, Bool, true, false, ◌&&◌, ◌||◌, not, ◌==◌, ltb, leb, Option, none,
  some, if◌then◌else◌, store,
}
use nica.Stream.{Stream, full, read, write}

-- `direction_t`: HOST is 0 and NET is 1.
pub data Direction : Type 0 where
  host net : Direction

abbrev pub num_tc : ℕ
num_tc = 8

abbrev pub num_rings : ℕ
num_rings = 2 ^ 6

-- `ikernel_ring_context`, with 16-bit message numbers.
pub record RingContext : Type 0 where
  pub msn : ℕ
  pub max_msn : ℕ

-- `ikernel_ring_context::can_transmit`
unfoldable pub ring_can_transmit : RingContext → Bool
ring_can_transmit c = not (c.msn == c.max_msn)

unfoldable pub inc_msn : RingContext → RingContext
inc_msn c = record c { msn = (c.msn + 1) % 2 ^ 16 }

pub record CreditRegs : Type 0 where
  pub ring_id : ℕ
  pub max_msn : ℕ
  pub reset : Bool

abbrev same_bool : Bool → Bool → Bool
same_bool true b = b
same_bool false b = not b

-- `operator==` on `credit_update_registers`
unfoldable pub regs_eq : CreditRegs → CreditRegs → Bool
regs_eq l r = l.ring_id == r.ring_id && (l.max_msn == r.max_msn && same_bool l.reset r.reset)

-- The private members of `ikernel`.
pub record Credits : Type 0 where
  pub host_credits : ℕ → RingContext
  pub credit_updates : Stream CreditRegs
  pub last_host_credit_regs : CreditRegs

-- `tc_pipeline_data_counts`: the words waiting in each traffic class.
pub record TcCounts : Type 0 where
  pub meta_counts : ℕ → ℕ
  pub data_counts : ℕ → ℕ

abbrev pub meta_threshold : ℕ
meta_threshold = 256

abbrev pub data_threshold : ℕ
data_threshold = 256

-- `id & (NUM_TC - 1)`; the last class is not for ikernels.
unfoldable pub traffic_class : ℕ → ℕ
traffic_class id = let c = id % num_tc in if c == num_tc - 1 then 0 else c

-- `len` arrives as a `pkt_len_t` of 11 bits.
unfoldable pub tc_has_room : TcCounts → ℕ → ℕ → Bool
unfolding traffic_class
tc_has_room tc id len =
    let c = traffic_class id in
    not (
      ltb (meta_threshold - 1) (tc.meta_counts c)
      || ltb (data_threshold - len % 2 ^ 11 / 2 ^ 5) (tc.data_counts c))

abbrev pub is_host : Direction → Bool
is_host host = true
is_host net = false

unfoldable pub can_transmit : Credits → TcCounts → ℕ → ℕ → ℕ → Direction → Bool
can_transmit s tc id ring len dir =
    if is_host dir && (not (ring == 0) && not (ring_can_transmit (s.host_credits (ring - 1))))
    then false
    else tc_has_room tc id len

-- The callers pass a ring other than 0: the source has the index -1 for ring 0, here it is 0.
unfoldable pub new_message : Credits → ℕ → Direction → Credits
new_message s ring host = record s {
  host_credits = store s.host_credits (ring - 1) (inc_msn (s.host_credits (ring - 1)));
}
new_message s ring net = s

-- What `update` stores for a ring.
unfoldable pub apply_regs : CreditRegs → RingContext → RingContext
apply_regs regs c = record { msn = if regs.reset then 0 else c.msn; max_msn = regs.max_msn }

-- `update`: true if an update was taken.
unfoldable pub update : Credits → Credits × Bool
update s = elim (read s.credit_updates) [
  | none ↦ (s, false)
  | some (regs, rest) ↦
      let i = regs.ring_id - 1 in
      (
        record s {
          host_credits = store s.host_credits i (apply_regs regs (s.host_credits i));
          credit_updates = rest;
        },
        true,
      )
]

unfoldable pub host_credits_update : Credits → CreditRegs → Credits
host_credits_update s regs =
    if full s.credit_updates
    then s
    else if regs_eq s.last_host_credit_regs regs
    then s
    else if regs.ring_id == 0 || leb num_rings regs.ring_id
    then record s { last_host_credit_regs = regs }
    else record s { credit_updates = write s.credit_updates regs; last_host_credit_regs = regs }
