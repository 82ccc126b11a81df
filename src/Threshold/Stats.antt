-- ===== src/Threshold/Stats.antt =====
-- The statistics of the threshold ikernel.
use Prim.Native.Nat as Nat
use Prim.Native.Nat.{min, max}
use nica.Base.{
  ℕ, ◌+◌, ◌-◌, ◌%◌, ◌^◌, ◌<◌, ◌≡◌, refl, Bool, true, false, ◌&&◌, ◌||◌, not, ltb, List, [], ◌∷◌,
  length, arith, if◌then◌else◌, ap,
}
use nica.Threshold.{Context, new_context, count_packet}

-- A packet of a run: its value, and whether there was back pressure.
abbrev pub Packets : Type 0
Packets = List (ℕ × Bool)

-- The decision of `net_ingress`.
abbrev pub dropped_packet : ℕ → ℕ → Bool → Bool
dropped_packet threshold v backpressure = ltb v threshold || backpressure

-- The context after the packets, the first of the list last.
unfoldable pub counted : Context → Packets → Context
unfolding count_packet
counted c [] = c
counted c ((v, b) ∷ ps) =
    let c' = counted c ps in count_packet c' v (dropped_packet c.threshold_value v b) b

abbrev pub sum_of : Packets → ℕ
sum_of [] = 0
sum_of ((v, b) ∷ ps) = v + sum_of ps

-- The packets that there was back pressure for, and those that only the threshold drops.
abbrev pub pressed : Packets → ℕ
pressed [] = 0
pressed ((v, b) ∷ ps) = (if b then 1 else 0) + pressed ps

abbrev pub below : ℕ → Packets → ℕ
below t [] = 0
below t ((v, b) ∷ ps) = (if ltb v t && not b then 1 else 0) + below t ps

abbrev pub least : Packets → ℕ
least [] = 2 ^ 32 - 1
least ((v, b) ∷ ps) = min (least ps) v

abbrev pub greatest : Packets → ℕ
greatest [] = 0
greatest ((v, b) ∷ ps) = max (greatest ps) v

-- What the context says of the packets.
pub record Counts (start : Context) (ps : Packets) (c : Context) : Type 0 where
  pub min : c.min ≡ least ps
  pub max : c.max ≡ greatest ps
  pub sum : c.sum ≡ sum_of ps % 2 ^ 64
  pub count : c.count ≡ length ps % 2 ^ 32
  pub dropped : c.dropped ≡ below start.threshold_value ps % 2 ^ 32
  pub dropped_backpressure :
      c.dropped_backpressure ≡ (start.dropped_backpressure + pressed ps) % 2 ^ 32

drop_flags : (t v : ℕ) (b : Bool) → (dropped_packet t v b && not b) ≡ (ltb v t && not b)
drop_flags t v true = ground arith
drop_flags t v false = ground arith

next_count :
    (x y : ℕ) (b : Bool)
    → x ≡ y % 2 ^ 32
    → (if b then (x + 1) % 2 ^ 32 else x) ≡ ((if b then 1 else 0) + y) % 2 ^ 32
next_count x y true e = omega (arith, e)
next_count x y false e = omega (arith, e)

-- A context that the constructor made, with the threshold that the host wrote.
abbrev pub fresh : ℕ → ℕ → Context
fresh memory threshold = record (new_context memory) { threshold_value = threshold }

-- After any packets, in order, the context of an ikernel with a fresh context has their least and
-- greatest value, their sum in 64 bits, their number in 32 bits, and how many the threshold alone
-- dropped; the packets that met back pressure are added to what the memory held.
pub counted-Counts :
    (memory threshold : ℕ) (ps : Packets)
    → memory < 2 ^ 32
    → Counts (fresh memory threshold) ps (counted (fresh memory threshold) ps)
unfolding counted new_context
counted-Counts memory threshold [] small = record {
  min = refl;
  max = refl;
  sum = refl;
  count = refl;
  dropped = refl;
  dropped_backpressure = omega arith;
}
counted-Counts memory threshold ((v, b) ∷ ps) small =
    let c = counted (fresh memory threshold) ps in
    let h = counted-Counts memory threshold ps small in
    let flags = drop_flags threshold v b in
    record {
      min = ap (λ (x : ℕ). Nat.min x v) h.min;
      max = ap (λ (x : ℕ). Nat.max x v) h.max;
      sum = let e = h.sum in omega (arith, e);
      count = let e = h.count in omega (arith, e);
      dropped =
          rw flags (next_count c.dropped (below threshold ps) (ltb v threshold && not b) h.dropped);
      dropped_backpressure =
          let e =
            next_count c.dropped_backpressure (memory + pressed ps) b h.dropped_backpressure in
          omega (arith, e);
    }
