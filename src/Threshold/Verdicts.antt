-- ===== src/Threshold/Verdicts.antt =====
-- What the ingress of the threshold ikernel does with a packet.
use Prim.Native.Nat.{min, max}
use nica.Base.{
  ℕ, ◌+◌, ◌-◌, ◌%◌, ◌^◌, ◌≤◌, ◌⊎◌, inl, inr, Bool-cases, ◌≡◌, ◌≢◌, refl, Bool, true, false, ◌&&◌,
  not, ◌==◌, ◌||◌, ltb, [], ◌∷◌, ◌++◌, if◌then◌else◌, arith, ◌∙◌, sym,
}
use mathlib.Core.List.{append-nil}
use nica.Stream.{write}
use mathlib.Core.Path.{subst}
use nica.Credits.{Credits, RingContext, TcCounts, can_transmit, new_message, inc_msn, host}
use nica.Metadata.{Metadata, right}
use nica.Pipeline.{PipelinePorts}
use nica.Contexts.{ContextManager}
use nica.Passthrough.{to_ring}
use nica.Threshold.{Context, Threshold, judge, update_stats, count_packet, find_ring}

module _ (lib : ContextManager Context) where
  abbrev pub context : Threshold lib → Metadata → Context
  context s m = lib.at s.contexts m.ikernel_id

  -- There are no credits for the ring, or there is no room in the traffic class.
  abbrev pub pressed : Threshold lib → TcCounts → Metadata → Bool
  pressed s tc m = not (can_transmit s.credits tc m.ikernel_id (context s m).ring_id 4 host)

  abbrev pub dropped : Threshold lib → TcCounts → Metadata → ℕ → Bool
  dropped s tc m v = ltb v (context s m).threshold_value || pressed s tc m

  -- The metadata that goes on: the packet's own, or that of a message of 4 bytes to the ring.
  abbrev pub passed_on : Threshold lib → Metadata → Metadata
  passed_on s m =
      let ring = (context s m).ring_id in
      if ring == 0
      then m
      else record m { ring_id = ring; length = 4; var = right (record { end_of_message = 1 }) }

  -- A ring's credits after the packet: the message number goes up, of 16 bits, if the ring is the
  -- one that got a message.
  abbrev pub credits_after : Threshold lib → Metadata → Bool → ℕ → RingContext
  credits_after s m d i =
      let c = s.credits.host_credits i in
      if not (d || (context s m).ring_id == 0) && (context s m).ring_id - 1 == i
      then record { msn = (c.msn + 1) % 65536; max_msn = c.max_msn }
      else c

  -- The context `c` of an ikernel, and `c'` after a packet of value `v`.
  pub record Counted (c : Context) (v : ℕ) (below blocked : Bool) (c' : Context) : Type 0 where
    pub same_threshold : c'.threshold_value ≡ c.threshold_value
    pub same_ring : c'.ring_id ≡ c.ring_id
    pub min_below : (c'.min ≤ c.min) × (c'.min ≤ v)
    pub min_seen : (c'.min ≡ c.min) ⊎ (c'.min ≡ v)
    pub max_above : (c.max ≤ c'.max) × (v ≤ c'.max)
    pub max_seen : (c'.max ≡ c.max) ⊎ (c'.max ≡ v)
    pub sum : c'.sum ≡ (c.sum + v) % 18446744073709551616
    pub count : c'.count ≡ (c.count + 1) % 4294967296
    pub dropped :
        c'.dropped
        ≡ (if blocked then c.dropped else if below then (c.dropped + 1) % 4294967296 else c.dropped)
    pub dropped_backpressure :
        c'.dropped_backpressure
        ≡ (if blocked then (c.dropped_backpressure + 1) % 4294967296 else c.dropped_backpressure)

  -- One decision each for the filter and the egress, the metadata if the packet passes, a message
  -- counted if it goes to a ring, and the packet counted in the ikernel's context alone.
  pub record Judged (s : Threshold lib) (p : PipelinePorts) (tc : TcCounts) (m : Metadata) (v : ℕ)
      (r : Threshold lib × PipelinePorts) : Type 0 where
    pub pass : r.0.decision_pass.items ≡ s.decision_pass.items ++ not (dropped s tc m v) ∷ []
    pub decision :
        r.0.decisions.items
        ≡ s.decisions.items ++ record { v = v; ring_id = (context s m).ring_id } ∷ []
    pub output :
        r.1.metadata_output.items
        ≡ p.metadata_output.items ++ (if dropped s tc m v then [] else passed_on s m ∷ [])
    pub sent : (i : ℕ) → r.0.credits.host_credits i ≡ credits_after s m (dropped s tc m v) i
    pub own :
        Counted
          (context s m)
          v
          (ltb v (context s m).threshold_value)
          (pressed s tc m)
          (context r.0 m)
    pub others : (i : ℕ) → i ≢ m.ikernel_id → lib.at r.0.contexts i ≡ lib.at s.contexts i

  at-assign_same : (c : lib.Contexts) (i : ℕ) (x : Context) → lib.at (lib.assign c i x) i ≡ x
  at-assign_same c i x =
      let same : (i == i) ≡ true = ground arith in lib.at-assign c i i x ∙ rw same refl

  at-assign_other :
      (c : lib.Contexts) (i j : ℕ) (x : Context) → j ≢ i → lib.at (lib.assign c i x) j ≡ lib.at c j
  at-assign_other c i j x ne =
      let other : (i == j) ≡ false = ground arith in lib.at-assign c i j x ∙ rw other refl

  output_lem :
      (p : PipelinePorts) (m n : Metadata) (d z : Bool)
      → (if d then p else record p {
        metadata_output = write p.metadata_output (if not d && not z then n else m);
      }).metadata_output.items
        ≡ p.metadata_output.items ++ (if d then [] else (if z then m else n) ∷ [])
  output_lem p m n true z = sym (append-nil p.metadata_output.items)
  output_lem p m n false true = refl
  output_lem p m n false false = refl

  sent_lem :
      (a : Credits) (ring i : ℕ) (d : Bool)
      → (if not d && not (ring == 0) then new_message a ring host else a).host_credits i ≡ (
          if not (d || ring == 0) && ring - 1 == i
          then record {
            msn = ((a.host_credits i).msn + 1) % 65536;
            max_msn = (a.host_credits i).max_msn;
          }
          else a.host_credits i)
  unfolding new_message inc_msn
  sent_lem a ring i true = refl
  sent_lem a ring i false = elim (Bool-cases (ring == 0)) [
    | inl z ↦ rw z refl
    | inr z ↦ elim (Bool-cases (ring - 1 == i)) [
      | inl e ↦
          let at : ring - 1 ≡ i = ground arith in
          rw (z, at) (let same : (i == i) ≡ true = ground arith in rw same refl)
      | inr e ↦ rw (z, e) refl
    ]
  ]

  min_seen_lem : (a v : ℕ) → (min a v ≤ a) × (min a v ≤ v) × ((min a v ≡ a) ⊎ (min a v ≡ v))
  min_seen_lem a v = (omega arith, omega arith, ground arith)

  max_seen_lem : (a v : ℕ) → (a ≤ max a v) × (v ≤ max a v) × ((max a v ≡ a) ⊎ (max a v ≡ v))
  max_seen_lem a v = (omega arith, omega arith, ground arith)

  dropped_lem :
      (n k : ℕ) (below blocked : Bool)
      → (if (below || blocked) && not blocked then n else k)
        ≡ (if blocked then k else if below then n else k)
  dropped_lem n k true true = refl
  dropped_lem n k true false = refl
  dropped_lem n k false true = refl
  dropped_lem n k false false = refl

  Counted-count_packet :
      (c : Context) (v : ℕ) (below blocked : Bool)
      → Counted c v below blocked (count_packet c v (below || blocked) blocked)
  unfolding count_packet
  Counted-count_packet c v below blocked =
      let (a, b, e) = min_seen_lem c.min v in
      let (f, g, h) = max_seen_lem c.max v in
      record {
        same_threshold = refl;
        same_ring = refl;
        min_below = (a, b);
        min_seen = e;
        max_above = (f, g);
        max_seen = h;
        sum = refl;
        count = refl;
        dropped = dropped_lem ((c.dropped + 1) % 2 ^ 32) c.dropped below blocked;
        dropped_backpressure = refl;
      }

  -- A packet that `net_ingress` has read is dropped exactly if its value is below the threshold of
  -- its ikernel, or its ring has no credits, or its traffic class no room. The filter gets that
  -- decision and the egress the value and the ring; a packet that passes gives its own metadata, or
  -- for a ring that of a message of 4 bytes that is its own end, and then the ring's message number
  -- and no other goes up by one; the ikernel's minimum, maximum, sum and counters take the packet
  -- in, and the contexts of the other ikernels stay.
  pub judge-Judged :
      (s : Threshold lib) (p : PipelinePorts) (tc : TcCounts) (m : Metadata) (v : ℕ)
      → Judged s p tc m v (judge lib s p tc m v)
  unfolding judge update_stats find_ring to_ring nica.Metadata.set_ring_metadata
  judge-Judged s p tc m v = record {
    pass = refl;
    decision = refl;
    output =
        output_lem p m (to_ring m (context s m).ring_id 4) (dropped s tc m v)
          ((context s m).ring_id == 0);
    sent = λ (i : ℕ). sent_lem s.credits (context s m).ring_id i (dropped s tc m v);
    own =
        subst (Counted (context s m) v (ltb v (context s m).threshold_value) (pressed s tc m))
          (sym (
            at-assign_same s.contexts m.ikernel_id
              (count_packet (context s m) v (dropped s tc m v) (pressed s tc m))))
          (Counted-count_packet (context s m) v (ltb v (context s m).threshold_value)
            (pressed s tc m));
    others = λ (i : ℕ) (ne : i ≢ m.ikernel_id).
        at-assign_other s.contexts m.ikernel_id i
          (count_packet (context s m) v (dropped s tc m v) (pressed s tc m)) ne;
  }
