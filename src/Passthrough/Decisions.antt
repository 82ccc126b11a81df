-- ===== src/Passthrough/Decisions.antt =====
-- What the passthrough ikernel does with a packet.
use nica.Base.{
  ◌≡◌, refl, Bool, ◌&&◌, ◌||◌, not, ◌==◌, [], ◌∷◌, ◌++◌, inl, inr, Bool-cases, if◌then◌else◌,
}
use mathlib.Core.List.{append-nil}
use nica.Base.{sym}
use nica.Credits.{TcCounts, can_transmit, new_message, host}
use nica.Metadata.{Metadata}
use nica.Pipeline.{PipelinePorts}
use nica.Contexts.{ContextManager}
use nica.Passthrough.{Context, Passthrough, decide, to_ring}

module _ (lib : ContextManager Context) where
  abbrev pub context : Passthrough lib → Metadata → Context
  context s m = lib.at s.contexts m.ikernel_id

  abbrev pub stopped : Passthrough lib → TcCounts → Metadata → Bool
  stopped s tc m =
      not (context s m).ignore_credits
      && not (can_transmit s.credits tc m.ikernel_id (context s m).ring_id m.length host)

  abbrev pub network : Passthrough lib → Metadata → Bool
  network s m = (context s m).ring_id == 0

  -- For a packet to the network, or one that may be stopped: one decision, the metadata that goes
  -- on if it passes (its own, or that of a message of its length), a message counted if it has a
  -- ring, and the contexts as they were.
  pub record Decided (s : Passthrough lib) (p : PipelinePorts) (m : Metadata)
      (is_network is_stopped : Bool) (r : Passthrough lib × PipelinePorts) : Type 0 where
    pub pass : r.0.decisions.items ≡ s.decisions.items ++ (is_network || not is_stopped) ∷ []
    pub output :
        r.1.metadata_output.items
        ≡ p.metadata_output.items
          ++ (if is_network
              then m ∷ []
              else if is_stopped
              then []
              else to_ring m (context s m).ring_id m.length ∷ [])
    pub sent : r.0.credits ≡ (
        if is_network || is_stopped
        then s.credits
        else new_message s.credits (context s m).ring_id host)
    pub contexts : r.0.contexts ≡ s.contexts

  -- A packet that `intercept_in` has read gets one decision: it is passed unless its ikernel has a
  -- ring, minds the credits and may not transmit to the ring.
  pub decide-Decided :
      (s : Passthrough lib) (p : PipelinePorts) (tc : TcCounts) (m : Metadata)
      → Decided s p m (network s m) (stopped s tc m) (decide lib s p tc m)
  unfolding decide
  decide-Decided s p tc m = elim (Bool-cases (network s m)) [
    | inl z ↦ rw (z, decide) record { pass = refl; output = refl; sent = refl; contexts = refl }
    | inr n ↦ elim (Bool-cases (stopped s tc m)) [
      | inl b ↦
          rw (n, b, decide)
            record {
              pass = refl;
              output = sym (append-nil p.metadata_output.items);
              sent = refl;
              contexts = refl;
            }
      | inr o ↦
          rw (n, o, decide) record { pass = refl; output = refl; sent = refl; contexts = refl }
    ]
  ]
