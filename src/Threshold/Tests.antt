-- ===== src/Threshold/Tests.antt =====
-- The threshold ikernel at small inputs.
use nica.Base.{ℕ, ◌+◌, ◌*◌, ◌-◌, ◌^◌, ◌≡◌, refl, true, false, [], ◌∷◌, List}
use nica.Credits.Tests.{credited, quiet}
use nica.Contexts.Tests.{array_manager}
use nica.DropOrPass.{decision}
use nica.Flit.{Packet}
use nica.Metadata.Tests.{packet}
use nica.Pipeline.Tests.{ports}
use nica.Threshold.{Context, Threshold, judge, first, idle}
use nica.Threshold.Stats.{Packets, counted, fresh}
use nica.Threshold.Parsing.{at}
use nica.Threshold.Verdicts.{Judged, judge-Judged}

abbrev seen : Packets
seen = (7, false) ∷ (2 ^ 32 - 1, true) ∷ (30, false) ∷ []

seen_runs : (counted (fresh 5 10) seen).dropped ≡ 1
unfolding counted nica.Threshold.count_packet nica.Threshold.new_context
seen_runs = refl

abbrev packets : List Packet
packets =
    record { body = (5 * 2 ^ 112, 15) ∷ (1, 15) ∷ []; tail = (2, 7) }
    ∷ record { body = []; tail = (9 * 2 ^ 112 + 3, 1) }
    ∷ []

abbrev start : Threshold array_manager
start = record {
  contexts = λ (i : ℕ). fresh 0 10;
  credits = credited;
  parsing = at 8 3 first [] [];
  data_dup_to_egress = record { items = []; depth = 15 };
  data_egress_to_filter = record { items = []; depth = 2 };
  decisions = record { items = []; depth = 2 };
  decision_pass = record { items = []; depth = 2 };
  egress_last_decision = record { v = 0; ring_id = 0 };
  egress_state = idle;
  dropper = record { mode = decision; pass = false };
}

-- Ikernel 5 sends to ring 3, whose credits are at the wrap; the ring has credits left.
abbrev with_ring : Threshold array_manager
with_ring = record start { contexts = λ (i : ℕ). record (fresh 0 10) { ring_id = 3 } }

judge-Judged_example :
    Judged array_manager with_ring ports quiet packet 12
      (judge array_manager with_ring ports quiet packet 12)
judge-Judged_example = judge-Judged array_manager with_ring ports quiet packet 12

-- The message is counted; without credits the packet is blocked.
judged_to_ring :
    ((judge array_manager with_ring ports quiet packet 12).0.credits.host_credits 2).msn ≡ 65535
unfolding judge nica.Threshold.find_ring nica.Threshold.update_stats nica.Credits.can_transmit
    nica.Credits.tc_has_room nica.Credits.ring_can_transmit nica.Credits.new_message
    nica.Credits.inc_msn
judged_to_ring = refl

abbrev exhausted : Threshold array_manager
exhausted = record with_ring {
  credits = record credited { host_credits = λ (i : ℕ). record { msn = 1; max_msn = 1 } };
}

judged_blocked :
    ((judge array_manager exhausted ports quiet packet 12).0.contexts 5).dropped_backpressure ≡ 1
unfolding judge nica.Threshold.find_ring nica.Threshold.update_stats nica.Threshold.count_packet
    nica.Credits.can_transmit nica.Credits.tc_has_room nica.Credits.ring_can_transmit
    nica.Threshold.new_context
judged_blocked = refl
