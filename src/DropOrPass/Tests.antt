-- ===== src/DropOrPass/Tests.antt =====
-- The filter on two packets, of which the second passes.
use nica.Base.{◌≡◌, refl, Bool, true, false, List, [], ◌∷◌}
use nica.Flit.{Packet, flits}
use nica.DropOrPass.{decision, Ports, run}
use nica.DropOrPass.Packets.{decisions_of, words_of, run-selected}

abbrev first : Packet
first = record { body = (10, 1) ∷ (11, 1) ∷ []; tail = (12, 1) }

abbrev second : Packet
second = record { body = []; tail = (20, 1) }

abbrev packets : List (Bool × Packet)
packets = (false, first) ∷ (true, second) ∷ []

abbrev start : Ports
start = record {
  filter = record { mode = decision; pass = false };
  decisions = record { items = decisions_of packets; depth = 4 };
  input = record { items = words_of packets; depth = 8 };
  output = record { items = []; depth = 8 };
}

run-selected_example :
    let r = run 4 start in
    (r.output.items ≡ flits second)
    × (r.input.items ≡ [])
    × (r.decisions.items ≡ [])
    × (r.filter.mode ≡ decision)
run-selected_example = run-selected start packets refl refl refl

abbrev idle : Ports
idle = record start { decisions = record { items = []; depth = 4 } }
