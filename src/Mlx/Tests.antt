-- ===== src/Mlx/Tests.antt =====
-- The elements of the network port at small inputs.
use nica.Base.{ℕ, ◌≡◌, Bool, true, false, [], ◌∷◌}
use nica.Mlx.{Axi4s, stream, DropperPorts, drop_run}
use nica.Mlx.Packets.{drop_result, drop_result-drop_run}

abbrev beat : ℕ → Bool → Axi4s
beat b l = record { bits = b; keep = 1; last = l; user = b; id = 1 }

abbrev dropping : DropperPorts
dropping = record {
  dropper = record { mode = stream; drop = true };
  words = record { items = beat 1 true ∷ beat 2 false ∷ beat 3 true ∷ beat 4 true ∷ []; depth = 8 };
  pass = record { items = true ∷ false ∷ []; depth = 8 };
  out = record { items = []; depth = 8 };
}

drop_result-drop_run_example : drop_result (drop_run 4 dropping) ≡ beat 2 false ∷ beat 3 true ∷ []
drop_result-drop_run_example = drop_result-drop_run 4 dropping
