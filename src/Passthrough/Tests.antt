-- ===== src/Passthrough/Tests.antt =====
-- The passthrough ikernel at small inputs.
use nica.Base.{ℕ, ◌-◌, ◌^◌, ◌≡◌, refl, false, []}
use nica.Credits.Tests.{credited}
use nica.Contexts.Tests.{array_manager, codes}
use nica.DropOrPass.{decision}
use nica.Passthrough.{Passthrough, reg_read, rpc}

-- Every ikernel sends to ring 2.
abbrev start : Passthrough array_manager
start = record {
  contexts = λ (i : ℕ). record { ring_id = 2; ignore_credits = false };
  credits = credited;
  decisions = record { items = []; depth = 2 };
  dropper = record { mode = decision; pass = false };
}

reg_read_runs : let (_, v, code) = reg_read array_manager codes start 16 0 5 in (v ≡ 2) × (code ≡ 0)
unfolding reg_read rpc
reg_read_runs = (refl, refl)

reg_read_fails :
    let (_, v, code) = reg_read array_manager codes start 16 0 64 in (v ≡ 2 ^ 32 - 1) × (code ≡ 1)
unfolding reg_read
reg_read_fails = (refl, refl)
