-- ===== src/Credits/Tests.antt =====
-- Credits at a small state.
use Prim.Native.Nat.{min}
use nica.Base.{ℕ, ◌-◌, ◌≤◌, ◌≡◌, ◌==◌, refl, true, false, [], if◌then◌else◌, arith}
use nica.Credits.{
  Credits, CreditRegs, can_transmit, ring_can_transmit, inc_msn, regs_eq, TcCounts,
  host_credits_update, update, tc_has_room, new_message, host,
}
use nica.Credits.Rings.{attempts, attempts_sent, allowed}
use nica.Credits.Updates.{
  Reach, here, next, host_writes, takes, sends, IsSafe, Reach-IsSafe, ring_64_limit,
  update-host_credits_update, updated,
}

abbrev pub credited : Credits
credited = record {
  host_credits = λ i. record { msn = 65534; max_msn = 1 };
  credit_updates = record { items = []; depth = 2 };
  last_host_credit_regs = record { ring_id = 0; max_msn = 0; reset = false };
}

abbrev pub quiet : TcCounts
quiet = record { meta_counts = λ c. 3; data_counts = λ c. 20 }

abbrev regs : CreditRegs
regs = record { ring_id = 3; max_msn = 40; reset = true }

attempts_sent_example :
    (attempts 5 credited quiet 2 7 100).1
    ≡ (if tc_has_room quiet 2 100 then min 5 (allowed (credited.host_credits 6)) else 0)
attempts_sent_example = attempts_sent quiet 2 7 100 (omega arith) 5 credited (omega arith)

-- Three messages are left across the wrap.
attempts_runs : (attempts 5 credited quiet 2 7 100).1 ≡ 3
unfolding attempts can_transmit tc_has_room ring_can_transmit new_message inc_msn
attempts_runs = refl

abbrev written : Credits
written = host_credits_update credited regs

abbrev path : Reach credited (new_message (update written).0 3 host)
path = next (next (next here (host_writes regs)) takes) (sends 3 host (omega arith))

-- The update is still on its way.
abbrev waiting : Reach credited written
waiting = next here (host_writes regs)

Reach-IsSafe_example :
    IsSafe written × ((i : ℕ) → 63 ≤ i → (update written).0.host_credits i ≡ written.host_credits i)
Reach-IsSafe_example = Reach-IsSafe waiting tt

ring_64_limit_example :
    ((new_message (update written).0 3 host).host_credits 63).max_msn
    ≡ (credited.host_credits 63).max_msn
ring_64_limit_example = ring_64_limit path tt

update-host_credits_update_example :
    let (t, taken) = update written in
    (taken ≡ true)
    × ((i : ℕ)
        → t.host_credits i ≡ (
            if 3 - 1 == i then updated regs (credited.host_credits i) else credited.host_credits i))
update-host_credits_update_example =
    update-host_credits_update credited regs refl (omega arith) (omega arith) (omega arith)
      (unfold regs_eq in refl)
