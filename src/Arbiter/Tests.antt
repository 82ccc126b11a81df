-- ===== src/Arbiter/Tests.antt =====
-- The arbiter at small inputs.
use nica.Base.{ℕ, ◌+◌, ◌*◌, ◌/◌, ◌≡◌, refl, false, none, some, [], ◌∷◌, suc, length, arith, Bool}
use nica.Stream.{Stream}
use nica.Flit.{Packet, flits}
use nica.Metadata.{Metadata}
use nica.Metadata.Tests.{packet}
use nica.Arbiter.{Scheduler, Arbiter, DataSide, data_idle, new_packet, decode_gateway_address}
use nica.Arbiter.Words.{Forwarded, tx_run, tx_run-Forwarded}
use nica.Arbiter.Quota.{Spent, tx_meta_run, tx_meta_run-Spent}

-- A scheduler that has nothing to say.
abbrev silent : Scheduler
silent = record {
  Sched = ℕ;
  update = λ (s : ℕ). (s, false);
  schedule = λ (s port : ℕ). s;
  next_flow = λ (s : ℕ). (s, none);
  update_flow = λ (s port : ℕ) (b : Bool) (left : ℕ). left;
  rpc = λ (s cmd v port : ℕ) (b : Bool). (s, v, 0);
}

abbrev align : ℕ → ℕ → ℕ
align n a = (n + 31) / 32 * 32

decode_runs : decode_gateway_address 21 ≡ some (2, 1)
unfolding decode_gateway_address
decode_runs = refl

abbrev two_words : Packet
two_words = record { body = (1, 15) ∷ []; tail = (2, 7) }

abbrev data_side : DataSide
data_side = record {
  data_state = data_idle;
  data_selected_port = 0;
  meta_to_data = record { items = 3 ∷ 1 ∷ []; depth = 15 };
  inputs = λ (k : ℕ). record { items = flits two_words; depth = 4 };
  out = record { items = []; depth = 4 };
  tx_port = λ (k : ℕ). record { words = 5; packets = 2 };
}

tx_run-Forwarded_example :
    Forwarded data_side 3
      (1 ∷ [])
      (flits two_words)
      []
      (tx_run (suc (length (flits two_words))) data_side)
tx_run-Forwarded_example =
    tx_run-Forwarded data_side 3 (1 ∷ []) two_words [] refl refl refl (omega arith)

-- Every port has three packets of 16 words waiting; port 3 is served with a quota of 40 words, and
-- a decision for port 1 waits.
abbrev start : Arbiter silent
start = record {
  sched = 0;
  peek = λ (k : ℕ). none;
  meta_state = new_packet;
  meta_selected_port = 3;
  quota = 40;
  tx_requests = record { items = []; depth = 2 };
  interrupt_sent = λ (k : ℕ). false;
  schedule_ports_last = 0;
  scheduler_decision = record { items = record { port = 1; quantum = 20 } ∷ []; depth = 2 };
  data_side = data_side;
}

abbrev waiting : ℕ → Stream Metadata
waiting k = record { items = packet ∷ packet ∷ packet ∷ []; depth = 15 }

abbrev out : Stream Metadata
out = record { items = []; depth = 4 }

abbrev result : Arbiter silent × (ℕ → Stream Metadata) × Stream Metadata
unfolding tx_meta_run
result = tx_meta_run silent align 5 start waiting out

-- Two packets of port 3, its eviction, the decision, and a packet of port 1.
sent_test : length (result.2.items) ≡ 3
unfolding result nica.Arbiter.serve nica.Arbiter.send nica.Arbiter.evict nica.Arbiter.words_of
    nica.Stream.read nica.Arbiter.schedule_ports nica.Arbiter.take_decision nica.Arbiter.peek_port
    nica.Metadata.empty_packet
sent_test = refl

tx_meta_run-Spent_example :
    let (t, meta', out') = tx_meta_run silent align 5 start waiting out in
    Spent silent align 40 (record { port = 1; quantum = 20 } ∷ []) out t out'
tx_meta_run-Spent_example = tx_meta_run-Spent silent align (λ n. refl) 5 start waiting out
