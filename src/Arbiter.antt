-- ===== src/Arbiter.antt =====
-- nica/hls/arbiter-impl.hpp: the arbiter, which collects the packets of the traffic classes. The
-- scheduler of a submodule decides which class may send, and how many words.
pub mod Quota
pub mod Words
mod Tests
use nica.Base.{
  ℕ, zero, suc, ◌+◌, ◌-◌, ◌*◌, ◌/◌, ◌%◌, ◌^◌, Bool, true, false, ◌&&◌, not, ◌==◌, leb, Option, none,
  some, store, if◌then◌else◌,
}
use nica.Stream.{Stream, full, read, write}
use nica.Flit.{Flit}
use nica.Metadata.{Metadata, empty_packet}
use nica.Credits.{num_tc}

-- `ntl::scheduler`: commands of the gateway, requests of the ports, and the next port to serve with
-- its quantum.
pub record Scheduler : Type 1 where
  pub Sched : Type 0
  pub update : Sched → Sched × Bool
  pub schedule : Sched → ℕ → Sched
  pub next_flow : Sched → Sched × Option (ℕ × ℕ)
  -- The port, whether it has more packets, and what is left of its quantum.
  pub update_flow : Sched → ℕ → Bool → ℕ → Sched
  -- The command, `*v`, the port and whether it reads; the number left in `*v` and the code.
  pub rpc : Sched → ℕ → ℕ → ℕ → Bool → Sched × ℕ × ℕ

pub data MetaState : Type 0 where
  meta_idle new_packet : MetaState

pub data DataState : Type 0 where
  data_idle data_stream : DataState

-- `scheduler_cmd`
pub record SchedulerCmd : Type 0 where
  pub port : ℕ
  pub quantum : ℕ

-- `arbiter_tx_per_port_stats`
pub record TxStats : Type 0 where
  pub words : ℕ
  pub packets : ℕ

-- `tx_data` with its streams: the ports of the packets to send, the data of each port, the output.
pub record DataSide : Type 0 where
  pub data_state : DataState
  pub data_selected_port : ℕ
  pub meta_to_data : Stream ℕ
  pub inputs : ℕ → Stream Flit
  pub out : Stream Flit
  pub tx_port : ℕ → TxStats

unfoldable pub count_word : TxStats → Bool → TxStats
count_word p is_last = record {
  words = (p.words + 1) % 2 ^ 64;
  packets = if is_last then (p.packets + 1) % 2 ^ 64 else p.packets;
}

unfoldable pub tx_data_in : DataState → DataSide → DataSide
unfolding count_word
tx_data_in data_idle s = elim (read s.meta_to_data) [
  | none ↦ s
  | some (port, rest) ↦ record s {
    meta_to_data = rest;
    data_selected_port = port;
    data_state = data_stream;
  }
]
tx_data_in data_stream s = if full s.out then s else elim (read (s.inputs s.data_selected_port)) [
  | none ↦ s
  | some (word, rest) ↦ record s {
    inputs = store s.inputs s.data_selected_port rest;
    out = write s.out word;
    tx_port =
        store s.tx_port s.data_selected_port
          (count_word (s.tx_port s.data_selected_port) word.last);
    data_state = if word.last then data_idle else data_stream;
  }
]

unfoldable pub tx_data : DataSide → DataSide
unfolding tx_data_in
tx_data s = tx_data_in s.data_state s

-- `decode_gateway_address`: the flow and the command. `ARBITER_SCHEDULER` is 16.
unfoldable pub decode_gateway_address : ℕ → Option (ℕ × ℕ)
decode_gateway_address address =
    if leb 16 address then some ((address - 16) / 2, (address - 16) % 2) else none

module _ (lib : Scheduler) where
  -- The rest of the arbiter: `peek_metadata`, where none is invalid, the requests to the scheduler
  -- and its decisions.
  pub record Arbiter : Type 0 where
    pub sched : lib.Sched
    pub peek : ℕ → Option Metadata
    pub meta_state : MetaState
    pub meta_selected_port : ℕ
    pub quota : ℕ
    pub tx_requests : Stream ℕ
    pub interrupt_sent : ℕ → Bool
    pub schedule_ports_last : ℕ
    pub scheduler_decision : Stream SchedulerCmd
    pub data_side : DataSide

-- `ALIGN` is a macro that the sources do not define.
module _ (lib : Scheduler) (align : ℕ → ℕ → ℕ) where
  abbrev State : Type 0
  State = Arbiter lib

  abbrev pub is_some : Option Metadata → Bool
  is_some none = false
  is_some (some m) = true

  unfoldable pub schedule_ports : State → State
  schedule_ports s =
      let port = s.schedule_ports_last in
      if full s.tx_requests
      then s
      else if is_some (s.peek port) && not (s.interrupt_sent port)
      then record s {
        tx_requests = write s.tx_requests port;
        interrupt_sent = store s.interrupt_sent port true;
        schedule_ports_last = (port + 1) % num_tc;
      }
      else record s { schedule_ports_last = (port + 1) % num_tc }

  -- `update_peek` for the ports below `n`: the metadata streams of the ports.
  unfoldable pub peek_port :
      ℕ
      → (ℕ → Option Metadata)
      → (ℕ → Stream Metadata)
      → (ℕ → Option Metadata) × (ℕ → Stream Metadata)
  peek_port port peek meta = if is_some (peek port) then (peek, meta) else elim (read (meta port)) [
    | none ↦ (peek, meta)
    | some (m, rest) ↦ (store peek port (some m), store meta port rest)
  ]

  unfoldable pub peek_ports :
      ℕ
      → (ℕ → Option Metadata)
      → (ℕ → Stream Metadata)
      → (ℕ → Option Metadata) × (ℕ → Stream Metadata)
  unfolding peek_port
  peek_ports zero peek meta = (peek, meta)
  peek_ports (suc n) peek meta =
      let (peek', meta') = peek_ports n peek meta in peek_port n peek' meta'

  unfoldable pub update_peek : State → (ℕ → Stream Metadata) → State × (ℕ → Stream Metadata)
  unfolding peek_ports
  update_peek s meta =
      let (peek, meta') = peek_ports num_tc s.peek meta in (record s { peek = peek }, meta')

  -- `peek_stream_packet_length`: words of 32 bytes.
  unfoldable pub words_of : Metadata → ℕ
  words_of m = align m.length 32 % 2 ^ 32 / 2 ^ 5

  -- `case META_IDLE`
  unfoldable pub take_decision : State → State
  take_decision s = elim (read s.scheduler_decision) [
    | none ↦ s
    | some (cmd, rest) ↦ record s {
      scheduler_decision = rest;
      meta_selected_port = cmd.port;
      quota = cmd.quantum;
      meta_state = new_packet;
    }
  ]

  -- The port has no packet for its quota: the scheduler gets the rest of it.
  unfoldable pub evict : State → Bool → State
  evict s non_empty =
      let port = s.meta_selected_port in
      record s {
        meta_state = meta_idle;
        interrupt_sent = store s.interrupt_sent port false;
        sched = lib.update_flow s.sched port non_empty s.quota;
      }

  -- `read_metadata` and the writes.
  unfoldable pub send : State → Metadata → Stream Metadata → State × Stream Metadata
  unfolding words_of
  send s m metadata_out =
      let port = s.meta_selected_port in
      let d = s.data_side in
      (
        record s {
          quota = s.quota - words_of m;
          peek = store s.peek port none;
          data_side =
              if empty_packet m then d else record d { meta_to_data = write d.meta_to_data port };
        },
        write metadata_out m,
      )

  -- `case NEW_PACKET`
  unfoldable pub serve : State → Stream Metadata → State × Stream Metadata
  unfolding evict send words_of
  serve s metadata_out =
      if full metadata_out
      then (s, metadata_out)
      else if full s.data_side.meta_to_data
      then (s, metadata_out)
      else elim (s.peek s.meta_selected_port) [
        | none ↦ (evict s false, metadata_out)
        | some m ↦
            if leb (words_of m) s.quota then send s m metadata_out else (evict s true, metadata_out)
      ]

  unfoldable pub tx_meta_in : MetaState → State → Stream Metadata → State × Stream Metadata
  unfolding take_decision serve
  tx_meta_in meta_idle s metadata_out = (take_decision s, metadata_out)
  tx_meta_in new_packet s metadata_out = serve s metadata_out

  -- `tx_meta`, less the trace events.
  unfoldable pub tx_meta :
      State
      → (ℕ → Stream Metadata)
      → Stream Metadata
      → State × (ℕ → Stream Metadata) × Stream Metadata
  unfolding schedule_ports update_peek tx_meta_in
  tx_meta s meta metadata_out =
      let (s1, meta') = update_peek (schedule_ports s) meta in
      let (s2, out) = tx_meta_in s1.meta_state s1 metadata_out in (s2, meta', out)

  -- `pick_next_packet` after the gateway, less the statistics: a request goes to the scheduler,
  -- and its next decision to `tx_meta`.
  unfoldable pub take_request : State → State
  take_request s = elim (read s.tx_requests) [
    | none ↦ s
    | some (req, rest) ↦ record s { tx_requests = rest; sched = lib.schedule s.sched req }
  ]

  unfoldable pub pick_flow : State → State
  pick_flow s =
      if full s.scheduler_decision
      then s
      else let (sched, next) = lib.next_flow s.sched in
        elim next [
          | none ↦ record s { sched = sched }
          | some (port, quantum) ↦ record s {
            sched = sched;
            scheduler_decision =
                write s.scheduler_decision (record { port = port; quantum = quantum });
          }
        ]

  unfoldable pub pick_next_packet : State → State
  unfolding take_request pick_flow
  pick_next_packet s =
      let (sched, busy) = lib.update s.sched in
      let s1 = record s { sched = sched } in if busy then s1 else pick_flow (take_request s1)

  unfoldable pub reg_write : State → ℕ → ℕ → ℕ → State × ℕ
  unfolding decode_gateway_address
  reg_write s done address value = elim (decode_gateway_address address) [
    | none ↦ (s, done)
    | some (flow, cmd) ↦
        let (sched, _, code) = lib.rpc s.sched cmd value flow false in
        (record s { sched = sched }, code)
  ]

  -- The state, `*value` and the code.
  unfoldable pub reg_read : State → ℕ → ℕ → ℕ → ℕ → State × ℕ × ℕ
  unfolding decode_gateway_address
  reg_read s done failed address value = elim (decode_gateway_address address) [
    | none ↦ if address == 0 then (s, num_tc, done) else (s, 2 ^ 32 - 1, failed)
    | some (flow, cmd) ↦
        let (sched, v, code) = lib.rpc s.sched cmd value flow true in
        (record s { sched = sched }, v, code)
  ]

  -- `arbiter_step`, less the gateway, which calls `reg_write` and `reg_read`.
  unfoldable pub arbiter_step :
      State
      → (ℕ → Stream Metadata)
      → Stream Metadata
      → State × (ℕ → Stream Metadata) × Stream Metadata
  unfolding pick_next_packet tx_meta
  arbiter_step s meta metadata_out =
      let (s1, meta', out) = tx_meta (pick_next_packet s) meta metadata_out in
      (record s1 { data_side = tx_data s1.data_side }, meta', out)
