-- ===== src/FlowTable.antt =====
-- nica/hls/flow_table.cpp, flow_table_impl.hpp and flow_table.hpp: the keys of the flow table, the
-- registers through which the host configures it, and the wrapper around the lookups.
pub mod Keys
pub mod Masks
pub mod Wrapper
mod Tests
use nica.Base.{
  ℕ, ◌+◌, ◌-◌, ◌^◌, ◌%◌, Bool, true, false, ◌==◌, not, Option, none, some, if◌then◌else◌,
}
use nica.Stream.{Stream, full, read, write}
use Keys.{Flow, Value, passthrough, mask, flow_and}

-- The hash table of a submodule, less its two streams: the commands of its gateway with the number
-- that each stores through its pointer and the code it returns.
pub record HashTable : Type 1 where
  pub Table : Type 0
  pub add_entry : Table → Flow → Value → Table × ℕ × ℕ
  pub delete_entry : Table → Flow → Table × ℕ × ℕ
  pub set_entry : Table → ℕ → Option (Flow × Value) → Table × ℕ
  pub read_entry : Table → ℕ → Table × Option (Flow × Value) × ℕ

-- `GW_DONE` and `GW_FAIL`, which the submodule numbers.
pub record Codes : Type 0 where
  pub done : ℕ
  pub fail : ℕ

-- `flow_table_result`
pub record Result : Type 0 where
  pub v : Value
  pub flow_id : ℕ

pub data Register : Type 0 where
  fields_reg add_flow delete_flow set_entry_reg read_entry_reg : Register
  key_saddr key_daddr key_sport key_dport : Register
  result_action result_engine result_ikernel_id valid_reg other : Register

-- The addresses of flow_table.hpp.
unfoldable pub register : ℕ → Register
register a =
    if a == 0
    then fields_reg
    else if a == 1
    then add_flow
    else if a == 2
    then delete_flow
    else if a == 4
    then set_entry_reg
    else if a == 5
    then read_entry_reg
    else if a == 16
    then key_saddr
    else if a == 17
    then key_daddr
    else if a == 18
    then key_sport
    else if a == 19
    then key_dport
    else if a == 24
    then result_action
    else if a == 25
    then result_engine
    else if a == 26
    then result_ikernel_id
    else if a == 32
    then valid_reg
    else other

module _ (lib : HashTable) where
  pub record FlowTable : Type 0 where
    pub lookups : Stream Flow
    pub results : Stream (Option (ℕ × Value))
    pub table : lib.Table
    pub gateway_flow : Flow
    pub gateway_result : Value
    pub gateway_valid : Bool
    pub fields : ℕ

module _ (lib : HashTable) (codes : Codes) where
  abbrev State : Type 0
  State = FlowTable lib

  -- `std::tie(gateway_flow, gateway_result) = entry.value()`, and the valid bit.
  unfoldable pub take_entry : State → Option (Flow × Value) → State
  take_entry s none = record s { gateway_valid = false }
  take_entry s (some (f, v)) = record s {
    gateway_flow = f;
    gateway_result = v;
    gateway_valid = true;
  }

  -- An `int` is its 32 bits; a store into a narrower field keeps the low bits.
  unfoldable pub write_register : Register → State → ℕ → State × ℕ
  unfolding take_entry
  write_register fields_reg s value = (record s { fields = value }, 0)
  write_register key_saddr s value =
      (record s { gateway_flow = record (s.gateway_flow) { saddr = value % 2 ^ 32 } }, codes.done)
  write_register key_daddr s value =
      (record s { gateway_flow = record (s.gateway_flow) { daddr = value % 2 ^ 32 } }, codes.done)
  write_register key_sport s value = (
    record s { gateway_flow = record (s.gateway_flow) { source_port = value % 2 ^ 16 } },
    codes.done,
  )
  write_register key_dport s value = (
    record s { gateway_flow = record (s.gateway_flow) { dest_port = value % 2 ^ 16 } },
    codes.done,
  )
  write_register result_action s value =
      (record s { gateway_result = record (s.gateway_result) { action = value } }, codes.done)
  write_register result_engine s value = (
    record s { gateway_result = record (s.gateway_result) { engine_id = value % 2 } },
    codes.done,
  )
  write_register result_ikernel_id s value = (
    record s { gateway_result = record (s.gateway_result) { ikernel_id = value % 2 ^ 6 } },
    codes.done,
  )
  write_register valid_reg s value = (record s { gateway_valid = not (value == 0) }, codes.done)
  write_register set_entry_reg s value =
      let entry = if s.gateway_valid then some (s.gateway_flow, s.gateway_result) else none in
      let (t, code) = lib.set_entry s.table value entry in (record s { table = t }, code)
  write_register read_entry_reg s value =
      let (t, entry, code) = lib.read_entry s.table value in
      let s' = record s { table = t } in
      (if code == codes.done then take_entry s' entry else s', code)
  write_register add_flow s value = (s, codes.fail)
  write_register delete_flow s value = (s, codes.fail)
  write_register other s value = (s, codes.fail)

  unfoldable pub reg_write : State → ℕ → ℕ → State × ℕ
  unfolding write_register register
  reg_write s address value = write_register (register address) s value

  -- The state, `*value` and the code returned.
  unfoldable pub read_register : Register → State → State × ℕ × ℕ
  read_register fields_reg s = (s, s.fields, 0)
  read_register key_saddr s = (s, s.gateway_flow.saddr, 0)
  read_register key_daddr s = (s, s.gateway_flow.daddr, 0)
  read_register key_sport s = (s, s.gateway_flow.source_port, 0)
  read_register key_dport s = (s, s.gateway_flow.dest_port, 0)
  read_register result_action s = (s, s.gateway_result.action, 0)
  read_register result_engine s = (s, s.gateway_result.engine_id, 0)
  read_register result_ikernel_id s = (s, s.gateway_result.ikernel_id, 0)
  read_register valid_reg s = (s, if s.gateway_valid then 1 else 0, 0)
  read_register add_flow s =
      let (t, value, code) = lib.add_entry s.table s.gateway_flow s.gateway_result in
      (record s { table = t }, value, code)
  read_register delete_flow s =
      let (t, value, code) = lib.delete_entry s.table s.gateway_flow in
      (record s { table = t }, value, code)
  read_register set_entry_reg s = (s, 2 ^ 32 - 1, codes.fail)
  read_register read_entry_reg s = (s, 2 ^ 32 - 1, codes.fail)
  read_register other s = (s, 2 ^ 32 - 1, codes.fail)

  unfoldable pub reg_read : State → ℕ → State × ℕ × ℕ
  unfolding read_register register
  reg_read s address = read_register (register address) s

  unfoldable pub reset : State → State
  reset s = record s { fields = 0 }

  -- The callback of the gateway: a command word with the bit `GW_WRITE`, and the data.
  unfoldable pub gateway_call : State → ℕ → ℕ → State × ℕ × ℕ
  unfolding reg_write reg_read
  gateway_call s addr word =
      let a = addr % 2 ^ 30 in
      if addr % 2 ^ 31 == a
      then reg_read s a
      else let (s', code) = reg_write s a word in (s', word, code)

  -- The second block of `ft_wrapper`: a header's flow goes to the lookups.
  unfoldable pub send_lookup : State → Stream Flow → State × Stream Flow
  send_lookup s header = if full s.lookups then (s, header) else elim (read header) [
    | none ↦ (s, header)
    | some (h, rest) ↦ (record s { lookups = write s.lookups (flow_and h (mask s.fields)) }, rest)
  ]

  unfoldable pub result_of : Option (ℕ × Value) → Result
  result_of none = record { v = passthrough; flow_id = 0 }
  result_of (some (flow_id, v)) = record { v = v; flow_id = flow_id }

  -- The third block: an answer goes to the results.
  unfoldable pub take_result : State → Stream Result → State × Stream Result
  unfolding result_of
  take_result s result = if full result then (s, result) else elim (read s.results) [
    | none ↦ (s, result)
    | some (r, rest) ↦ (record s { results = rest }, write result (result_of r))
  ]

  -- Both blocks.
  unfoldable pub move_words :
      State → Stream Flow → Stream Result → State × Stream Flow × Stream Result
  unfolding send_lookup take_result
  move_words s header result =
      let (s1, header1) = send_lookup s header in
      let (s2, result1) = take_result s1 result in (s2, header1, result1)

  -- `ft_wrapper`, where `gateway` is what the gateway of a submodule does with the callback. A
  -- header is given by its flow, `flow::from_header` with a VM of 0.
  unfoldable pub ft_wrapper :
      ((State → ℕ → ℕ → State × ℕ × ℕ) → State → State)
      → State
      → Stream Flow
      → Stream Result
      → State × Stream Flow × Stream Result
  unfolding gateway_call move_words
  ft_wrapper gateway s header result = move_words (gateway gateway_call s) header result
