-- ===== src/Udp/Steering.antt =====
-- `steering` of nica/hls/udp.cpp: which packets go to the ikernels, which pass, and which drop.
pub mod Decisions
pub mod Steer
pub mod Counters
use nica.Base.{
  ℕ, zero, suc, ◌+◌, ◌-◌, ◌*◌, ◌/◌, ◌%◌, ◌^◌, Bool, true, false, not, ◌==◌, ◌&&◌, ◌||◌, ltb, none,
  some, List, [], ◌∷◌, map, length, if◌then◌else◌,
}
use nica.Stream.{Stream, full, read, write}
use nica.Flit.{Flit}
use nica.Udp.{HeaderBuffer, HeaderParser, header_of_bits, eth_p_ip, ipproto_udp}
use nica.FlowTable.Keys.{Flow, Value}
use nica.FlowTable.{HashTable, Codes, FlowTable, Result, ft_wrapper}
use nica.Links.{dup3}
use nica.Udp.Dropper.{Dropper, Ports, dropper_step}

-- `enum flow_table_action`
abbrev pub ft_passthrough : ℕ
ft_passthrough = 0

abbrev pub ft_drop : ℕ
ft_drop = 1

abbrev pub ft_ikernel : ℕ
ft_ikernel = 2

-- `checks`, less the answer of the flow table, which only `checks_to_action` sets.
pub record Checks : Type 0 where
  pub disabled : Bool
  pub not_ipv4 : Bool
  pub bad_length : Bool
  pub not_udp : Bool

-- `hds_stats`, counters of 32 bits.
pub record HdsStats : Type 0 where
  pub passthrough_disabled : ℕ
  pub passthrough_not_ipv4 : ℕ
  pub passthrough_bad_length : ℕ
  pub passthrough_not_udp : ℕ
  pub ft_action_passthrough : ℕ
  pub ft_action_drop : ℕ
  pub ft_action_ikernel : ℕ

-- The class, less the flow table, with the streams of a call and the statistics it writes to `*s`.
pub record Steering : Type 0 where
  pub stats : HdsStats
  pub checks_to_stats : Stream Checks
  pub checks_to_actions : Stream Checks
  pub hdr_dup_to_dropper : Stream HeaderBuffer
  pub hdr_dup_to_checks : Stream HeaderBuffer
  pub hdr_dup_to_flow_table : Stream HeaderBuffer
  pub matched : Stream Bool
  pub dropper : Dropper
  pub ft_to_action : Stream Result
  pub ft_results : Stream Result
  pub hdr_in : Stream HeaderBuffer
  pub data_in : Stream Flit
  pub pass_raw : Stream Bool
  pub hdr_out : Stream HeaderBuffer
  pub data_out : Stream Flit
  pub result_out : Stream Result
  pub published : HdsStats

unfoldable pub checks_of : Bool → HeaderParser → Checks
checks_of enable hdr = record {
  disabled = not enable;
  not_ipv4 = not (hdr.eth.proto == eth_p_ip);
  bad_length = ltb hdr.ip.tot_len (20 + 8);
  not_udp = not (hdr.ip.protocol == ipproto_udp);
}

-- `write_nb`, which drops the word when the stream is full.
unfoldable pub write_nb : Stream Checks → Checks → Stream Checks
write_nb s c = if full s then s else write s c

unfoldable pub hdr_checks : Bool → Steering → Steering
unfolding checks_of write_nb header_of_bits
hdr_checks enable s = if full s.checks_to_actions then s else elim (read s.hdr_dup_to_checks) [
  | none ↦ s
  | some (buf, rest) ↦
      let c = checks_of enable (header_of_bits buf.hdr) in
      record s {
        hdr_dup_to_checks = rest;
        checks_to_actions = write s.checks_to_actions c;
        checks_to_stats = write_nb s.checks_to_stats c;
      }
]

-- The answer of the flow table, overridden by the checks.
unfoldable pub decide : Checks → Result → Result
decide c r =
    if c.disabled || (c.not_ipv4 || (c.bad_length || c.not_udp))
    then record r { v = record (r.v) { action = ft_passthrough } }
    else r

abbrev pub is_ikernel : Result → Bool
is_ikernel r = r.v.action == ft_ikernel

abbrev pub is_passthrough : Result → Bool
is_passthrough r = r.v.action == ft_passthrough

unfoldable pub checks_to_action : Steering → Steering
unfolding decide
checks_to_action s =
    if full s.ft_results || full s.result_out then s else elim (read s.checks_to_actions) [
      | none ↦ s
      | some (c, cs) ↦ elim (read s.ft_to_action) [
        | none ↦ s
        | some (r, rs) ↦
            let d = decide c r in
            record s {
              checks_to_actions = cs;
              ft_to_action = rs;
              ft_results = write s.ft_results d;
              result_out = if is_ikernel d then write s.result_out d else s.result_out;
            }
      ]
    ]

-- `++` on a counter of 32 bits, under a test.
unfoldable pub bump : Bool → ℕ → ℕ
bump b n = if b then (n + 1) % 2 ^ 32 else n

unfoldable pub count_checks : HdsStats → Checks → HdsStats
unfolding bump
count_checks t c = record t {
  passthrough_disabled = bump c.disabled t.passthrough_disabled;
  passthrough_not_ipv4 = bump c.not_ipv4 t.passthrough_not_ipv4;
  passthrough_bad_length = bump c.bad_length t.passthrough_bad_length;
  passthrough_not_udp = bump c.not_udp t.passthrough_not_udp;
}

unfoldable pub update_stats_checks : Steering → Steering
unfolding count_checks
update_stats_checks s =
    let s' = record s {
      published = record (s.published) {
        passthrough_disabled = s.stats.passthrough_disabled;
        passthrough_not_ipv4 = s.stats.passthrough_not_ipv4;
        passthrough_bad_length = s.stats.passthrough_bad_length;
        passthrough_not_udp = s.stats.passthrough_not_udp;
      };
    } in
    elim (read s.checks_to_stats) [
      | none ↦ s'
      | some (c, rest) ↦ record s' { checks_to_stats = rest; stats = count_checks s.stats c }
    ]

unfoldable pub count_action : HdsStats → ℕ → HdsStats
unfolding bump
count_action t action = record t {
  ft_action_passthrough = bump (action == ft_passthrough) t.ft_action_passthrough;
  ft_action_drop = bump (action == ft_drop) t.ft_action_drop;
  ft_action_ikernel = bump (action == ft_ikernel) t.ft_action_ikernel;
}

unfoldable pub update_stats_actions : Steering → Steering
unfolding count_action
update_stats_actions s =
    let s' = record s {
      published = record (s.published) {
        ft_action_passthrough = s.stats.ft_action_passthrough;
        ft_action_drop = s.stats.ft_action_drop;
        ft_action_ikernel = s.stats.ft_action_ikernel;
      };
    } in
    if full s.matched || full s.pass_raw then s' else elim (read s.ft_results) [
      | none ↦ s'
      | some (ft, rest) ↦ record s' {
        ft_results = rest;
        matched = write s.matched (is_ikernel ft);
        pass_raw = write s.pass_raw (is_passthrough ft);
        stats = count_action s.stats ft.v.action;
      }
    ]

-- The decisions between the flow table and the dropper.
unfoldable pub steer_decisions : Steering → Steering
unfolding checks_to_action update_stats_checks update_stats_actions
steer_decisions s = update_stats_actions (update_stats_checks (checks_to_action s))
