-- ===== src/CustomRing.antt =====
-- nica/hls/custom_rx_ring.cpp and custom_rx_ring-impl.hpp: messages to custom rings become RoCE
-- packets of an unreliable connection, with a sequence number for each ring.
pub mod Messages
pub mod Registers
mod Tests
use nica.Base.{
  ℕ, ◌+◌, ◌-◌, ◌*◌, ◌/◌, ◌%◌, ◌^◌, Bool, true, false, not, ◌==◌, ◌||◌, none, some, range, cat,
  if◌then◌else◌,
}
use nica.Stream.{Stream, full, read, write}
use nica.Flit.{Flit}
use nica.Metadata.{Metadata, PacketMetadata, empty_packet, set_packet_metadata}
use nica.Contexts.{Codes, ContextManager}

pub record RingContext : Type 0 where
  pub eth_dst : ℕ
  pub ip_dst : ℕ
  pub dest_qpn : ℕ
  pub psn : ℕ

-- The context manager with the commands of its gateway, `gateway_set` and `gateway_query`: a command
-- stores the gateway's context or loads it, and has a code.
pub record RingLibrary : Type 1 where
  pub manager : ContextManager RingContext
  pub gateway_set : manager.Contexts → RingContext → ℕ → manager.Contexts × ℕ
  pub gateway_query : manager.Contexts → RingContext → ℕ → manager.Contexts × RingContext × ℕ
  pub size : ℕ

-- `ring_context_manager`
module _ (lib : RingLibrary) where
  pub record RingContexts : Type 0 where
    pub contexts : lib.manager.Contexts
    pub gateway_context : RingContext

-- The class with the streams of `ring_hdrs`.
module _ (lib : RingLibrary) where
  pub record CustomRing : Type 0 where
    pub metadata : PacketMetadata
    pub metadata_cache : PacketMetadata
    pub metadata_updates : Stream PacketMetadata
    pub rings : RingContexts lib
    pub bth : Stream Flit
    pub icrc : Stream ℕ
    pub empty_packets : Stream Bool
    pub enable_stream : Stream Bool
    pub hdr_in : Stream Metadata
    pub hdr_out : Stream Metadata

-- The fields that the constructor sets.
unfoldable pub constructed : PacketMetadata → PacketMetadata
constructed m = record m { eth_src = 1; ip_src = 167772161; udp_dst = 4791; udp_src = 4791 }

-- `(-len) & 3`
unfoldable pub pad_count : ℕ → ℕ
pad_count len = (2 ^ 16 - len % 2 ^ 16) % 4

-- `gen_bth` of the context and the length: the word, where `keep_bytes` of a submodule gives the
-- byte enables of a number of bytes, and the length as left in `len`.
unfoldable pub gen_bth : (ℕ → ℕ) → RingContext → ℕ → Flit × ℕ
unfolding pad_count
gen_bth keep_bytes context len =
    let pad = pad_count len in
    let head = cat (cat (cat 36 8 (pad * 16)) 16 (2 ^ 16 - 1)) 8 0 in
    (
      record {
        bits = cat (cat (cat head 24 context.dest_qpn) 32 context.psn) 160 0;
        keep = keep_bytes 12;
        last = true;
      },
      (len + pad) % 2 ^ 16,
    )

module _ (lib : RingLibrary) where
  -- `psn++`, of 24 bits, in the context of the ring.
  unfoldable pub next_packet : RingContexts lib → ℕ → RingContext × RingContexts lib
  next_packet r ring_id =
      let i = ring_id - 1 in
      let context = lib.manager.at r.contexts i in
      (
        context,
        record r {
          contexts =
              lib.manager.assign r.contexts i (record context { psn = (context.psn + 1) % 2 ^ 24 });
        },
      )

  -- The branch of `ring_hdrs` for a message to a ring.
  unfoldable pub ring_message : (ℕ → ℕ) → CustomRing lib → Metadata → CustomRing lib
  unfolding next_packet gen_bth
  ring_message keep_bytes s m =
      let (context, rings) = next_packet s.rings m.ring_id in
      let (bth_flit, len) = gen_bth keep_bytes context m.length in
      let packet = record (s.metadata) { eth_dst = context.eth_dst; ip_dst = context.ip_dst } in
      record s {
        rings = rings;
        bth = write s.bth bth_flit;
        icrc = write s.icrc 0;
        hdr_out =
            write s.hdr_out
              (record (set_packet_metadata m packet) { length = (len + 16) % 2 ^ 16; ring_id = 0 });
      }

  abbrev pub blocked : CustomRing lib → Bool
  blocked s =
      full s.hdr_out
      || (full s.bth || (full s.enable_stream || (full s.empty_packets || full s.icrc)))

  -- The body after `hdr_in.read()`.
  unfoldable pub take_packet : (ℕ → ℕ) → CustomRing lib → Metadata → CustomRing lib
  unfolding ring_message
  take_packet keep_bytes s m =
      let s' = record s {
        empty_packets = write s.empty_packets (empty_packet m);
        enable_stream = write s.enable_stream (not (m.ring_id == 0));
      } in
      if m.ring_id == 0
      then record s' { hdr_out = write s.hdr_out m }
      else ring_message keep_bytes s' m

  unfoldable pub take_update : CustomRing lib → CustomRing lib
  take_update s = elim (read s.metadata_updates) [
    | none ↦ s
    | some (m, rest) ↦ record s { metadata = m; metadata_updates = rest }
  ]

  unfoldable pub ring_packets : (ℕ → ℕ) → CustomRing lib → CustomRing lib
  unfolding take_packet
  ring_packets keep_bytes s = if blocked s then s else elim (read s.hdr_in) [
    | none ↦ s
    | some (m, rest) ↦ take_packet keep_bytes (record s { hdr_in = rest }) m
  ]

  unfoldable pub ring_hdrs : (ℕ → ℕ) → CustomRing lib → CustomRing lib
  unfolding take_update ring_packets
  ring_hdrs keep_bytes s =
      let s1 = take_update s in
      let (contexts, served) = lib.manager.update s1.rings.contexts in
      let s2 = record s1 { rings = record (s1.rings) { contexts = contexts } } in
      if served then s2 else ring_packets keep_bytes s2
