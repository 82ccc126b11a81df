-- ===== src/CustomRing/Registers.antt =====
-- The registers of `custom_rx_ring` and `ring_context_manager` (nica/hls/custom_rx_ring.cpp).
use nica.Base.{
  ℕ, ◌+◌, ◌-◌, ◌*◌, ◌/◌, ◌%◌, ◌^◌, ◌<◌, ◌≡◌, refl, sym, Bool, true, false, ◌==◌, range, cat, [],
  ◌∷◌, ◌++◌, if◌then◌else◌, inl, inr, Bool-cases, arith,
}
use mathlib.Core.List.{append-nil}
use nica.Stream.{full, write}
use nica.Metadata.{PacketMetadata}
use nica.Contexts.{Codes}
use nica.CustomRing.{RingLibrary, RingContexts, CustomRing}

-- The addresses of custom_rx_ring.hpp.
pub data Register : Type 0 where
  src_mac_lo src_mac_hi src_ip dst_udp src_udp num_contexts : Register
  dst_mac_lo dst_mac_hi dst_ip dst_qpn psn_reg write_context read_context other : Register

unfoldable pub register : ℕ → Register
register a =
    if a == 2
    then src_mac_lo
    else if a == 3
    then src_mac_hi
    else if a == 5
    then src_ip
    else if a == 6
    then dst_udp
    else if a == 7
    then src_udp
    else if a == 10
    then num_contexts
    else if a == 0
    then dst_mac_lo
    else if a == 1
    then dst_mac_hi
    else if a == 4
    then dst_ip
    else if a == 16
    then dst_qpn
    else if a == 17
    then psn_reg
    else if a == 30
    then write_context
    else if a == 31
    then read_context
    else other

-- `x(31, 0) = value` and `x(47, 32) = value` on 48 bits.
abbrev pub set_lo : ℕ → ℕ → ℕ
set_lo x value = cat (x / 2 ^ 32) 32 (value % 2 ^ 32)

abbrev pub set_hi : ℕ → ℕ → ℕ
set_hi x value = cat (value % 2 ^ 16) 32 (x % 2 ^ 32)

module _ (lib : RingLibrary) (codes : Codes) where
  abbrev Rings : Type 0
  Rings = RingContexts lib

  -- `ring_context_manager::gateway_write`; an `int` is its 32 bits.
  unfoldable pub gateway_write : Register → Rings → ℕ → Rings × ℕ
  gateway_write dst_mac_lo r value =
      let c = r.gateway_context in
      (record r { gateway_context = record c { eth_dst = set_lo c.eth_dst value } }, codes.done)
  gateway_write dst_mac_hi r value =
      let c = r.gateway_context in
      (record r { gateway_context = record c { eth_dst = set_hi c.eth_dst value } }, codes.done)
  gateway_write dst_ip r value = (
    record r { gateway_context = record (r.gateway_context) { ip_dst = value % 2 ^ 32 } },
    codes.done,
  )
  gateway_write dst_qpn r value = (
    record r { gateway_context = record (r.gateway_context) { dest_qpn = value % 2 ^ 24 } },
    codes.done,
  )
  gateway_write psn_reg r value = (
    record r { gateway_context = record (r.gateway_context) { psn = value % 2 ^ 24 } },
    codes.done,
  )
  gateway_write write_context r value =
      let (contexts, code) =
        lib.gateway_set r.contexts r.gateway_context ((value + 2 ^ 32 - 1) % 2 ^ 32) in
      (record r { contexts = contexts }, code)
  gateway_write read_context r value =
      let (contexts, c, code) =
        lib.gateway_query r.contexts r.gateway_context ((value + 2 ^ 32 - 1) % 2 ^ 32) in
      (record { contexts = contexts; gateway_context = c }, code)
  gateway_write _ r value = (r, codes.fail)

  -- `ring_context_manager::gateway_read`: `*value` and the code.
  unfoldable pub gateway_read : Register → Rings → ℕ × ℕ
  gateway_read dst_mac_lo r = (range r.gateway_context.eth_dst 31 0, codes.done)
  gateway_read dst_mac_hi r = (range r.gateway_context.eth_dst 47 32, codes.done)
  gateway_read dst_ip r = (r.gateway_context.ip_dst, codes.done)
  gateway_read dst_qpn r = (r.gateway_context.dest_qpn, codes.done)
  gateway_read psn_reg r = (r.gateway_context.psn, codes.done)
  gateway_read _ r = (2 ^ 32 - 1, codes.fail)

  -- `custom_rx_ring::reg_read`: `*value` and the code.
  unfoldable pub read_register : Register → CustomRing lib → ℕ × ℕ
  unfolding gateway_read
  read_register src_mac_lo s = (range s.metadata_cache.eth_src 31 0, codes.done)
  read_register src_mac_hi s = (range s.metadata_cache.eth_src 47 32, codes.done)
  read_register src_ip s = (s.metadata_cache.ip_src, codes.done)
  read_register dst_udp s = (s.metadata_cache.udp_dst, codes.done)
  read_register src_udp s = (s.metadata_cache.udp_src, codes.done)
  read_register num_contexts s = (lib.size, codes.done)
  read_register dst_mac_lo s = gateway_read dst_mac_lo s.rings
  read_register dst_mac_hi s = gateway_read dst_mac_hi s.rings
  read_register dst_ip s = gateway_read dst_ip s.rings
  read_register dst_qpn s = gateway_read dst_qpn s.rings
  read_register psn_reg s = gateway_read psn_reg s.rings
  read_register _ s = (2 ^ 32 - 1, codes.fail)

  -- The end of `reg_write`: the new cache is queued for the data path.
  unfoldable pub queue_update : CustomRing lib → PacketMetadata → CustomRing lib × ℕ
  queue_update s m =
      let s' = record s { metadata_cache = m } in
      if full s.metadata_updates
      then (s', codes.busy)
      else (record s' { metadata_updates = write s.metadata_updates m }, codes.done)

  unfoldable pub write_ring : Register → CustomRing lib → ℕ → CustomRing lib × ℕ
  unfolding gateway_write
  write_ring reg s value =
      let (rings, code) = gateway_write reg s.rings value in (record s { rings = rings }, code)

  unfoldable pub write_register : Register → CustomRing lib → ℕ → CustomRing lib × ℕ
  unfolding queue_update write_ring
  write_register src_mac_lo s value =
      let c = s.metadata_cache in queue_update s (record c { eth_src = set_lo c.eth_src value })
  write_register src_mac_hi s value =
      let c = s.metadata_cache in queue_update s (record c { eth_src = set_hi c.eth_src value })
  write_register src_ip s value =
      queue_update s (record (s.metadata_cache) { ip_src = value % 2 ^ 32 })
  write_register dst_udp s value =
      queue_update s (record (s.metadata_cache) { udp_dst = value % 2 ^ 16 })
  write_register src_udp s value =
      queue_update s (record (s.metadata_cache) { udp_src = value % 2 ^ 16 })
  write_register num_contexts s value = (s, codes.fail)
  write_register other s value = (s, codes.fail)
  write_register reg s value = write_ring reg s value

  unfoldable pub reg_read : CustomRing lib → ℕ → ℕ × ℕ
  unfolding read_register register
  reg_read s address = read_register (register address) s

  unfoldable pub reg_write : CustomRing lib → ℕ → ℕ → CustomRing lib × ℕ
  unfolding write_register register
  reg_write s address value = write_register (register address) s value

-- The bits of a register that keeps what is written, and 0 for the others.
abbrev pub width : Register → ℕ
width src_mac_lo = 32
width src_mac_hi = 16
width src_ip = 32
width dst_udp = 16
width src_udp = 16
width dst_mac_lo = 32
width dst_mac_hi = 16
width dst_ip = 32
width dst_qpn = 24
width psn_reg = 24
width _ = 0

-- The registers whose writes are queued for the data path.
abbrev pub is_queued : Register → Bool
is_queued src_mac_lo = true
is_queued src_mac_hi = true
is_queued src_ip = true
is_queued dst_udp = true
is_queued src_udp = true
is_queued _ = false

-- The metadata with the part that a register stands for replaced.
abbrev pub cache_with : Register → PacketMetadata → ℕ → PacketMetadata
cache_with src_mac_lo c value = record c {
  eth_src = c.eth_src / 4294967296 * 4294967296 + value % 4294967296;
}
cache_with src_mac_hi c value = record c {
  eth_src = value % 65536 * 4294967296 + c.eth_src % 4294967296;
}
cache_with src_ip c value = record c { ip_src = value % 4294967296 }
cache_with dst_udp c value = record c { udp_dst = value % 65536 }
cache_with src_udp c value = record c { udp_src = value % 65536 }
cache_with _ c value = c

-- The state and the code after a write that makes the cache `m`: the queue gets it unless it is
-- full, when the code is `GW_BUSY`.
abbrev pub IsQueued :
    (lib : RingLibrary) → Codes → PacketMetadata → CustomRing lib → CustomRing lib × ℕ → Type 0
IsQueued lib codes m s (t, code) =
    (t.metadata_cache ≡ m)
    × (t.metadata_updates.items
        ≡ s.metadata_updates.items ++ (if full s.metadata_updates then [] else m ∷ []))
    × (code ≡ (if full s.metadata_updates then codes.busy else codes.done))

module _ (lib : RingLibrary) (codes : Codes) where
  metadata_cache-queue_update :
      (s : CustomRing lib) (m : PacketMetadata) → (queue_update lib codes s m).0.metadata_cache ≡ m
  unfolding queue_update
  metadata_cache-queue_update s m = elim (Bool-cases (full s.metadata_updates)) [
    | inl e ↦ rw e refl
    | inr e ↦ rw e refl
  ]

  IsQueued-queue_update :
      (s : CustomRing lib) (m : PacketMetadata)
      → IsQueued lib codes m s (queue_update lib codes s m)
  unfolding queue_update
  IsQueued-queue_update s m = elim (Bool-cases (full s.metadata_updates)) [
    | inl e ↦ rw e (refl, sym (append-nil s.metadata_updates.items), refl)
    | inr e ↦ rw e (refl, refl, refl)
  ]

  -- A write of a MAC address's half, the IP address or a port changes just that part of the
  -- metadata that the registers show, to the low bits of the value, and queues the whole new
  -- metadata for the data path with `GW_DONE`; when the queue is full the registers change all the
  -- same, nothing is queued, and the code is `GW_BUSY`.
  pub write_register-IsQueued :
      (reg : Register) (s : CustomRing lib) (value : ℕ)
      → is_queued reg ≡ true
      → IsQueued lib codes
          (cache_with reg s.metadata_cache value)
          s
          (write_register lib codes reg s value)
  unfolding write_register
  write_register-IsQueued src_mac_lo s v h =
      let c = s.metadata_cache in
      IsQueued-queue_update s (record c { eth_src = set_lo c.eth_src v })
  write_register-IsQueued src_mac_hi s v h =
      let c = s.metadata_cache in
      IsQueued-queue_update s (record c { eth_src = set_hi c.eth_src v })
  write_register-IsQueued src_ip s v h =
      IsQueued-queue_update s (record (s.metadata_cache) { ip_src = v % 2 ^ 32 })
  write_register-IsQueued dst_udp s v h =
      IsQueued-queue_update s (record (s.metadata_cache) { udp_dst = v % 2 ^ 16 })
  write_register-IsQueued src_udp s v h =
      IsQueued-queue_update s (record (s.metadata_cache) { udp_src = v % 2 ^ 16 })
  write_register-IsQueued num_contexts s v h = cc
  write_register-IsQueued dst_mac_lo s v h = cc
  write_register-IsQueued dst_mac_hi s v h = cc
  write_register-IsQueued dst_ip s v h = cc
  write_register-IsQueued dst_qpn s v h = cc
  write_register-IsQueued psn_reg s v h = cc
  write_register-IsQueued write_context s v h = cc
  write_register-IsQueued read_context s v h = cc
  write_register-IsQueued other s v h = cc

  -- A register that keeps what is written reads back the low bits of the value, as many as the
  -- register has, with the code `GW_DONE`, even when the write has returned `GW_BUSY`.
  pub read_register-write_register :
      (reg : Register) (s : CustomRing lib) (value : ℕ)
      → 0 < width reg
      → read_register lib codes reg (write_register lib codes reg s value).0
        ≡ (value % 2 ^ width reg, codes.done)
  unfolding write_register read_register write_ring gateway_write gateway_read
  read_register-write_register src_mac_lo s v h =
      let c = s.metadata_cache in
      let low : range (set_lo c.eth_src v) 31 0 ≡ v % 2 ^ 32 = omega arith in
      rw (metadata_cache-queue_update s (record c { eth_src = set_lo c.eth_src v }), low) refl
  read_register-write_register src_mac_hi s v h =
      let c = s.metadata_cache in
      let high : range (set_hi c.eth_src v) 47 32 ≡ v % 2 ^ 16 = omega arith in
      rw (metadata_cache-queue_update s (record c { eth_src = set_hi c.eth_src v }), high) refl
  read_register-write_register src_ip s v h =
      rw (metadata_cache-queue_update s (record (s.metadata_cache) { ip_src = v % 2 ^ 32 })) refl
  read_register-write_register dst_udp s v h =
      rw (metadata_cache-queue_update s (record (s.metadata_cache) { udp_dst = v % 2 ^ 16 })) refl
  read_register-write_register src_udp s v h =
      rw (metadata_cache-queue_update s (record (s.metadata_cache) { udp_src = v % 2 ^ 16 })) refl
  read_register-write_register num_contexts s v h = absurd (omega arith)
  read_register-write_register dst_mac_lo s v h =
      let low : range (set_lo s.rings.gateway_context.eth_dst v) 31 0 ≡ v % 2 ^ 32 = omega arith in
      rw low refl
  read_register-write_register dst_mac_hi s v h =
      let high : range (set_hi s.rings.gateway_context.eth_dst v) 47 32 ≡ v % 2 ^ 16 =
        omega arith in
      rw high refl
  read_register-write_register dst_ip s v h = refl
  read_register-write_register dst_qpn s v h = refl
  read_register-write_register psn_reg s v h = refl
  read_register-write_register write_context s v h = absurd (omega arith)
  read_register-write_register read_context s v h = absurd (omega arith)
  read_register-write_register other s v h = absurd (omega arith)
