-- ===== src/Memcached/Registers.antt =====
-- The counters and the registers of memcached (ikernels/hls/memcached.cpp, memcached-ik.hpp).
mod Tests
use nica.Base.{
  ℕ, ◌+◌, ◌-◌, ◌%◌, ◌^◌, Bool, true, false, ◌==◌, leb, Option, none, some, if◌then◌else◌,
}
use nica.Stream.{Stream, read}
use nica.Contexts.{Codes, ContextManager}

-- `request_type`, `h2n_packet_type` and `cache_stats_type`.
pub data RequestType : Type 0 where
  get set other : RequestType

pub data H2nPacketType : Type 0 where
  h2n_get_response h2n_unknown : H2nPacketType

pub data CacheStatsType : Type 0 where
  stat_hit_gen stat_hit_drop stat_hit_tc_backpressure stat_miss : CacheStatsType

-- `memcached_stats_context`
pub record StatsContext : Type 0 where
  pub get_requests : ℕ
  pub get_req_hit : ℕ
  pub get_req_dropped_hits : ℕ
  pub get_req_miss : ℕ
  pub set_requests : ℕ
  pub n2h_unknown : ℕ
  pub get_response : ℕ
  pub h2n_unknown : ℕ
  pub backpressure_drop_count : ℕ
  pub tc_backpressure_drop_count : ℕ

abbrev pub num_rings : ℕ
num_rings = 2 ^ 10

abbrev inc : ℕ → ℕ
inc n = (n + 1) % 2 ^ 32

-- The cases of the first switch of `update_stats`.
unfoldable pub count_request : RequestType → StatsContext → StatsContext
count_request get c = record c { get_requests = inc c.get_requests }
count_request set c = record c { set_requests = inc c.set_requests }
count_request other c = record c { n2h_unknown = inc c.n2h_unknown }

unfoldable pub count_response : H2nPacketType → StatsContext → StatsContext
count_response h2n_get_response c = record c { get_response = inc c.get_response }
count_response h2n_unknown c = record c { h2n_unknown = inc c.h2n_unknown }

unfoldable pub count_cache : CacheStatsType → StatsContext → StatsContext
count_cache stat_hit_gen c = record c { get_req_hit = inc c.get_req_hit }
count_cache stat_hit_drop c = record c { get_req_dropped_hits = inc c.get_req_dropped_hits }
count_cache stat_hit_tc_backpressure c = record c {
  tc_backpressure_drop_count = inc c.tc_backpressure_drop_count;
}
count_cache stat_miss c = record c { get_req_miss = inc c.get_req_miss }

unfoldable pub count_backpressure : Bool → StatsContext → StatsContext
count_backpressure hit c = record c { backpressure_drop_count = inc c.backpressure_drop_count }

-- The managers of `ring_id`, of `log_size` and of the counters.
pub record Managers : Type 1 where
  pub rings : ContextManager ℕ
  pub caches : ContextManager ℕ
  pub stats : ContextManager StatsContext

module _ (lib : Managers) where
  -- The members of `memcached` that the registers and the counters use.
  pub record Counters : Type 0 where
    pub ctx : lib.rings.Contexts
    pub cache_ctx : lib.caches.Contexts
    pub stats_ctx : lib.stats.Contexts
    pub n2h_stats : Stream (ℕ × RequestType)
    pub h2n_stats : Stream (ℕ × H2nPacketType)
    pub stats_cache : Stream (ℕ × CacheStatsType)
    pub backpressure_drop : Stream (ℕ × Bool)

module _ (lib : Managers) where
  -- One block of `update_stats`: the event that is read, if there is one, counts in the context of
  -- its ikernel.
  unfoldable pub count_event :
      {A : Type 0}
      → (A → StatsContext → StatsContext)
      → Stream (ℕ × A)
      → lib.stats.Contexts
      → Stream (ℕ × A) × lib.stats.Contexts
  count_event count s contexts = elim (read s) [
    | none ↦ (s, contexts)
    | some ((id, event), s') ↦
        (s', lib.stats.assign contexts id (count event (lib.stats.at contexts id)))
  ]

  unfoldable pub update_stats : Counters lib → Counters lib
  unfolding count_event count_request count_response count_cache count_backpressure
  update_stats s =
      let (contexts, served) = lib.stats.update s.stats_ctx in
      let (n2h, contexts1) = count_event count_request s.n2h_stats contexts in
      let (h2n, contexts2) = count_event count_response s.h2n_stats contexts1 in
      let (cache, contexts3) = count_event count_cache s.stats_cache contexts2 in
      let (drops, contexts4) = count_event count_backpressure s.backpressure_drop contexts3 in
      if served then record s { stats_ctx = contexts } else record s {
        stats_ctx = contexts4;
        n2h_stats = n2h;
        h2n_stats = h2n;
        stats_cache = cache;
        backpressure_drop = drops;
      }

module _ (lib : Managers) (codes : Codes) where
  -- `memcached_cache_contexts::rpc`: the contexts, `*v` and the code. Any other address is done.
  unfoldable pub cache_rpc : lib.caches.Contexts → ℕ → ℕ → ℕ → Bool → lib.caches.Contexts × ℕ × ℕ
  cache_rpc contexts address v index reading =
      if address == 0
      then lib.caches.access contexts index reading (λ (c : ℕ). c) (λ (n c : ℕ). n) v
      else (contexts, v, codes.done)

  -- `memcached_contexts::rpc`
  unfoldable pub ring_rpc : lib.rings.Contexts → ℕ → ℕ → ℕ → Bool → lib.rings.Contexts × ℕ × ℕ
  ring_rpc contexts address v index reading =
      if address == 24
      then lib.rings.access contexts index reading (λ (c : ℕ). c) (λ (n c : ℕ). n) v
      else (contexts, if reading then 2 ^ 32 - 1 else v, codes.fail)

  -- `memcached_contexts::find_ring`
  unfoldable pub find_ring : lib.rings.Contexts → ℕ → ℕ
  find_ring contexts id = lib.rings.at contexts id

  -- `memcached_stats_contexts::rpc`
  unfoldable pub stats_rpc : lib.stats.Contexts → ℕ → ℕ → ℕ → Bool → lib.stats.Contexts × ℕ × ℕ
  stats_rpc contexts address v index reading =
      let field = λ (read_field : StatsContext → ℕ) (write_field : ℕ → StatsContext → StatsContext).
        lib.stats.access contexts index reading read_field write_field v in
      if address == 16
      then field (λ c. c.get_requests) (λ n c. record c { get_requests = n })
      else if address == 17
      then field (λ c. c.get_req_hit) (λ n c. record c { get_req_hit = n })
      else if address == 18
      then field (λ c. c.get_req_miss) (λ n c. record c { get_req_miss = n })
      else if address == 19
      then field (λ c. c.set_requests) (λ n c. record c { set_requests = n })
      else if address == 20
      then field (λ c. c.n2h_unknown) (λ n c. record c { n2h_unknown = n })
      else if address == 21
      then field (λ c. c.get_response) (λ n c. record c { get_response = n })
      else if address == 22
      then field (λ c. c.h2n_unknown) (λ n c. record c { h2n_unknown = n })
      else if address == 23
      then field (λ c. c.backpressure_drop_count) (λ n c. record c { backpressure_drop_count = n })
      else if address == 32
      then field (λ c. c.tc_backpressure_drop_count)
          (λ n c. record c { tc_backpressure_drop_count = n })
      else if address == 25
      then field (λ c. c.get_req_dropped_hits) (λ n c. record c { get_req_dropped_hits = n })
      else (contexts, if reading then 2 ^ 32 - 1 else v, codes.fail)

  -- The part that `reg_write` and `reg_read` share: the state, `*value` and the code.
  unfoldable pub access_register : Counters lib → ℕ → ℕ → ℕ → Bool → Counters lib × ℕ × ℕ
  unfolding cache_rpc ring_rpc stats_rpc
  access_register s address value id reading =
      let (caches, cache_value, cache_code) = cache_rpc s.cache_ctx address value id reading in
      let (rings, ring_value, ring_code) = ring_rpc s.ctx address value id reading in
      let (stats, stats_value, stats_code) = stats_rpc s.stats_ctx address value id reading in
      if address == 0
      then (record s { cache_ctx = caches }, cache_value, cache_code)
      else if address == 24
      then (record s { ctx = rings }, ring_value, ring_code)
      else (record s { stats_ctx = stats }, stats_value, stats_code)

  unfoldable pub reg_write : Counters lib → ℕ → ℕ → ℕ → Counters lib × ℕ
  unfolding access_register
  reg_write s address value id =
      let (t, _, code) = access_register s address value id false in
      if leb num_rings id then (s, codes.fail) else (t, code)

  unfoldable pub reg_read : Counters lib → ℕ → ℕ → ℕ → Counters lib × ℕ × ℕ
  unfolding access_register
  reg_read s address value id =
      let (t, v, code) = access_register s address value id true in
      if leb num_rings id then (s, 2 ^ 32 - 1, codes.fail) else (t, v, code)
