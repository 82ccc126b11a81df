-- ===== src/Memcached/Registers/Tests.antt =====
-- Counters of two requests, and registers that read them.
use nica.Base.{◌≡◌, refl, [], ◌∷◌, ◌-◌, ◌^◌}
use nica.Stream.{Stream}
use nica.Contexts.Tests.{array_manager, codes}
use nica.Memcached.Registers.{
  get, set, stat_miss, StatsContext, Managers, Counters, update_stats, reg_read,
}

abbrev no_counts : StatsContext
no_counts = record {
  get_requests = 0;
  get_req_hit = 0;
  get_req_dropped_hits = 0;
  get_req_miss = 0;
  set_requests = 2 ^ 32 - 1;
  n2h_unknown = 0;
  get_response = 0;
  h2n_unknown = 0;
  backpressure_drop_count = 0;
  tc_backpressure_drop_count = 0;
}

abbrev managers : Managers
managers = record { rings = array_manager; caches = array_manager; stats = array_manager }

abbrev start : Counters managers
start = record {
  ctx = λ i. i;
  cache_ctx = λ i. 20;
  stats_ctx = λ i. no_counts;
  n2h_stats = record { items = (3, set) ∷ (3, get) ∷ []; depth = 4 };
  h2n_stats = record { items = []; depth = 4 };
  stats_cache = record { items = (3, stat_miss) ∷ []; depth = 4 };
  backpressure_drop = record { items = []; depth = 4 };
}

abbrev counted : Counters managers
unfolding update_stats
counted = update_stats managers (update_stats managers start)

-- A counter of 32 bits wraps.
set_requests_test : (counted.stats_ctx 3).set_requests ≡ 0
unfolding counted nica.Stream.read
set_requests_test = refl

get_requests_test : (counted.stats_ctx 3).get_requests ≡ 1
unfolding counted nica.Stream.read
get_requests_test = refl

get_req_miss_test : (counted.stats_ctx 3).get_req_miss ≡ 1
unfolding counted nica.Stream.read
get_req_miss_test = refl

reg_read_test : (reg_read managers codes counted 16 0 3).1 ≡ 1
unfolding reg_read counted nica.Stream.read
reg_read_test = refl
