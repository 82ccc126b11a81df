-- ===== src/CmsIkernel/Tests.antt =====
-- The ikernel at small inputs.
use nica.Base.{ℕ, ◌^◌, ◌≡◌, false, List, [], ◌∷◌, ◌*◌, ◌+◌, refl}
use nica.Flit.{Packet}
use nica.Sketch.{new_sketch}
use nica.CmsIkernel.{Cms, metadata, initial}
use nica.CmsIkernel.Ingress.{values_of}

abbrev start : Cms
start = record {
  state = metadata;
  read_state = initial;
  values_stream = record { items = []; depth = 2 };
  hashes_addresses = record { items = []; depth = 6 };
  hashes_values = record { items = []; depth = 6 };
  topk_read_request = record { items = []; depth = 1 };
  topk_values = record { items = []; depth = 4 };
  reading_heap = false;
  reading_index = 0;
  k = 0;
  next_topk_pair = record { entity = 0; frequency = 0 };
  sketch = new_sketch (λ (i j : ℕ). 1);
}

abbrev packets : List Packet
packets =
    record { body = (5 * 2 ^ 112, 15) ∷ (1, 15) ∷ []; tail = (2, 7) }
    ∷ record { body = []; tail = (9 * 2 ^ 112 + 3, 1) }
    ∷ []

values_runs : values_of packets ≡ 5 ∷ 9 ∷ []
values_runs = refl
