-- ===== src/CustomRing/Tests.antt =====
-- The output of the custom rings at small inputs.
use nica.Base.{ℕ, ◌≡◌, refl, List, [], ◌∷◌, store, arith}
use nica.Stream.{Stream}
use nica.Metadata.{Metadata, PacketMetadata}
use nica.Contexts.Tests.{array_manager, codes}
use nica.CustomRing.{RingContext, RingLibrary, CustomRing, constructed, ring_hdrs}
use nica.CustomRing.Messages.{
  take_packets, psn_of, psn_of-take_packets, Balanced, ring_hdrs-Balanced,
}
use nica.CustomRing.Registers.{
  src_ip, write_register, cache_with, IsQueued, write_register-IsQueued,
}

-- A manager whose gateway's commands are done at once.
abbrev ring_library : RingLibrary
ring_library = record {
  manager = array_manager;
  gateway_set = λ (c : ℕ → RingContext) (x : RingContext) (i : ℕ). (store c i x, 0);
  gateway_query = λ (c : ℕ → RingContext) (x : RingContext) (i : ℕ). (c, c i, 0);
  size = 64;
}

abbrev deep : {A : Type 0} → List A → Stream A
deep l = record { items = l; depth = 64 }

abbrev zeros : PacketMetadata
zeros = record { eth_dst = 0; eth_src = 0; ip_dst = 0; ip_src = 0; udp_dst = 0; udp_src = 0 }

abbrev to_ring : ℕ → Metadata
to_ring r = record {
  pkt_type = 0;
  flow_id = 3;
  ikernel_id = 2;
  var = 1;
  ring_id = r;
  ip_identification = 5;
  length = 100;
}

abbrev rings : CustomRing ring_library
rings = record {
  metadata = constructed zeros;
  metadata_cache = constructed zeros;
  metadata_updates = deep [];
  rings = record {
    contexts = λ (i : ℕ). record { eth_dst = 6; ip_dst = 7; dest_qpn = 8; psn = 16777215 };
    gateway_context = record { eth_dst = 0; ip_dst = 0; dest_qpn = 0; psn = 0 };
  };
  bth = deep [];
  icrc = deep [];
  empty_packets = deep [];
  enable_stream = deep [];
  hdr_in = deep (to_ring 5 ∷ []);
  hdr_out = deep [];
}

abbrev keep_bytes : ℕ → ℕ
keep_bytes n = 0

psn_of-take_packets_example :
    psn_of ring_library keep_bytes
      (take_packets ring_library keep_bytes rings
        (to_ring 5 ∷ to_ring 0 ∷ to_ring 4 ∷ to_ring 5 ∷ []))
      4
    ≡ 1
psn_of-take_packets_example =
    psn_of-take_packets ring_library keep_bytes (to_ring 5 ∷ to_ring 0 ∷ to_ring 4 ∷ to_ring 5 ∷ [])
      rings 4 (omega arith)

ring_hdrs-Balanced_example :
    Balanced ring_library keep_bytes (ring_hdrs ring_library keep_bytes rings) rings
ring_hdrs-Balanced_example = ring_hdrs-Balanced ring_library keep_bytes rings

write_register-IsQueued_example :
    IsQueued ring_library codes
      (cache_with src_ip rings.metadata_cache 9)
      rings
      (write_register ring_library codes src_ip rings 9)
write_register-IsQueued_example = write_register-IsQueued ring_library codes src_ip rings 9 refl
