-- ===== src/Udp/Tests.antt =====
-- The elements of nica/hls/udp.cpp at small inputs.
use nica.Base.{
  ℕ, ◌+◌, ◌-◌, ◌*◌, ◌%◌, ◌^◌, ◌<◌, ◌≡◌, ◌==◌, Bool, true, false, List, [], ◌∷◌, ◌++◌, map, refl,
  if◌then◌else◌, arith,
}
use nica.Stream.{Stream}
use nica.Flit.{Flit, to_flits}
use nica.Metadata.{Metadata}
use nica.Mlx.{MlxMetadata}
use nica.FlowTable.{Result}
use nica.Udp.{ip_bits, HeaderBuffer, HeaderParser}
use nica.Udp.Encoding.{IpFits, UdpFits}
use nica.Udp.Dropper as Dropper
use nica.Udp.Dropper.Drops.{header_result, data_result, run_results}
use nica.Udp.Lengths as Lengths
use nica.Udp.Lengths.Wanted as Wanted
use nica.Udp.Lengths.{PacketLengths, LengthAdjust, lengths_of_total}
use nica.Udp.Lengths.Counts.{lengths_of_total_lem}
use nica.Udp.Checksum.{checksums_of, header_sums, Intermediate}
use nica.Udp.Checksum as Checksum
use nica.Udp.Checksum.Sums.{add_flits, words}
use nica.Udp.Checksum.Whole.{payload_words}
use nica.Udp.Checksum.Packets.{
  checksums_of-add_flits, checksums_of-header_sums, receiver_words, in_packet, after_packet,
  run-after_packet,
}
use nica.Udp.Steering.{Steering, HdsStats, checks_of, hdr_checks, steer_decisions}
use nica.Udp.Steering.Decisions.{Agree, steer_decisions-Agree}
use nica.Udp.Split as Split
use nica.Udp.Split.{data_start, final_word}
use nica.Udp.Split.Words.{data_words, joined, joined_flits}
use nica.Udp.Split.Packets.{at, header_of, joined_flits-run}
use nica.Udp.Crossbar as Crossbar
use nica.Udp.Crossbar.Routes.{SameRoutes, run-SameRoutes}
use nica.Udp.Builder as Builder
use nica.Udp.Builder.{HeaderToMlx, pad_run}
use nica.Udp.Builder.Headers.{SameHeaders, run-SameHeaders}
use nica.Udp.Builder.Padding as Padding
use nica.Udp.Builder.Padding.{Beat, to_axi4s, fill_packets, pad_run-fill_packets}

-- A stream of a depth that is never reached here.
abbrev deep : {A : Type 0} → List A → Stream A
deep l = record { items = l; depth = 64 }

-- A header with a UDP length, and one of a packet without data.
abbrev with_data : HeaderBuffer
with_data = record { hdr = 28 * 2 ^ 16; pkt_id = 1; user = 0; drop = false; generated = false }

abbrev without_data : HeaderBuffer
without_data = record { hdr = 8 * 2 ^ 16; pkt_id = 2; user = 0; drop = false; generated = false }

abbrev word : ℕ → Bool → Flit
word b l = record { bits = b; keep = 2 ^ 32 - 1; last = l }

abbrev three_packets : Dropper.Ports
three_packets = record {
  dropper = record {
    mode = Dropper.idle;
    drop = false;
    empty_packets_have_data = true;
    data_buf_valid = false;
    data_buf = word 0 false;
  };
  pass = deep (true ∷ false ∷ true ∷ []);
  header_in = deep (with_data ∷ with_data ∷ without_data ∷ []);
  data_in = deep (word 1 false ∷ word 2 true ∷ word 3 true ∷ word 4 true ∷ []);
  header_out = deep [];
  data_out = deep [];
}

run_results_example :
    (header_result (Dropper.run 12 three_packets) ≡ header_result three_packets)
    × (data_result (Dropper.run 12 three_packets) ≡ data_result three_packets)
run_results_example = run_results 12 three_packets

-- A packet of 60 bytes of data in three words.
abbrev long_packet : LengthAdjust
long_packet = record {
  mode = Lengths.idle;
  data_buf_valid = false;
  data_buf = word 0 false;
  pkt = record { word_count = 0; tot_len = 0; last_word_data = 0 };
  packets = deep [];
  hdr_in =
      deep
        (record { hdr = 88 * 2 ^ 192; pkt_id = 1; user = 0; drop = false; generated = false } ∷ []);
  data_in = deep (word 1 false ∷ word 2 false ∷ word 3 true ∷ []);
  data_out = deep [];
}

lengths_of_total_lem_example :
    let p = lengths_of_total 88 in
    (32 * p.word_count + p.last_word_data ≡ 60 + (if p.last_word_data == 0 then 0 else 32))
    × (p.last_word_data < 32)
    × (p.word_count < 2 ^ 11)
    × ((p.word_count == 0) ≡ false)
lengths_of_total_lem_example = lengths_of_total_lem 88 (omega arith) (omega arith)

abbrev message : Metadata
message = record {
  pkt_type = 0;
  flow_id = 3;
  ikernel_id = 2;
  var = 7 * 2 ^ 96 + 9;
  ring_id = 0;
  ip_identification = 5;
  length = 100;
}

abbrev header : HeaderParser
header = record {
  eth = record { dest = 1; source = 2; proto = 2048 };
  ip = record {
    version = 4;
    ihl = 5;
    tos = 0;
    tot_len = 92;
    id = 5;
    frag_off = 0;
    ttl = 64;
    protocol = 17;
    check = 77;
    saddr = 167772161;
    daddr = 167772162;
  };
  udp = record { source = 1000; dest = 2000; length = 72; checksum = 0 };
}

header-IpFits : IpFits header.ip
header-IpFits = record {
  version = omega arith;
  ihl = omega arith;
  tos = omega arith;
  tot_len = omega arith;
  id = omega arith;
  frag_off = omega arith;
  ttl = omega arith;
  protocol = omega arith;
  check = omega arith;
  saddr = omega arith;
  daddr = omega arith;
}

header-UdpFits : UdpFits header.udp
header-UdpFits = record {
  source = omega arith;
  dest = omega arith;
  length = omega arith;
  checksum = omega arith;
}

abbrev two_words : List Flit
two_words = word 12345678901234567890 false ∷ word 99 true ∷ []

checksums_of-add_flits_example :
    let c = (checksums_of (add_flits (header_sums header) two_words)).udp_checksum in
    (c < 2 ^ 16)
    × ((receiver_words header + 255 * header.ip.protocol + payload_words two_words + c) % 65535 ≡ 0)
checksums_of-add_flits_example =
    checksums_of-add_flits header two_words header-IpFits header-UdpFits
      (omega arith, cc, (omega arith, λ e. refl, tt)) (omega arith)

checksums_of-header_sums_example :
    let c = (checksums_of (header_sums header)).ip_checksum in
    (c < 2 ^ 16) × (words (ip_bits (record (header.ip) { check = c })) 10 % 65535 ≡ 0)
checksums_of-header_sums_example = checksums_of-header_sums header header-IpFits

abbrev no_sums : Intermediate
no_sums = record { ip_checksum = λ i. 0; udp_checksum = λ i. 0 }

run-after_packet_example :
    let ws = to_flits ((1, 2 ^ 32 - 1) ∷ []) (2, 2 ^ 31) in
    Checksum.run 2 (in_packet (deep []) [] 8 [] 4 (deep []) no_sums ws)
    ≡ after_packet (deep []) [] 8 [] 4 (deep []) (add_flits no_sums ws)
run-after_packet_example =
    run-after_packet (deep []) [] 8 [] 4 (deep []) ((1, 2 ^ 32 - 1) ∷ []) (2, 2 ^ 31) no_sums
      (omega arith)

abbrev to_ikernel : Result
to_ikernel = record { v = record { action = 2; engine_id = 1; ikernel_id = 3 }; flow_id = 9 }

abbrev no_stats : HdsStats
no_stats = record {
  passthrough_disabled = 0;
  passthrough_not_ipv4 = 0;
  passthrough_bad_length = 0;
  passthrough_not_udp = 0;
  ft_action_passthrough = 0;
  ft_action_drop = 0;
  ft_action_ikernel = 0;
}

abbrev steering : Steering
steering = record {
  stats = no_stats;
  checks_to_stats = deep [];
  checks_to_actions = deep (checks_of true header ∷ []);
  hdr_dup_to_dropper = deep [];
  hdr_dup_to_checks = deep (with_data ∷ []);
  hdr_dup_to_flow_table = deep [];
  matched = deep [];
  dropper = three_packets.dropper;
  ft_to_action = deep (to_ikernel ∷ to_ikernel ∷ []);
  ft_results = deep [];
  hdr_in = deep [];
  data_in = deep [];
  pass_raw = deep [];
  hdr_out = deep [];
  data_out = deep [];
  result_out = deep [];
  published = no_stats;
}

steer_decisions-Agree_example : Agree true (steer_decisions (hdr_checks true steering)) steering
steer_decisions-Agree_example = steer_decisions-Agree true steering

-- The byte enables, where the submodule's function is the one of whole words.
abbrev all_bytes : ℕ → ℕ
all_bytes n = 2 ^ 32 - 1

abbrev packet_metadata : MlxMetadata
packet_metadata = record { user = 4; id = 1 }

joined_flits-run_example :
    let ds = data_words 12 [] (13, 2 ^ 31) ++ final_word all_bytes 13 ∷ [] in
    let r = Split.run all_bytes 2 (
      at all_bytes packet_metadata
        (deep [])
        []
        8
        []
        4
        8
        Split.reading_header
        11
        (to_flits ((12, 0) ∷ []) (13, 2 ^ 31))
        []
        []) in
    (r.header.items ≡ header_of all_bytes packet_metadata (deep []) [] 8 [] 4 8 11 12 ∷ [])
    × ((Split.run all_bytes 1 r).data_out.items ≡ ds)
    × (joined_flits (header_of all_bytes packet_metadata (deep []) [] 8 [] 4 8 11 12).hdr ds
        ≡ joined (11 * 2 ^ 256 + 12) [] (13, 2 ^ 31) * 2 ^ 80)
joined_flits-run_example =
    joined_flits-run all_bytes packet_metadata (deep []) [] 8 [] 4 8 11 (12, 0) [] (13, 2 ^ 31) []
      (omega arith) tt (omega arith) (omega arith) (omega arith)

abbrev crossing : Crossbar.Crossbar
crossing = record {
  mode = Crossbar.idle;
  current_steering_decision = to_ikernel;
  hdr_in = deep (with_data ∷ without_data ∷ []);
  data_in = deep (word 1 false ∷ word 2 true ∷ []);
  steer_results = deep (to_ikernel ∷ to_ikernel ∷ []);
  hdr_out = λ i. deep [];
  ft_results = λ i. deep [];
  data_out = λ i. deep [];
}

run-SameRoutes_example : SameRoutes 1 (Crossbar.run 2 without_data 5 crossing) crossing
run-SameRoutes_example = run-SameRoutes 2 without_data 5 crossing 1 (omega arith, (omega arith, tt))

abbrev building : HeaderToMlx
building = record {
  mode = Builder.idle;
  buffer = 0;
  metadata_in = deep (message ∷ record message { pkt_type = 1 } ∷ []);
  data_out = deep [];
  empty_packets = deep [];
  metadata_out = deep [];
  enable_stream = deep [];
}

run-SameHeaders_example : SameHeaders all_bytes (Builder.run all_bytes 4 building) building
run-SameHeaders_example = run-SameHeaders all_bytes 4 building

-- A packet of 42 bytes, one of 61 and one of 10.
abbrev beat : ℕ → ℕ → Bool → Beat
beat bits valid last = record { bits = bits; valid = valid; last = last; user = 0; id = 0 }

abbrev beats : List Beat
beats =
    beat 7 32 false
    ∷ beat (5 * 2 ^ 176 + 9) 10 true
    ∷ beat 8 32 false
    ∷ beat (6 * 2 ^ 24) 29 true
    ∷ beat (4 * 2 ^ 176 + 9) 10 true
    ∷ []

pad_run-fill_packets_example :
    (pad_run 5 (Padding.at 64 64 0 (map to_axi4s beats) [])).words_out.items
    ≡ map to_axi4s (fill_packets 0 beats)
pad_run-fill_packets_example =
    pad_run-fill_packets 64 64 beats 0 []
      (
        omega arith,
        omega arith,
        omega arith,
        (
          omega arith,
          omega arith,
          omega arith,
          (
            omega arith,
            omega arith,
            omega arith,
            (omega arith, omega arith, omega arith, (omega arith, omega arith, omega arith, tt)),
          ),
        ),
      )
      (omega arith)

filled_test :
    fill_packets 0 beats
    ≡ beat 7 32 false
      ∷ beat (5 * 2 ^ 176) 28 true
      ∷ beat 8 32 false
      ∷ beat (6 * 2 ^ 24) 29 true
      ∷ beat (4 * 2 ^ 176 + 9) 10 true
      ∷ []
filled_test = refl
