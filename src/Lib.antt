-- ===== src/Lib.antt =====
-- NICA: in-network compute acceleration. Packets from the network and from the host pass through
-- ikernels, small hardware kernels that are written in C++ for high-level synthesis. This library
-- models that C++ code and proves what its parts promise each other.
--
-- How the parts interact: the top level parses UDP packets, looks their flows up in the flow table,
-- and sends each packet, as one metadata word and a sequence of data words, to an ikernel. An ikernel
-- decides per packet: it drops or passes the data (drop_or_pass), sends replies to the network, or
-- sends messages to custom rings of the host, for which it needs credits. What leaves the ikernels is
-- collected by the arbiter.
--
-- Which file models what:
-- File Base and its children: shared names, Boolean tests, lists, function arrays, bit ranges.
-- File Stream: `hls::stream`, the FIFO of the HLS dialect. A test of `full` reads the depth; a write
--      appends. Reads return none on an empty stream.
-- File Heap: ikernels/hls/heap.hpp. `bubbleUp` and `bubbleDown` are recursion on fuel, the index for the
--      way up and the size for the way down; the theorems show that this is enough.
-- File IndexedHeap: ikernels/hls/indexed_heap.hpp. The cache of the ntl submodule is the parameter
--      `CacheLib`, whose laws say that a lookup finds only what was stored and not erased.
-- File Links: nica/hls/hls_helper.h and nica/hls/link_with_reg.hpp. A call is one clock of one element.
-- File Flit: the words of the data streams and packets of them.
-- File DropOrPass: nica/hls/drop_or_pass.hpp.
-- File Metadata: nica/hls/ikernel.hpp (packet_metadata, custom_ring_metadata, metadata) and
--      nica/hls/either.hpp. Bit vectors are numbers, and a range or a concatenation is arithmetic.
-- File Credits: nica/hls/ikernel.cpp and the class `ikernel`: message credits of the custom rings.
-- File Sketch: ikernels/hls/cms.cpp, the count-min sketch, whose `int`s are 32 bits in two's
--      complement.
-- File Pipeline: the four streams of an ikernel and `pass_packets` (ikernels/hls/passthrough.cpp).
-- File CmsIkernel: ikernels/hls/cms-ikernel.cpp, the ikernel around the sketch.
-- File FlowTable and its child Keys: nica/hls/flow_table.cpp and flow_table_impl.hpp. The hash table
--      of the ntl submodule is the parameter `HashTable`; the gateway is an argument of `ft_wrapper`.
-- File Contexts: the interface of the submodule's `context_manager`, one context per ikernel.
-- File Passthrough: ikernels/hls/passthrough.cpp.
-- File Threshold: ikernels/hls/threshold.cpp.
-- File Demux: nica/hls/demux.hpp, which sends each packet to the port of its traffic class.
-- File Arbiter: nica/hls/arbiter-impl.hpp. The scheduler of the ntl submodule is the parameter
--      `Scheduler`, and `ALIGN`, which the sources do not define, an argument. The data side
--      (`tx_data`) and the metadata side (`tx_meta`) share the stream `meta_to_data`.
-- File Echo: ikernels/hls/echo.cpp.
-- File PerPacket: the words that an element puts out as a function of a queue of entries, one for
--      each packet, and of its input words; what the elements of udp.cpp and mlx.cpp are compared with.
-- File Mlx: nica/hls/mlx.h and mlx.cpp, the words of the network port.
-- File Udp: nica/hls/udp.h and udp.cpp. The file itself has the headers, and its children Dropper,
--      Lengths, Checksum, Steering, Split, Builder and Crossbar each a class of udp.h. `keep_bytes` of
--      a submodule is an argument.
-- File Nica: nica/hls/nica.cpp, the wrapper around an ikernel.
-- File CustomRing: nica/hls/custom_rx_ring.cpp. The context manager of the ntl submodule, with the
--      commands of its gateway, is the parameter `RingLibrary`.
-- File Memcached: ikernels/hls/memcached_cache.hpp, the cache, over the parameter `Memory`, the board's
--      memory of a submodule, which serves reads and writes in the order in which they are issued;
--      bytes that the code leaves uninitialised are the parameter `Widen`. Its
--      child Responses: the responses of ikernels/hls/memcached.cpp; child Registers: its statistics
--      (`update_stats`) and its registers (the `rpc` of the three managers, `reg_read`, `reg_write`).
-- Integers: `ap_uint<w>` and the C++ unsigned types are natural numbers; where a value can reach the
-- width, the wrap is written out as `% 2 ^ w`. Arrays are functions of the index, and that the code
-- stays in bounds is a theorem where it is not evident.
--
-- Not modelled: the synthesis pragmas and the timing they ask for, printing, the Verilog and Python
-- parts of the repository, and the code of the ntl submodule, which is a parameter where it is used.
pub mod Base
pub mod Stream
pub mod Heap
pub mod IndexedHeap
pub mod Links
pub mod Flit
pub mod DropOrPass
pub mod Metadata
pub mod Mlx
pub mod Credits
pub mod FlowTable
pub mod Contexts
pub mod Passthrough
pub mod Threshold
pub mod Udp
pub mod Memcached
pub mod CustomRing
pub mod Nica
pub mod PerPacket
pub mod Demux
pub mod Echo
pub mod Arbiter
pub mod Sketch
pub mod Pipeline
pub mod CmsIkernel
