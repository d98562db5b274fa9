-- ===== src/Lib.antt =====
-- The data plane of BESS, the Berkeley Extensible Software Switch. BESS moves batches of packets
-- through a graph of modules; a scheduler decides which task runs next, queues and ports hand
-- packets from one thread to another over rings, and modules keep tables that say where a packet
-- goes. This library models the parts below as functions on explicit state, with the operations in
-- the order of the source, and proves what makes each of them correct.
--
-- Codel (core/utils/codel.h): the CoDel queue. `new`, `push`, `push_all`, `pop`, `resize`,
-- `capacity`, `full` and `destroy` are the methods; `ring_dequeue`, `drop_dequeue` and `drop_loop`
-- are the private helpers. The object's fields are the record's, without the trailing underscore;
-- `dropped` logs the calls of the drop function, and `reads` counts readings of the clock. The
-- clock (tsc_to_ns(rdtsc())), the floating-point expression of NextDrop and deque::max_size are
-- the record `Platform`. The loop of DropDequeue takes one unit of fuel more than there are
-- entries, which is enough since each round takes an entry. Codel/Steps has one RingDequeue,
-- Codel/Loss what happens to entries, Codel/Latency and Codel/Pacing when the dropping state is
-- left, Codel/Bounds the size limit.
--
-- Llring (core/kmod/llring.h): the ring of pointers behind queues and virtual ports. `init`,
-- `set_water_mark`, `sp_do_enqueue`, `sc_do_dequeue`, their bulk, burst and single wrappers and
-- the four counts are the functions of those names with llring in front. Indices are 32-bit words
-- that wrap; `ring` and `obj_table` are memories, a cell for each index; the statistics macros are
-- empty in this build, and the padding and barriers have no counterpart. Llring/Copy shows that
-- the copies unrolled by four are plain copies, Llring/Contents and Llring/Invariant where objects
-- stand, Llring/Enqueue, Llring/Returns and Llring/Dequeue the operations, Llring/Refines whole
-- histories.
--
-- Llring/Multi (core/kmod/llring.h): `__llring_mp_do_enqueue` and `__llring_mc_do_dequeue` with
-- any number of threads, as a step relation. `Enqueue` and `Dequeue` have a constructor for each
-- access to shared memory: the loads of the head and of the other side's tail, the refusal, the
-- compare-and-set that wins or loses, the copy of one object, a round of the waiting loop and the
-- store of the tail; Llring/Multi/Threads interleaves them. Memory is sequentially consistent, as
-- the compiler barriers and the processor's store order make it. Counts of objects without wrap-
-- around accompany the 32-bit words as history; the words alone decide every test, except that a
-- compare-and-set whose index came round all of 2^32 since it was loaded is left out, and so is a
-- call for no objects. Llring/Multi/Spans keeps track of who holds which positions, Shape,
-- Producing, Consuming and Invariant say what holds in every state, and Reached, Races and Settles
-- what follows.
--
-- Checksum (core/utils/checksum.h, core/modules/ip_checksum.cc, core/modules/l4_checksum.cc,
-- core/modules/update_ttl.cc): the Internet checksum on a little-endian x86-64 machine. A packet
-- is a memory of bytes and a header an address in it. `calculate_sum` runs the stages of
-- CalculateSum in order: `sum_vectors` (the wide registers, which the argument `avx2` allows or
-- not), `sum_quads` (the chains of adcq, `adcq`), `sum_shorts` and the reductions; loops take the
-- length as fuel, and that it is enough follows from the result. Checksum/Headers has the IPv4,
-- UDP and TCP functions and the modules IPChecksum and L4Checksum, Checksum/Increment the
-- incremental update, Checksum/Ttl UpdateTTL. Checksum/Same defines when two sums stand for the
-- same ones' complement number, Checksum/Carry, Lanes, Vector and Sum carry it through the stages,
-- and the children of Checksum/Headers show that a stored checksum completes the sum. The branch
-- for machines other than x86-64 is left out.
--
-- L2Forward (core/modules/l2_forward.cc and .h): the module that forwards packets by destination
-- MAC address. L2Forward has the table and the `l2_` functions; the record `Cpu` has DPDK's
-- rte_hash_crc_8byte, which is any function here, and whether the program is built with AVX, which
-- decides between find_index_avx and find_index_basic. The loops over a bucket are `search`,
-- `free_slot` and `try_moving`, on the number of slots left. L2Forward/Commands has the module's
-- handlers, with sscanf as a parameter. L2Forward/Search and L2Forward/Layout are about searches
-- and offsets, L2Forward/Init about l2_init, L2Forward/Slot, L2Forward/Frame, L2Forward/Change and
-- L2Forward/Preserve about additions and deletions, L2Forward/Overwrite about the entry that an
-- addition overwrites, L2Forward/Words about the words that find_index compares, L2Forward/Wide
-- about lookups in buckets of four.
--
-- TrafficClass (core/traffic_class.cc and .h): the tree of traffic classes that the scheduler
-- walks. TrafficClass has the parent pointers and blocked flags, which all classes share, and the
-- two helpers that set a flag and signal the parent: the signal is a `Notice`, and following it is
-- not modelled. TrafficClass/RoundRobin, TrafficClass/RateLimit and TrafficClass/Priority have one
-- policy each; `unblock`, `block`, `add_child`, `remove_child`, `pick_next_child` and
-- `finish_and_account` are the virtual methods. Loops are recursions on the list that is walked.
-- RoundRobin/Order, RoundRobin/Blocking and RoundRobin/Finish are about the serving order,
-- RateLimit/Bucket about the tokens of a step, RateLimit/Rate about the rate of many steps,
-- Priority/Sorted and Priority/Pick about the children's order and the pick. Leaf and builder are
-- not modelled.
--
-- PriorityQueue (core/utils/extended_priority_queue.h): `decrease_key_top` and
-- `delete_single_element`, over a memory with a length. The loop takes the length as fuel, and
-- each round at least doubles the index. PriorityQueue/Heap and Push are the two repairs of a
-- heap, down and up; Top and Operations say what the operations leave.
--
-- TrafficClass/WeightedFair (core/traffic_class.cc, core/traffic_class.h):
-- WeightedFairTrafficClass, the stride scheduler, over that queue. The union of pass and remain is
-- the one field `pass`, as a 64-bit word that is compared as a signed one. WeightedFair/Fair has
-- the passes' window after each operation, History runs of them.
--
-- Trie (core/utils/trie.h): the trie with prefix lookups behind the URL filter. `insert`,
-- `match_key`, `match_prefix` and `lookup` are Insert, Match, MatchPrefix and Lookup; a node
-- pointer is a `Node`, null or a node with its array of children. Characters are taken to be below
-- 128. Trie/Entries shows what the trie has for each key, Trie/History what lookups find after a
-- history of insertions, against the longest-match rule `longest`.
--
-- Vlan (core/modules/vlan_push.cc, core/modules/vlan_pop.cc, core/modules/vlan_split.cc,
-- core/packet.h): a packet is a buffer of bytes with the place of its head and its two lengths;
-- `prepend` and `adj` move the head, with the widths of the fields written out. The sixteen-byte
-- loads and stores are functions on the buffer. `vlan_push`, `vlan_pop` and `vlan_split` are the
-- bodies of the loops over a batch, on one packet.
--
-- Drr (core/modules/drr.cc, core/modules/drr.h): the task side of deficit round robin. The queue
-- of a flow and the ring of the flows are lists; a flow stands in the ring or is the current one,
-- and its deficit is the two's complement of an int. `get_next_packets`, `get_next_flow` and
-- `visit` (the body of the loop of GetNextBatch) take the time as an argument, in seconds.
-- Drr/Serve is about what one visit takes, Drr/Turn about where it leaves the flow, Drr/History
-- about the turns of a flow.
--
-- Not modelled: the parts that call DPDK, the operating system or gRPC (packet pools, ports and
-- drivers, packet capture, core/bessctl.cc, the daemon's start-up), the kernel module and the
-- packet filter's compiler, which are not data-plane code in C++; picohttpparser, a copy of
-- another project's library; the module graph, the scheduler's loop and metadata, the hash tables,
-- NAT and the matching modules. Of core/modules/drr.cc the counting of rounds in GetNextBatch,
-- RunTask, ProcessBatch and the growing of queues are left out.
pub mod Base
pub mod Checksum
pub mod Codel
pub mod Drr
pub mod L2Forward
pub mod Llring
pub mod PriorityQueue
pub mod TrafficClass
pub mod Trie
pub mod Vlan
