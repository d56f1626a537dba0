-- ===== src/Lib.antt =====
-- Homa-NIC: the queueing simulator, its workload distributions, the kernel driver, and the
-- tracing, the test utilities and the benchmarks of the programs on top.
--
-- The repository holds the hardware design of a network card that speaks Homa (hw, firmware), a
-- simulator of the card's message queues (model), a Linux driver that gives user programs the
-- card's buffers (driver), and benchmark programs (app). The simulator asks whether a small sorted
-- queue in front of a cheap list (PIFO_Naive) sends packets in nearly the order of an ideal
-- priority queue (Ideal). Each slot of 64 bytes it takes a departure, perhaps an arrival, and one
-- step of the queue; message lengths come from the distributions of Homa's workloads.
--
-- Prelude: what the parts share. Prelude.Lists has lists over the native numbers, Prelude.Bytes
--   integers as bytes in memory, Prelude.Int the library's integers over them with the casts of
--   C++, Prelude.Outcome the results of code that can fault (a failed assertion, an access out of
--   bounds, the dereference of an end iterator, an abort) and the two predicates on them: Returns P,
--   the code completes with a value in P, and Ends F P, it completes with one or faults as F allows.
-- Sim: model/queues.hh and model/qsim.cc.
--   Sim.Entry: entry_t and the comparison of `Compare`, remaining chunks and then the smaller id.
--   Sim.Multiset: std::multiset<entry_t, Compare> as the list in iteration order.
--   Sim.Base: the class Queue, with its statistics, arrival and departure. A subclass is a record
--     Discipline of the virtual functions. Sim.Base.Account proves what a departure does to gqueue.
--   Sim.Ideal: the class Ideal. Sim.Ideal.Invariant and Arrivals have its invariant, Sim.Ideal.Run
--     rounds and runs of the loop, Sim.Ideal.Service the single operations, Sim.Ideal.Drain a
--     queue that nothing arrives at.
--   Sim.PifoNaive: the class PIFO_Naive. Its child modules prove that a step keeps every message:
--     Places and Contents on the lists, Advance for the held entry, Moves for the two transfers.
--     System relates the queue to gqueue, Departure and Events keep that relation, Run has runs,
--     Pulse the runs that drain. Ready and Drain, with its children, have the slots in which a
--     queue empties when nothing arrives, and the end of a drain.
--   Sim.Qsim: the three loops of main. The std::exponential_distribution, the arithmetic of double
--     that they do on arrival times, and the draws of the generator are the record Process.
--     Sim.Idle has the draining mode with the `max` it has without an option.
--   Sim.Main: main of model/qsim.cc, from its options to the end of a simulation. What it takes from
--     libraries is the record World, and getopt_long gives the list of options. Sim.Main.Max follows
--     `max` through the options, Kinds has the runs of each type of queue, Runs those of main.
-- Dist: model/dist.cc and model/dist.h. Dist.W1 to Dist.W5 are the five tables, Dist.Generator the
--   class dist_point_gen and dist_msg_overhead, Dist.Construct and Dist.Sample its constructor and
--   sampling, Dist.Draw the length that main draws from it. A fraction is kept as the integer number
--   of 10^-16 (its name for 1.0 is `one`), so the tables are exact; strtol is a parameter.
-- Driver: driver/homanic.c. The sessions of the character device, open, close and mmap; the memory
--   that dma_alloc_coherent returns is a parameter, and the mappings written to the card are a list.
--   Driver.Card reads that list as the card does: the last mapping of a port and kind is in force.
--   Driver.Files has the sessions of the files that are open at one time, when calls come one after
--   the other; simultaneous opens are not modelled.
--   Driver.Wire has the bytes that iomov64B stores and the fields that the card reads (the bundle
--   DmaMap of hw/src/main/scala/Interfaces.scala), Driver.Wire.Log relates them to the list.
--   Driver.Pages has the page attributes, over the kernel's operations as the record PageTable.
-- Trace: app/lib/time_trace.h and app/lib/time_trace.cc.
--   Trace.Buffer: `struct event`, `buffer` and `record`. The array of 2 ^ 16 slots is a function of
--     the masked index. Trace.Buffer.Log relates it to the events that were recorded.
--   Trace.Print: print_internal, whose result is the start time and the lines in their order, each
--     the event and the name of its buffer, without the text that snprintf makes of them. Scan, Skip
--     and Merge prove its loops, Result the whole of it.
--   Trace.Threads: thread_buffer, cleanup, freeze and printouts. Buffers are cells of a store and
--     pointers are their numbers; an operation that follows a pointer to no cell gives none. Child
--     modules: Consistent has the invariant and the states that programs reach, Steps the
--     constructor, Leave the destructor, Cleanup and Globals the operations on all buffers, Safety
--     the theorems. An operation under the mutex is one step; a printout is two, the copy of the
--     pointers under the mutex, and the rest of print_internal, which follows them behind it.
--     Printout has `cleanup` between the two.
-- Utils: app/lib/test_utils.cc. Utils.Seed has seed_buffer and check_buffer on the ints of a buffer,
--   Utils.Message check_message on the pages of a region, Utils.Percentile print_dist over a sort
--   that is a parameter, Utils.Split has split on the characters of a string.
-- Apps: Apps.PingPong has the loops of app/src/perf_latency_client.cc and
--   app/src/perf_latency_server.cc as a step relation, in which the card and the network deliver
--   each message that was sent once, at some later time. Apps.Header has struct msghdr_send_t of
--   app/lib/nic_utils.h in memory, Apps.Header.Card what the card reads there as its bundle msghdr_t
--   (hw/src/main/scala/Interfaces.scala), Apps.Word its metadata word, Apps.Request the headers that
--   app/src/perf_write.cc sends, Apps.Fill the fill loops of app/src/perf_bitrate_client.cc.
--
-- Integers. uint64_t wraps at 2 ^ 64 where the code adds or subtracts; a conversion to size_t or
-- uint64_t is to_u64, and to_i32 is the conversion to int of the lengths in Dist and of the page
-- offset in Driver. Any other `int` is an unbounded integer, since its overflow is undefined in C++:
-- the model of PIFO_Naive is that of the code while its lists hold fewer than 2 ^ 31 entries, and
-- that of seed_buffer and check_buffer is theirs for lengths below 2 ^ 33. Where an index product of
-- print_dist leaves the range it faults. A double that only statistics use is the expression that
-- computes it, so nothing is assumed about rounding.
--
-- Fuel. The loops of Sim.Qsim run until enough messages are complete, which random arrivals need
-- not bring about. They take the number of rounds as fuel, and the theorems on them hold for every
-- number of rounds: the state after a bounded number of rounds is the one the program has there.
-- Without arrivals a queue empties; its `work` is the number of rounds that is enough.
-- print_internal takes 2 ^ 16 rounds to skip events in a buffer, and to print it takes 2 ^ 16 rounds
-- for each buffer and one more: a buffer retains fewer events than that. split takes one round more
-- than the text has characters.
--
-- Not modelled: config.hh (no compiled file includes it), the results that qsim prints, its trace
-- file and its end (dump, delete), the average dist_overhead, PCI and Ethernet set-up in the driver
-- and the failures of the kernel's calls there; the cycle clock, the text of trace lines, the average
-- of print_dist and the text of print_address in app/lib; the other benchmark programs, which are
-- straight lines over mapped memory; the firmware, and the hardware in Chisel and Verilog but for
-- the layout of the two bundles named above.
pub mod Prelude
pub mod Sim
pub mod Dist
pub mod Driver
pub mod Trace
pub mod Utils
pub mod Apps
