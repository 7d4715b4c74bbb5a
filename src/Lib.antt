-- ===== src/Lib.antt =====
-- pkt-sender: a packet generator on DPDK (src/), a tracer that records hardware time stamps
-- (pkttracer/) and tools that read the records (tools/).
--
-- The tools keep free indices in a byte ring, tools/ringbuffer.c, and look records up in a cuckoo
-- hash table that hashes its keys with tools/hash.c.
--
-- * Ring models tools/ringbuffer.c and tools/ringbuffer.h. Ring/Defs holds the structure and the
--   functions, Ring/Create the functions that make system calls, with the calls as a list and the
--   answers of the system as a parameter. Ring/Queue is the queue of bytes that a ring stands
--   for, Ring/Valid the invariant, Ring/Window and Ring/Copy the bytes of an area that wraps
--   round, Ring/Put and Ring/Get the refinements, Ring/Round the powers of two. Ring/Shared has
--   the steps of several writers and one reader: a writer reads the positions and tests the room,
--   tries its compare-and-swap, copies its block and publishes it, and the reader takes what is
--   published. Ring/Loads is about the writers that have read, Ring/Pending, Ring/Blocks and
--   Ring/Steps about those between their reservation and their publication, Ring/Interleaved
--   about what the reader sees, Ring/Kept about one step, Ring/Runs about all orders of the
--   steps, and Ring/Single about one writer. Nothing is shown of a run in which a
--   compare-and-swap succeeds although there were reservations since its writer read, which have
--   brought `write_pos` once round the ring.
-- * Crc models tools/hash.c. Crc/Tables holds the eight tables, row by row, Crc/Hash the
--   functions, Crc/Reference the shift register that they are compared with, Crc/Slicing one word
--   and Crc/Message a whole message.
-- * Control models src/pktsender.c and its part of src/pktsender.h. Control/Defs holds the job
--   state and the signal handler, Control/Loops the loops of the lcores over a list of turns,
--   which stands for the interrupts, the packets received and the answers of `port_transmit`.
--   Control/Signals is about the job state, Control/Stopping, Control/Quiet, Control/Draining and
--   Control/Polled about runs of `pktsender_launch_one_lcore`. An interrupt before `main` sets
--   the job state is counted by the handler; what then follows is not shown.
-- * Port models the table of the ports of src/port.c, which are enabled and which lcores they
--   have, in Port/Defs, and the start and close of the devices in Port/Devices. Port/Mask is
--   about the port mask and Port/Running about the devices that run.
-- * Config models `__check_mapping` and `__init_lcore_port` of src/main.c. Config/Defs holds the
--   check's loops over the array of mappings, Config/Kept the list that they compute,
--   Config/Distinct and Config/Measured what is known of it; Config/Assign is the assignment of
--   ports to lcores and Config/Lists what each lcore gets. A `Machine` is what the check reads of
--   the ports and lcores. Config/Rate is `__parse_rate` over what `strtol` gives.
-- * Tracer models pkttracer/pt_trace.c. Tracer/Defs holds the cache of records and the file,
--   Tracer/Handlers the handlers of packets, Tracer/Cache the lemmas on one record and one flush,
--   Tracer/Records, Tracer/Hardware and Tracer/Received those on the handlers. The system, the
--   clock and the answers of the device are parameters.
-- * Cuckoo models tools/cuckoohash.c. Cuckoo/Defs holds the structures, Cuckoo/Space
--   `make_space_bucket`, Cuckoo/Table the lookup, addition and removal of a key, Cuckoo/Iterate
--   the iteration and Cuckoo/Create the creation, with Cuckoo/New on what it gives.
--   Cuckoo/Search, Cuckoo/Moves, Cuckoo/Making and Cuckoo/Depth are about the loops and the
--   recursion that makes room, Cuckoo/Valid the invariant of a table, Cuckoo/Lookup the searches,
--   Cuckoo/Holds and Cuckoo/Delete what lookup and removal do; Cuckoo/Taken, Cuckoo/Insert,
--   Cuckoo/Written and Cuckoo/Alike are the steps of an addition, which Cuckoo/Add puts together;
--   Cuckoo/Sized says that the number of buckets stays. The ring of free slots is a Ring/Slots, a
--   queue of numbers, which Ring/Numbers shows to be what tools/ringbuffer.c gives; the hash is
--   that of Crc. An entry is numbered through all buckets.
-- * Dump models tools/cmd_dump.c. Dump/Defs holds the traces, the reading of records and the
--   output, Dump/Start `__init_trace_tbl`; Dump/Records and Dump/Adding are about one record,
--   Dump/Output about a file of records and the output, Dump/Probes about a file by the probes in
--   it. It is the client of Cuckoo, Ring/Slots and of the records of Tracer. Dump/Command holds
--   `cmd_dump` itself, with the files that it opens and closes; Dump/Counts, Dump/Loading and
--   Dump/Closing are about its input files. A record comes with the bytes that its key takes over
--   from the stack, and a location behind the arrays of a trace has no result.
-- * Transmitter models the burst of src/transmitter.c: Transmitter/Defs and Transmitter/Burst
--   hold its functions, Transmitter/Unrolled is about the unrolled loop over the mbufs,
--   Transmitter/Burst about the loop that hands packets to the driver, and Transmitter/Paced
--   about the rate. The product with the `double` of the rate is a parameter.
-- * Probe models src/probe.c: Probe/Defs holds the controllers and the handler of the timer,
--   Probe/Sequence is about one expiry of the timer and Probe/Run about a run of them. The calls
--   of the trace functions and of the driver are events; Tracer models what the former do. Mbufs
--   are values there: that the code frees an mbuf which the driver has is not followed, and no
--   result is stated of the probes.
-- * Packet models src/pkt_seq.c and src/pkt_seq.h. Packet/Defs holds the fields, the addresses
--   and the checksum, Packet/Construct the headers in memory; Packet/Dissect is about what a
--   receiver reads, Packet/Checksum about the checksums, Packet/Kept about the bytes that are
--   written and read.
-- * Transmitter/Setup models `tx_ctl_init` and the set-up of a memory pool, and is the client of
--   Packet; Transmitter/Templates is about the packets that it leaves.
-- * Port/Pools and Port/Setup model `port_init` and `port_free` as the calls of the driver that
--   they make; Port/Tracked follows a memory pool through the calls of one port, Port/Owned
--   through the table, and Port/Released through all ports. Port/Stopped is about the devices
--   from their start to their close.
-- * Stats models src/stat.c: Stats/Defs holds its functions, Stats/Listed is about the table,
--   Stats/Totals about the reports.
-- * Args models the options of src/main.c: Args/Defs `str_to_uint8` of src/util.h and
--   `__parse_config`, Args/Options `__parse_args`; Args/Bounds and Args/Accepted are about all
--   texts, Args/RoundTrip about those of the syntax, Args/Stale about an error before.
-- * Main models `main` and `__pktsender_free` of src/main.c, over the functions of Args, Port,
--   Config and Stats. Main/Defs holds its steps, one after the other, and the calls of each kind
--   that they make; Main/Kept is about the table of the ports, Main/Clean says when all is
--   released, and Main/Stages and Main/Cleanup are about the run.
-- * Prelude is shared: lists over native numbers, tests, bitwise laws, byte arrays and 32-bit
--   words.
-- 32-bit arithmetic wraps as `add32` and `sub32` write out. A loop that counts is structural
-- recursion and needs no fuel; a loop that runs until it is stopped is a recursion on its turns,
-- with an outcome of its own for a run whose turns are over. The loops of `ringbuffer_put` that
-- wait for other writers are one try each, the one that succeeds; `put` is a call during which no
-- other thread moves the ring. The 1000 waits of `trace_hw_tx_record` are counted as the code
-- counts them. The recursion of `make_space_bucket` has one more than the number of entries as
-- fuel, since each call sets a flag that was not set. `__send_burst` has fuel, which stands for
-- calls of the driver; it is enough as soon as the driver has taken all packets. The unrolled
-- loop over mbufs has a quarter of their count, and one, as fuel, and a walk over a table one
-- more than its entries. The loop of `__parse_config` has one more than the length of its text as
-- fuel, since each round goes on behind a character.
--
-- Not modelled: the sharing of mbufs between the program and the driver, short writes of
-- `fwrite`, the measurement of the clock in src/probe.c, the log lines, and of tools/ the
-- dispatch of commands. The system calls, the C library, the mapping of memory and DPDK are
-- parameters.
pub mod Prelude
pub mod Ring
pub mod Crc
pub mod Control
pub mod Port
pub mod Config
pub mod Tracer
pub mod Cuckoo
pub mod Dump
pub mod Transmitter
pub mod Probe
pub mod Packet
pub mod Stats
pub mod Args
pub mod Main
