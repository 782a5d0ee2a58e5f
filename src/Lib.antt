-- ===== src/Lib.antt =====
-- T4P4S, a P4 compiler and switch: the control plane of the switch and its controllers, the tables of
-- the data plane, the ports and their queues, and the loop of a core with its two variants, with and
-- without network cards.
--
-- A controller (src/hardware_dep/shared/ctrl_plane/dpdk_*_controller.c) fills the tables of a
-- switch: it builds messages in a buffer, queues them, and a thread writes them to a socket
-- (controller.c). The switch (ctrl_plane_backend.c) has a pool of message cells. A thread reads
-- each message into a cell and queues it; another one decodes it (handlers.c) and calls the data
-- plane back, which changes the tables; a third one sends digests, by which the switch reports. The
-- controllers answer to digests with more messages.
--
-- The parts, with paths below src/hardware_dep/shared/ctrl_plane if no other is given:
--   Common      what the other modules share: tests on numbers, lists, C's signed integers
--   Memory      bytes at addresses, loads, stores and byte order, and commands that can fault on a
--               null pointer; strcpy and memcpy. The host is little endian.
--   Messages    messages.h and messages.c: Layout computes the offsets of the structs; Header,
--               Entry, Action and Digest are the functions with those objects; Grow and ByteOrder
--               have the properties of the add_ and of the netconv_ functions
--   Fifo        fifo.c: one function per operation, each under the queue's lock; Inv, Refine and Ends
--   Cells       touch_mem_cell, detouch_mem_cell and the allocation in create_backend, of
--               ctrl_plane_backend.c, on the next and prev pointers; the lists they form,
--               and in Steps runs of the threads
--   Backend     the threads of ctrl_plane_backend.c as steps on the pool and the two queues, with the
--               digests that the switch makes; Places is the account of the cells, Kept all runs
--   Sock        sock_helpers.c over a socket whose calls transfer what they like, or fail; Read and
--               Write are the loops, Message and Wire the messages
--   Handlers    handlers.c: handle_p4_msg and what it calls; Codes for the results, Frame for the
--               places that are read and written
--   Controller  Parts are the steps that all controllers share, L2fwd, PsaL2fwd, L3fwd, Portfwd,
--               StateMachine and Smgw the controllers, each with its Delivery; Session is the way of
--               a message to the switch, Outbox the output queue between the controller and its
--               output thread, Seen what the switch's callback can read of a message; Learn are the
--               digest handlers
--   Digest      create_digest, add_digest_field and send_digest of ctrl_plane_backend.c, and
--               src/hardware_dep/dpdk/data_plane/dpdkx_digest.c; Report is the way of a digest
--   Replica     src/hardware_dep/dpdk/data_plane/dpdk_lib_change_tables.c: the replicas of a table
--               and the cores that read them, for any change of a table
--   ThreadPool  threadpool.c: dispatch and one round of do_work
--   Ternary     src/hardware_dep/shared/data_plane/ternary_naive.c
-- and, with paths below src/hardware_dep/dpdk:
--   Tables      data_plane/dpdk_tables.c with the files that it includes: Entry for what all tables
--               share, Exact, Prefix and Naive for exact, longest prefix and ternary tables, Manage
--               for data_plane/dpdk_lib_init_tables.c, the tables of all sockets and cores; Slots is
--               a hash for the tests
--   Ports       data_plane/dpdk_lib_init_hw.c and dpdk_lib.c: Cores and Queues are the queues of cores
--               and of ports, Init is dpdk_init_nic as a log of calls of DPDK
--   Args        data_plane/dpdk_lib_parse_args.c: the parsing of the queues of the cores; Strtoul is
--               what it uses of the C library, Print writes a configuration out
--   MainLoop    main.c: the loop of a core over a record of the functions that a network card variant
--               gives, and the result of the launches
--   NicOff      dpdk_nicoff.c, the variant that feeds the switch with the packets of a test case:
--               Checks, Run and Verdict are one test case; Suite and Exit are main, with the launches
--               of a test suite up to the exit code
--   NicOn       dpdk_nicon.c, the variant with network cards: Fates and Trail are what becomes of each
--               packet of a port, Drain the drain by time, Safe the bounds of the buffers, Broadcast the port
--               that a broadcast packet goes to
--
-- A core runs handle_packet of the switch on each packet that its variant receives, which looks keys
-- up in the tables of the active replica, and then sends or drops the packet.
--
-- Numbers are natural numbers, with the wrap-around of C's types written out where a value can
-- reach it. A message is bytes in a memory, an object starts at address 0, and what malloc, or a
-- buffer on the stack, holds at first is arbitrary. The loops of read_fix and write_fix run on
-- fuel, as many rounds as there are bytes left, which is enough because a round that goes on
-- transfers at least one byte; a socket is a list of answers, one for each call. Each operation on
-- a queue or on the pool is one step, because it runs under a lock. The loop of a core runs on
-- fuel, one for each round; a test case needs one more than it has commands, and the parsing of
-- arguments one more than there are characters. The generated switch, and DPDK's hashes, prefix
-- tables and drivers, are parameters, with their documented behaviour as laws where a theorem
-- relies on it; an allocation of memory succeeds. The theorems on whole sessions compose the steps
-- in the order in which one message takes them; Backend has all interleavings of the threads, as
-- far as the cells and queues are concerned, and Outbox those of a controller that sends messages and
-- of its output thread. The variant without a card never gives a buffer back to its pool; what other
-- cores take of the pool is not modelled. An index of a prefix table wraps around where its type does,
-- which is a parameter. Not modelled are the signals' effect on waiting
-- threads, the packet models, the other arguments, the parsing of configuration files by sscanf,
-- the printing, and the compiler.
pub mod Args
pub mod Backend
pub mod Cells
pub mod Common
pub mod Controller
pub mod Digest
pub mod Fifo
pub mod Handlers
pub mod MainLoop
pub mod Memory
pub mod Messages
pub mod NicOff
pub mod NicOn
pub mod Ports
pub mod Replica
pub mod Sock
pub mod Tables
pub mod Ternary
pub mod ThreadPool
