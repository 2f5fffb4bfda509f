-- ===== src/Lib.antt =====
-- A model of the programs of this repository that have logic of their own, with proofs.
--
-- Tftp: the TFTP server of iputils-ns. Tftp/Stream is what it uses of the C library's files,
-- Tftp/Buffers the double buffering and the netascii conversion (iputils-ns/tftpsubs.c: rw_init,
-- readit, read_ahead, writeit, write_behind), Tftp/Sender and Tftp/Receiver the transfer loops
-- (iputils-ns/tftpd.c: sendfile, recvfile, timer). A loop is a machine that takes one event at a
-- time, which ends a wait in recv: a reply, a failure or SIGALRM, each with the outcome of the send
-- that may follow. The client, the network and the clock are the sequence of events, of any length;
-- nothing is assumed of it. The error packet of nak and the log messages are left out. Tftp/LastWait is
-- the last wait of recvfile, with the headers that the buffers hold. Tftp/Request is validate_access of
-- tftpd.c, over the calls stat and open, which are functions of the model's system (Tftp/Granting holds
-- what it grants, Tftp/Paths where the path leads); Tftp/Dispatch is
-- tftp and the end of main, which read the request. Tftp/Netascii, Ahead, ReadAhead, Waiting, Delivery,
-- Completion, Storage, Decoding, Agreement and Reception hold the proofs, Tftp/Appending the specification of
-- recvfile.
--
-- Rdisc: the router discovery of a host (iputils-ns/rdisc.c). Rdisc/Table is the table of routers
-- (find_router, max_preference, record_router, age_table, discard_table); the kernel is the list of
-- the ioctls asked for, whether they succeed or not. Rdisc/Packet is pr_pack, over the bytes received,
-- Rdisc/Daemon timer, the signals and main, whose run is a list of events; Rdisc/Advertise is the packet
-- of advertise. Walks, Kernel, Lookup, Sound, Flags, Best, Routes, Aging, Reading and Life hold the proofs,
-- Rdisc/Spec the specification of the table. Sending, logging and do_fork are left out.
--
-- Dc: the red-black tree of the DC benchmark (NPB-CPUTests/DC/rbt.c, rbt.h). The nodes are values,
-- and the arrays nodes and drcts a path of frames (Dc/Tree); key comparison and aggregation are in
-- Dc/Row, the traversals that write a view in Dc/Disk. The second loop of TreeInsert goes up the
-- path, which is structural recursion. Memory of the pool is counted, not addressed (Dc/Pool).
-- Dc/Formation is the external aggregation of NPB-CPUTests/DC/extbuild.c as it is built by default:
-- RunFormation, which writes the tree as a sorted run whenever the pool is full, and ComputeGivenGroupbys
-- for one view; Dc/MergeLoop is MultiWayMerge, over the chunks of Dc/Chunks (ReadSubChunk). The loop
-- of MultiWayMerge runs on fuel, a unit for a round; a round takes one record, so that the number of
-- records is enough. Reads and the positions in the files count records. Dc/Aggregate is the
-- specification; Reading, Choosing, Pending, Absorb, MergeStep, Rounds, Merging, Runs, Forming, Saved,
-- Saving and External lead to the theorem of Dc/Groupby.
--
-- Probed: the network prober (SLANG-probed). Probed/Util is the time arithmetic of util.c; Clock holds
-- struct timespec, which ping uses too. Probed/Client and Probed/Results are the lists of probes of
-- client.c (client_res_insert, client_res_update, client_res_clear_timeouts), Probed/Fifo the queue of
-- the daemon (client_write_fifo), Probed/Tstamp the modes and tstamp_extract of tstamp.c, Probed/Sending
-- tstamp_fetch_tx with send_w_ts and the part of recv_w_ts for the error queue (net.c), over the rounds
-- of its loop. Which calls of the system succeed is given by functions and Booleans about which nothing
-- is assumed. Probed/Counted, Accounting, TripTime and Stamps hold the proofs.
--
-- Ping: the counters of ping. Ping/Table is the table of received numbers and Ping/Flight the probes
-- in flight (iputils-ns/ping.h), Ping/Stats gather_statistics and update_interval
-- (iputils-ns/ping_common.c) without the printing; Ping/Pace is pinger and __schedule_exit. what
-- pinger computes for its tokens is narrowed to an int, and each attempt clears the bit of the next
-- number in the table. pinger takes the attempts of send_probe as a list, by which `goto resend` is structural recursion; a list
-- that ends in a resend is a result of its own. Ping/Checksum is
-- in_cksum of iputils-ns/ping.c, Ping/Root is llsqrt, for which any fuel above its argument is
-- enough. Ping/Counting and Fairness hold proofs.
--
-- Is: the IS benchmark (NPB-CPUTests/IS/is.c). Is/Ranking is rank, behind the assignments at its start,
-- and full_verify, with buckets and for one thread; an array is a function of the index, and a loop
-- a counted loop (Is/Loops). Is/Counting, Tallies, Buckets, Ranks, Places and Sorted
-- hold the proofs.
--
-- Ninfod: the names of the node information daemon (iputils-ns/ninfod/ninfod_name.c). Ninfod/Compare is
-- compare_dnsname, Ninfod/Encode encode_dnsname, and Ninfod/Node the group and the answers for the name
-- of the node (init_nodeinfo_nodename, check_nigroup, pr_nodeinfo_nodename), over any digest. Both loops
-- run on fuel: a round for each byte of the name, and one more, is enough for encode_dnsname on all
-- names and for compare_dnsname on bytes below 128. Ending, Stuck, Rounds, Matching, Encoding, Grouped
-- and Answering hold the proofs.
--
-- No other function runs on fuel. Base holds shared names: Boolean tests, lists indexed by native
-- numbers, integers. Words of w bits keep their wrap-around; where a field is an integer without
-- bound the module says so.
--
-- Not modelled: the floating-point kernels of NPB-CPUTests, STREAM and membench; the sockets, options and
-- printing of all programs, which are calls of the system; the network tools arping, clockdiff, rarpd,
-- tracepath and traceroute6, which are loops around raw sockets; of ninfod the threads, the dispatch of
-- queries and the addresses of the interfaces; of DC the aggregates of the build with OPTIMIZATION and
-- the scheduling of the views; of IS the build with several threads; the kernel module pg3 and the
-- scripts that start the containers.
pub mod Base
pub mod Tftp
pub mod Dc
pub mod Clock
pub mod Probed
pub mod Ping
pub mod Is
pub mod Rdisc
pub mod Ninfod
