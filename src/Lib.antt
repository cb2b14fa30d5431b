-- ===== src/Lib.antt =====
-- The measurement tools for open DNS resolvers: the scanners over TCP and UDP, the TCP traceroute,
-- the generator of addresses, the reassembly of IP fragments, and the scan for QNAME minimisation
-- (QMIN): its scanner, its DNS server and its post-processing, and the rate limit tester.
--
-- The program. Each tool captures packets, puts fragments together (src/common/base.go,
-- Process_pkt) and hands each packet to its own Handle_pkt. A scanner takes addresses from a
-- channel, which gen_ips fills in the order of a linear congruential generator
-- (src/generator/lcg.go), passes over blocked networks, remembers a probe in a map by the port and
-- number that its answer will carry, and sends it. Handle_pkt finds the probe of an answer, and
-- puts what is finished on the channel of the writer; Timeout (src/scanner/base_scanner.go)
-- deletes old entries. The traceroute (src/traceroute/traceroute_tcp.go) sends SYNs of growing
-- TTL, then DNS queries of growing TTL in the connection, and reads the answers to both. The QMIN
-- scanner (src/qmin/scanner/scanner.go) asks each resolver for a domain of many labels, with
-- an id token, below the base domain of the DNS server (src/qmin/dns_server/dns_server.go). The
-- server records in the map of probes which labels a resolver asks for, and answers the last query
-- with that record in a TXT record. The scanner writes it into a row, and the post-processing
-- (src/postprocessing/qmin/postproc_scan_result.go) makes a pattern of it and merges the rows. The
-- command line (src/dns_tool.go) reads the flags of a subcommand, loads the configuration, puts
-- the flags in its place and starts one of the tools.
--
-- The files.
-- - Base, Base/Tests, Base/Lists, Base/Options: Boolean tests, fixed-width conversions, lists over
--   the native numbers, case lemmas, chains of fallible steps.
-- - Base/Perms: what a permutation keeps.
-- - Cli/Flags, Outcome, Scanner, Commands and Main: src/dns_tool.go. A run is the list of its
--   effects, where a start of a tool is one, and how it ends. How a tool that is started ends, and
--   whether the profile can be started, is given by a record System. Starts and Settings have the
--   theorems.
-- - Input/Lines: Exclude_ips of src/scanner/base_scanner.go; Input/Addresses: Read_ips_file there,
--   Get_cidr_filename of src/common/base.go and the argument of Start_scan. Excluded has the
--   theorem.
-- - Net: net.IP, net.IPNet and Contains, with the loop over the blocklist in init_tcp and
--   init_udp.
-- - Tcp/Flags, Tcp/Segment: src/common/tcp_common. A packet that is sent is a record of the fields
--   that the source fills in.
-- - Generator/Lcg: src/generator/lcg.go and gen_ips. An int is its 64-bit pattern. Next loops on
--   fuel. Affine, Round, Run, Cover and Period carry the proof: iterates of an affine map modulo a
--   power of two, one round in int64 arithmetic, and distinct numbers that fill a range. In Period
--   the loop of Next runs on fuel 1 and that of gen_ips on one more than the number of addresses;
--   the result is there, so the fuel is enough. Networks has the loop over several networks.
-- - Fragment/Process: Process_pkt. Its inner loops are structural. Sound and Complete have the
--   theorems.
-- - TcpScan/State, TcpScan/Handle: src/scanner/tcp/tcp_scanner.go. The items of a connection are
--   linked lists shared by pointer: here chains in a heap, and a pointer is an index. Keys, Steps,
--   Reach, Payload, Session and Dialogue have the theorems, Invariant what holds between steps.
-- - UdpScan/State: src/scanner/udp/udp_scanner.go, with items shared in the same way. Keys, Valid,
--   Once and Replies have the theorems.
-- - Trace/State, Trace/Handle, Trace/Run: src/traceroute/traceroute_tcp.go. Ports and Timeouts
--   have the theorems.
-- - Text: strings as byte lists, with what the QMIN programs call of Go's strings and strconv.
-- - Qmin/Query, Qmin/Routines: src/qmin/scanner/scanner.go: domainAssembly, dnsQuery and its
--   evaluation of answers, then the routines of a resolver and scanResolvers. What log.Fatalln
--   ends is none.
-- - Qmin/Server, Qmin/Handler: src/qmin/dns_server/dns_server.go: the map of probes with
--   updateProbeEntry, then requestResponse from the tests of the name to the reply. A panic is
--   none.
-- - Qmin/Pattern, Qmin/Eval: analyzePattern and evalRow of
--   src/postprocessing/qmin/postproc_scan_result.go; Qmin/Result: the merge of evaluated rows. The
--   maps are functions. Rows, Order and Pairs have the theorems on the merge.
-- - Qmin/Stages, Recording, Ids, Domains, Sessions and Runs follow the queries of one resolver
--   through the server; Rendered, Detect, Passed, Observed and Direct take its answer on to the
--   analysis. Asked is about the resolver that a result names. Total and Apart are about any
--   request, Rounds about the rows of the scanner, Fields about the results of one row.
-- - Qmin/Batches, Writer and ScanFile: the input files of src/qmin/scanner/scanner.go in batches,
--   the temporary file (temp_store.go) and its rows in a parquet file (parquet_writer.go).
--   Batched, Written, Scans and Kinds have the theorems. Starting is Start_scan with its
--   directories and the metadata, Started its theorem. Qmin/Files: processFile to
--   StartPostProcessing of src/postprocessing/qmin/postproc_scan_result.go; Chunks and Skipped
--   have the theorems.
-- - Rate: src/ratelimit/ratelimit.go. Forwarders has the map of resolvers as read_forwarders and
--   find_active_fwds fill it, State the ports of the tests in send_packets, Handle_pkt and the
--   count in calc_last_second_rate, by numbers of packets, Rounds the wait in rate_test_target.
--   The entries are shared by pointer: here a heap. Target has the rounds of a test along the rate
--   curve, Start what is read before the tests and the injection into caches. Ports, Answers,
--   Counts, Ready, Pool, Ends, Ramp and Injected have the theorems. In Ramp a test runs on as much
--   fuel as the curve has rates; the result is there, so the fuel is enough.
-- - Dump/Files: src/util/dump/dump_pcaps.go, the capture files and their rotation, with the size
--   of a file as a parameter. A write and each stage of a rotation are one step. Complete has the
--   theorem.
-- - Wire/Bytes, Wire/Query: src/common/common.go and src/common/udp_common: addresses as numbers,
--   the query that Build_dns makes and the ports that are bound.
-- - Output: the strings of the output rows that loops put together.
-- - A module Tests of a component has concrete runs.
--
-- Concurrency. A call of a handler, a probe, a round of the timeout and a receive by the writer
-- are one step each, and the goroutines interleave as sequences of steps. In the source a handler
-- of the TCP scanner locks the map only for the lookup, so steps are coarser than the source's. A
-- loop of the traceroute that watches a flag of another handler takes the flag's value per round
-- as a parameter. The handler of the DNS server reads and writes the map under its mutex, so a
-- request is one step; a goroutine of the QMIN scanner is a function of the answers to its
-- queries, and the rows of a round stand in the order of the resolvers.
--
-- Parameters. gopacket's decoders (its 16-bit code of an ICMP message and its number of the type
-- time-exceeded are written out) and its serialisation of a query, the two random draws and the
-- floating-point modulus of the generator, the clock (in seconds) and the configuration values.
-- For the QMIN scan: net/netip's ParseAddr, the checksum of hash/crc32, the exchange of a query
-- over UDP, TCP or HTTP, the random draws, package dns's New, the strings of a TXT record that it
-- makes and its names of types, and the lookup in the address databases. For the files: the
-- readers of parquet and gob, by the rows that they deliver and how they end, the calls of the
-- parquet writer, the file system, and package net. For the command line: package flag, the
-- reading of YAML files and the end of each tool. For the rounds of a test: the order in which the
-- subroutines return, and whether one has received too little. Channels are unbounded lists.
--
-- Not modelled: sockets and captures, logging, numbers and times in the output files, and the
-- Python scripts. Of the rate limit tester, the clock and the limiter of the sending loop, the
-- rates as floating-point numbers and the output files.
pub mod Base
pub mod Cli
pub mod Dump
pub mod Input
pub mod Net
pub mod Text
pub mod Wire
pub mod Generator
pub mod Tcp
pub mod Fragment
pub mod TcpScan
pub mod UdpScan
pub mod Trace
pub mod Qmin
pub mod Rate
pub mod Output
