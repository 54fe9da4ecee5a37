-- ===== src/Lib.antt =====
-- Verification of the packet DPI engine: a program that reads captured frames, spreads them over
-- worker threads by flow, parses them, tracks flows, inspects their payload and applies policy
-- rules.
--
-- How the parts interact. The dispatcher (src/pipeline/worker_pool.cpp) asks the flow router
-- (src/pipeline/flow_router.cpp) for the flow key of a raw frame, hashes it and pushes the job on
-- the bounded queue (include/dpi/pipeline/bounded_queue.h) of one worker. The worker parses the
-- frame (src/protocols/protocol_parser.cpp) and hands the packet to its flow table
-- (src/flow/flow_table.cpp), which makes the key again from the parsed packet, updates the flow
-- entry with its statistics and TCP state machine, feeds the inspection engine and asks the rule
-- engine (src/rules/rule_engine.cpp) for a verdict. Then the worker hands packet and entry to the
-- threat engine (src/threat/threat_engine.cpp), stores its alerts and calls the risk engine, and
-- the pool adds up the counters of the workers.
--
-- The files:
-- - Base, Memory, Text: shared names; byte buffers and the readers of
--   include/dpi/protocols/protocol_types.h; text with what is used of the C++ library.
-- - Protocols: Types, Headers (parse_ethernet, parse_ipv4, parse_ipv6, parse_tcp, parse_udp),
--   Parser (ProtocolParser::parse), AddressText (from_string of both addresses). Proofs:
--   HeaderBounds, Inversion, Reads, Safety, Payload.
-- - Packet: Types (include/dpi/packet/pcap_types.h, byte swaps and time stamps), Reader
--   (PcapReader of src/packet/pcap_reader.cpp). Proofs: ReaderLaws, Encoding, Roundtrip,
--   Truncation, Bounds.
-- - Dpi: Types (the metadata of include/dpi/dpi/l7_types.h), Dns (DnsParser), Tls (TlsParser),
--   Http (HttpParser), Engine (DpiEngine). Proofs: DnsLaws, DnsNames, DnsQuery, TlsLaws,
--   TlsNames, TlsHello, HttpTexts, HttpRequest, HttpHost, HttpRoundtrip, Results, EngineLaws,
--   Inspections.
-- - Flow: Address, AddressPrint (to_string of both addresses), Key (FlowKey and FlowKeyHasher),
--   Tcp (TcpStateMachine), Stats, Entry (FlowEntry), Table (FlowTable). Proofs: AddressOrder,
--   KeyLaws, TcpLaws, EntryLaws, TableLaws, Inspection, Processing, Expiry, Verdicts,
--   Classification (the table with DpiEngine attached).
-- - Rules: Types, Actions, Port, Ip, Domain (the matchers), Set (CompiledRuleSet), Engine
--   (RuleEngine). Proofs: Sorting, SetLaws, EngineLaws, GlobLaws, DomainLaws.
-- - Threat: Types, AlertBuffer (BoundedAlertBuffer), Trackers (what the detectors share),
--   SynFlood, PortScan, DnsAnomaly, Signatures (PayloadSignatureMatcher), Engine (ThreatEngine).
--   Proofs: Recent, AlertBufferLaws, TrackerLaws, SignatureLaws, EngineLaws, Numbering.
-- - Risk: Types, Scorer (RiskScorer), Profiler (HostRiskProfiler). Proofs: ScorerLaws, Recency,
--   ProfilerLaws, Refinement.
-- - Pipeline: Router (FlowRouter), Queue (BoundedQueue), Pool (WorkerPool), Worker
--   (WorkerThread), Aggregate (get_aggregated_stats, with its proofs). Proofs: Affinity,
--   QueueLaws, PoolLaws, WorkerCounts, WorkerLaws.
-- - Tests: frames, tables and rules, and the theorems at them.
--
-- How the code is modelled. A pointer into a buffer is the buffer with an offset; a read outside
-- the buffer, undefined in C++, is `none`, so safety is that the result is never `none`. Integers
-- are natural numbers with the wrap-around written out where a value can leave its width. Objects
-- are records; a method returns the new object. The hash map of the flow table is the list of its
-- pairs, and the entry behind a shared pointer is the one in the list; its order is not that of
-- the C++ map, and no theorem depends on it. The inspection engine is an argument of the table
-- that Flow.Classification fills with DpiEngine, whose result is there by the proof that it reads
-- nothing outside the payload, and the rule engine is a record of two functions that Rules.Engine
-- fills. A worker runs on the jobs that its queue hands out, and its risk engine is the list of
-- the calls that it gets, since nothing else in the worker reads its results; what `std::move`
-- leaves of a string is a parameter. An input stream is what is left of its bytes and whether it
-- is good; the byte order of the machine is little-endian. A call of the queue that has to wait
-- has the outcome `blocked`; the interleavings of producers and consumers are the sequences of
-- steps of QueueLaws. The stable sort of the rules is an insertion sort. The loop of the glob
-- matcher runs on fuel, (length of the name + 2) * (length of the pattern + 1), since each return
-- to the last star leaves less of the name and between two returns the pattern only shrinks; that
-- of the DNS parser on one more than the bytes of the payload, since it visits no offset twice;
-- those of the TLS parser on as much, since each turn moves ahead by three bytes or more. The
-- lines of the HTTP headers are split off first, and the loop over them is structural. Reading a
-- capture takes at most one call for each byte and one more.
--
-- Not modelled: the JSON parser of the rules, process_pcap of the pool, the risk engine with the
-- behavioral statistics (floating point) and the beaconing and exfiltration detectors, the
-- telemetry and the command line, which are further components of the program; the entropy of a
-- DNS name (floating point), which is a parameter of the DNS anomaly detector; the average risk
-- of a host; the texts made for output only; the memory orders of the atomics and the condition
-- variables under the queue.
pub mod Base
pub mod Memory
pub mod Text
pub mod Protocols
pub mod Packet
pub mod Dpi
pub mod Rules
pub mod Flow
pub mod Threat
pub mod Risk
pub mod Pipeline
pub mod Tests
