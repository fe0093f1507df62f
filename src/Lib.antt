-- ===== src/Lib.antt =====
-- eBPF UDP and TCP traffic analyzer: the Python user space.
--
-- The kernel programs of bpf/ count packets, bytes and calls per flow in BPF maps. The Python
-- program (src/udp_analyzer) dumps the maps with bpftool at every checkpoint, parses the dumps, adds
-- up the entries of each flow, subtracts the totals of the checkpoint before, and emits one row for
-- each flow that has moved, with the process or the systemd unit that the traffic belongs to.
--
-- Which file is about which part:
--
--   Checkpoint (Sums, Baseline, Growth, Rows) - the part that the four readers of dumps share:
--     EbpfIngressCollector._read_ingress and _read_delivered of ebpf.py, and _read_flows of
--     tcp_channel.py and udp_channel.py. `aggregate` is their first loop, `restrict` the removal
--     of stale baselines, `report_flows` the second loop; `emit` is the body of the second loop
--     from the deltas on, `Counting` the counters that are added, and the dictionaries of the
--     source are the association lists of Base.Dict.
--   Bpftool (Json, Struct, Address, Print, Select) - what bpftool prints: JSON values, struct.unpack,
--     ipv4_from_bpf_int, the printed forms of raw bytes, and BpftoolMapReader.refresh_map_id.
--   Ingress, Delivered - the entries of the two UDP maps (parse_bpftool_entry,
--     parse_bpftool_delivered_entry and all that they call).
--   Processes - ProcessSocketEnricher of processes.py with its cache; Processes.ProcNet and
--     Processes.Scan - the parsers of /proc/net/udp and the scan of ProcessSocketInventory.
--   Models - UdpSample with to_dict, SampleFilter and bucket_start_ns of models.py.
--   Collector - read_checkpoint of EbpfIngressCollector; Collector.Setup - _configure_delivery;
--     Collector.Open - its constructor with the clean-up, and close.
--   Channels - ChannelCatalog.match of channels.py and unit_from_cgroup_text of tcp_channel.py;
--     Urls - the URLs of unit files and environment files; Load and Targets - load_channel_targets
--     with templates; Resolve - resolve_channel_targets.
--   Flow - the channel collectors. tcp_channel.py and udp_channel.py repeat each other, so the
--     definitions are those of tcp_channel.py over a record `Protocol` of what udp_channel.py
--     changes; Flow.Tcp and Flow.Udp have the two instances and the dry runs, Flow.Open the
--     constructors and close, Flow.Dict to_dict.
--   Loaders - the attachments that start the loader processes: attach, ensure_alive and detach of
--     ReceiveBpfAttachment and of the TCP and UDP channel attachments, with their child process,
--     which may refuse to be signalled; Loaders.Reach has their life as a step relation,
--     Loaders.Tc is TcBpfAttachment.
--   DryRun - DryRunCollector of collectors.py.
--   Writers (Values, Sql, Parquet, ClickHouse) - write_samples, flush and close of the writers of
--     writers.py, over the packages of Writers.Backends; a `Writer` is the interface that the loop
--     takes, and `Appends` the law that the SQLite and DuckDB writers fill.
--   Cli (Loop, Command, Choices, Catalog) - the loop of run_analyzer and run_channel_analyzer of
--     cli.py with its signals and its finally, create_collector, create_channel_collector,
--     create_writer, load_channel_catalog and the exit status.
--   Output - the lines of output.py.
--   Harness - the checks of harness/assert_output.py.
--   Base, Errors - the shared helpers: Eq, lists, dictionaries, texts, exceptions as values.
--   Tests - runs on concrete inputs, some of them those of tests/.
--
-- How the parts meet: the loop of Cli reads checkpoints of a collector and hands each batch of rows to
-- a writer; a collector is opened by its constructor, which starts the loaders and attaches the filter,
-- reads the dumps with the parsers and the shared loops of Checkpoint, asks the enricher or the catalog
-- who owns a flow, and is closed by the finally of the command. The rows are stored by
-- their `to_dict`, which is also what the harness reads.
--
-- What a checkpoint meets outside the process is a record that the definitions take: the clock,
-- what the dump command gives or raises, the names of interfaces, the texts of cgroup files, and,
-- for each call of `sockets`, the clock of the cache and what the scan of /proc returns or raises.
-- What a loader does is the record `Startup`, what a pass of the loop meets the record `Pass`, the
-- files below /proc the record `ProcRoot`, the unit files the record `Sources`. Databases, the
-- export to Parquet, the HTTP server, `tc`, `json.dumps`, `str` of a number, `shlex`, `urlparse`,
-- `pathlib`, the resolver and the text of a time stamp are parameters, with what the code relies
-- on as the laws IsTransactional, IsAutocommitting, IsReplacing, IsPermitted, IsObedient, IsPaced
-- and IsCuttable. An exception is a value of `Error`; the state after one is modelled where the
-- program goes on with it (Loaders, Collector.Open, Cli).
--
-- Numbers: the counters, ids and times of the program are naturals (Python's integers do not
-- overflow). A difference of counters is an integer of Base.Int, since the source tests it for being
-- negative; widths of the C structs matter only for what `pack` can write. JSON numbers are whole and
-- not negative, as in the maps and ids that bpftool prints, and `int` of a text reads digits only. The
-- loops recurse on the list or text that they go through; only the loop of the commands, which has no
-- bound of its own, takes fuel, one unit for each pass (Cli.Ends says how much is enough).
--
-- Not modelled: argparse, the constructors of the writers (directories, CREATE TABLE, optional
-- imports), default_route_interface, the kernel check by BTF text, which is a flag of `Startup`, the
-- reading of the harness's input, and harness/send_udp.py, a test sender; the C programs, whose maps
-- enter as dumps.
pub mod Base
pub mod Errors
pub mod Checkpoint
pub mod Models
pub mod Bpftool
pub mod Ingress
pub mod Delivered
pub mod Processes
pub mod Collector
pub mod Channels
pub mod Flow
pub mod Loaders
pub mod DryRun
pub mod Harness
pub mod Writers
pub mod Cli
pub mod Output
pub mod Tests
