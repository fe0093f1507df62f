-- ===== src/Cli/Choices.antt =====
-- What a command makes of its arguments: `create_collector`, `create_channel_collector` and
-- `create_writer`, by the class that they call and the arguments that matter to it.
use ebpf_udp_tcp_analyzer.Base.{
  ℕ, Bool, false, not, ◌&&◌, ◌||◌, String, Option, none, some, ◌==◌, string_eq, if◌then◌else◌,
}
use ebpf_udp_tcp_analyzer.Base.Int.{ℤ, is_le_zero, pos_part}
use ebpf_udp_tcp_analyzer.Errors.{Result, ok, err, runtime_error, ◌>>=◌}
use ebpf_udp_tcp_analyzer.Models.{SampleFilter}
use ebpf_udp_tcp_analyzer.Channels.{ChannelCatalog}
use ebpf_udp_tcp_analyzer.Flow.Samples.{ChannelSampleFilter}

-- The arguments of `run` that are read; paths are passed on as they are.
pub record Args : Type 0 where
  pub collector : String
  pub bucket_ms : ℤ
  pub src_ip : Option String
  pub dst_ip : Option String
  pub src_port : Option ℕ
  pub dst_port : Option ℕ
  pub ifname : Option String
  pub process_name : Option String
  pub layer : Option String
  pub delivery_attribution : Option String
  pub enrich_processes : Bool
  pub interface : Option String
  pub no_attach : Bool
  pub keep_attached : Bool
  pub receive_map_id : Option ℕ
  pub storage : String

unfoldable pub sample_filter_of : Args → SampleFilter
sample_filter_of a = record {
  src_ip = a.src_ip;
  dst_ip = a.dst_ip;
  src_port = a.src_port;
  dst_port = a.dst_port;
  ifname = a.ifname;
  process_name = a.process_name;
  layer = a.layer;
}

-- The arguments of `EbpfCollector`; an enricher is given by the process name that it looks for.
pub record EbpfSettings : Type 0 where
  pub bucket_ms : ℕ
  pub sample_filter : SampleFilter
  pub ifname : Option String
  pub attach : Bool
  pub detach_on_close : Bool
  pub process_enricher : Option (Option String)
  pub delivery_attribution : String
  pub receive_map_id : Option ℕ

pub data CollectorChoice : Type 0 where
  dry_run : (bucket_ms : ℕ) → SampleFilter → CollectorChoice
  ebpf : EbpfSettings → CollectorChoice

-- `bool(s)` of a text that may be missing
abbrev pub is_given : Option String → Bool
is_given none = false
is_given (some s) = not (s == "")

-- `args.enrich_processes or args.process_name`
unfoldable pub wants_processes : Args → Bool
wants_processes a = a.enrich_processes || is_given a.process_name

unfoldable pub requested_attribution : Option String → Bool → String
requested_attribution none wants = if wants then "auto" else "none"
requested_attribution (some attribution) wants = attribution

-- `EbpfCollector(…)`
abbrev pub ebpf_settings : Args → String → SampleFilter → EbpfSettings
ebpf_settings a attribution sample_filter = record {
  bucket_ms = pos_part a.bucket_ms;
  sample_filter = sample_filter;
  ifname = a.interface;
  attach = not a.no_attach;
  detach_on_close = not a.keep_attached;
  process_enricher = if attribution == "none" then none else some a.process_name;
  delivery_attribution = attribution;
  receive_map_id = a.receive_map_id;
}

unfoldable pub ebpf_choice : Args → String → SampleFilter → Result CollectorChoice
unfolding wants_processes
ebpf_choice a attribution sample_filter =
    if (attribution == "none") && wants_processes a
    then err runtime_error
    else ok (ebpf (ebpf_settings a attribution sample_filter))

unfoldable pub create_collector : Args → SampleFilter → Result CollectorChoice
unfolding ebpf_choice requested_attribution wants_processes
create_collector a sample_filter =
    if is_le_zero a.bucket_ms
    then err runtime_error
    else if a.collector == "dry-run"
    then ok (dry_run (pos_part a.bucket_ms) sample_filter)
    else if a.collector == "ebpf"
    then ebpf_choice a (requested_attribution a.delivery_attribution (wants_processes a))
        sample_filter
    else err runtime_error

pub data WriterChoice : Type 0 where
  null sqlite duckdb parquet clickhouse : WriterChoice

unfoldable pub create_writer : String → Result WriterChoice
create_writer storage =
    if storage == "none"
    then ok null
    else if storage == "sqlite"
    then ok sqlite
    else if storage == "duckdb"
    then ok duckdb
    else if storage == "parquet"
    then ok parquet
    else if storage == "clickhouse"
    then ok clickhouse
    else err runtime_error

-- The arguments of `run-channels` that are read.
pub record ChannelArgs : Type 0 where
  pub collector : String
  pub bucket_ms : ℤ
  pub proto : String
  pub no_attach : Bool
  pub tcp_map_id : Option ℕ
  pub udp_map_id : Option ℕ
  pub channel : Option String
  pub unit : Option String
  pub host : Option String
  pub status : Option String

-- The arguments that the four classes share, with the map and `attach` where it loads a program.
pub record ChannelSettings : Type 0 where
  pub catalog : ChannelCatalog
  pub bucket_ms : ℕ
  pub sample_filter : ChannelSampleFilter
  pub map_id : Option ℕ
  pub attach : Bool

pub data ChannelChoice : Type 0 where
  tcp_dry_run udp_dry_run tcp_ebpf udp_ebpf : ChannelSettings → ChannelChoice

unfoldable pub channel_filter_of : ChannelArgs → ChannelSampleFilter
channel_filter_of a = record {
  channel = a.channel;
  unit = a.unit;
  host = a.host;
  status = a.status;
}

-- What is left of `create_channel_collector` with the catalog; the dry runs take neither map nor
-- `attach`.
unfoldable pub channel_choice :
    ChannelArgs → ChannelSampleFilter → ChannelCatalog → Result ChannelChoice
channel_choice a sample_filter catalog =
    let settings : Option ℕ → ChannelSettings = λ map_id. record {
      catalog = catalog;
      bucket_ms = pos_part a.bucket_ms;
      sample_filter = sample_filter;
      map_id = map_id;
      attach = not a.no_attach;
    } in
    let udp : Result ChannelChoice =
      if a.collector == "dry-run"
      then ok (udp_dry_run (settings none))
      else if a.collector == "ebpf"
      then ok (udp_ebpf (settings a.udp_map_id))
      else err runtime_error in
    let tcp : Result ChannelChoice =
      if a.collector == "dry-run"
      then ok (tcp_dry_run (settings none))
      else if a.collector == "ebpf"
      then ok (tcp_ebpf (settings a.tcp_map_id))
      else err runtime_error in
    if a.proto == "udp" then udp else tcp

-- `create_channel_collector`, on the outcome of `load_channel_catalog`.
unfoldable pub create_channel_collector :
    ChannelArgs → ChannelSampleFilter → Result ChannelCatalog → Result ChannelChoice
unfolding channel_choice
create_channel_collector a sample_filter loaded =
    if is_le_zero a.bucket_ms
    then err runtime_error
    else (loaded >>= channel_choice a sample_filter)
