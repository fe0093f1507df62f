-- ===== src/Tests/Enrichment.antt =====
-- The process enricher on one socket, and the dry run.
use ebpf_udp_tcp_analyzer.Base.{◌≡◌, inl, inr, refl, true, List, [], ◌∷◌, All}
use ebpf_udp_tcp_analyzer.Errors.{ok}
use ebpf_udp_tcp_analyzer.Models
use ebpf_udp_tcp_analyzer.Models.{UdpSample, SampleFilter, no_filter, matches, blank_sample}
use ebpf_udp_tcp_analyzer.Processes.{ProcessSocket, Enricher, Probe, sockets, enrich_exact}
use ebpf_udp_tcp_analyzer.Processes.Owners.{
  IsSockets, sockets-IsFresh, Attributes, enrich_exact-IsAttributed,
}
use ebpf_udp_tcp_analyzer.Collector.Rows.{Measured}
use ebpf_udp_tcp_analyzer.DryRun.{DryRunCollector, demo_streams, samples_from, read_dry_run}
use ebpf_udp_tcp_analyzer.DryRun.Rows.{read_dry_run-Measured}

enrichment_reader : Unit {0}
unfolding sockets enrich_exact matches Models.bucket_start_ns read_dry_run
enrichment_reader = tt

abbrev socket_row : ProcessSocket
socket_row = record {
  host_pid = 4242;
  container_pid = 101;
  process_name = "ffmpeg";
  command_line = "ffmpeg -i udp://";
  netns_id = 1;
  container_id = "abc";
  socket_inode = 77;
  local_ip = "0.0.0.0";
  local_port = 5000;
  remote_ip = "0.0.0.0";
  remote_port = 0;
}

abbrev probe : Probe
probe = record { now = 5_000; scan = ok (socket_row ∷ []) }

abbrev enricher : Enricher
enricher = record { cache_ttl = 1_000; cache_at = 0; cached_sockets = [] }

abbrev sample : UdpSample
sample = record blank_sample { dst_port = 5000; packets = 3; bytes = 300 }

abbrev renewed : Enricher
renewed = record enricher { cached_sockets = socket_row ∷ []; cache_at = 5_000 }

enriched :
    enrich_exact probe sample 77 900 enricher
    ≡ ok (
      record sample {
        layer = "delivered";
        socket_id = 900;
        netns_id = 1;
        container_id = "abc";
        process_name = "ffmpeg";
        host_pid = 4242;
        container_pid = 101;
      }
          ∷ [],
      renewed,
    )
unfolding enrichment_reader
enriched = refl

sockets-IsFresh_example : IsSockets probe enricher (sockets probe enricher)
sockets-IsFresh_example = sockets-IsFresh probe enricher

enrich_exact-IsAttributed_example :
    Attributes sample 77 900 (sockets probe enricher) (enrich_exact probe sample 77 900 enricher)
enrich_exact-IsAttributed_example = enrich_exact-IsAttributed probe sample 77 900 enricher

abbrev pub dry : DryRunCollector
dry = record { bucket_ms = 1000; sample_filter = no_filter; tick = 0; streams = demo_streams }

abbrev pub dry_rows : List UdpSample
dry_rows = samples_from 1_000_000_000 1000 1 0 demo_streams

pub dry_run_rows : read_dry_run 1_500_000_000 dry ≡ ok (dry_rows, record dry { tick = 1 })
unfolding enrichment_reader
dry_run_rows = refl

dry_run_bucket : Models.bucket_start_ns 1_500_000_000 dry.bucket_ms ≡ ok 1_000_000_000
unfolding enrichment_reader
dry_run_bucket = refl

read_dry_run-Measured_example :
    All (λ r. Measured 1_000_000_000 1000 r × (matches no_filter r ≡ true)) dry_rows
read_dry_run-Measured_example =
    read_dry_run-Measured 1_500_000_000 dry (record dry { tick = 1 }) dry_rows 1_000_000_000
      (inr refl, (inr refl, (inl refl, tt))) dry_run_bucket dry_run_rows
