-- ===== src/DryRun/Rows.antt =====
-- The rows of a dry run are as those of the collector that reads the maps.
use ebpf_udp_tcp_analyzer.Base.{
  ℕ, ◌+◌, ◌≡◌, ◌⊎◌, refl, true, List, [], ◌∷◌, All, All-keep, keep-All, All-zip, keep, arith,
}
use ebpf_udp_tcp_analyzer.Errors.{ok, >>=-eq-ok}
use ebpf_udp_tcp_analyzer.Models
use ebpf_udp_tcp_analyzer.Models.{UdpSample, matches}
use ebpf_udp_tcp_analyzer.Collector.Rows.{Measured}
use ebpf_udp_tcp_analyzer.DryRun.{DryRunStream, DryRunCollector, samples_from, read_dry_run}

-- The streams are of the two layers.
abbrev pub Layered : List DryRunStream → Type 0
Layered = All (λ s. (s.layer ≡ "ingress") ⊎ (s.layer ≡ "delivered"))

samples_from-Measured :
    (streams : List DryRunStream) (bucket_ns bucket_ms tick index : ℕ)
    → Layered streams
    → All (Measured bucket_ns bucket_ms) (samples_from bucket_ns bucket_ms (tick + 1) index streams)
unfolding samples_from
samples_from-Measured [] bucket_ns bucket_ms tick index h = tt
samples_from-Measured (s ∷ streams) bucket_ns bucket_ms tick index h = (
  record { start = refl; interval = refl; traffic = omega arith; layer = h.0 },
  samples_from-Measured streams bucket_ns bucket_ms tick (index + 1) h.1,
)

-- Every row of a dry run is measured as one of the ingress collector is: it starts at the bucket of
-- the clock, carries the interval, counts some traffic, and is of one of the two layers, as its
-- stream is; and it passes the filter.
pub read_dry_run-Measured :
    (now_ns : ℕ) (c c' : DryRunCollector) (rows : List UdpSample) (b : ℕ)
    → Layered c.streams
    → Models.bucket_start_ns now_ns c.bucket_ms ≡ ok b
    → read_dry_run now_ns c ≡ ok (rows, c')
    → All (λ r. Measured b c.bucket_ms r × (matches c.sample_filter r ≡ true)) rows
unfolding read_dry_run
read_dry_run-Measured now_ns c c' rows b layered start h =
    let (b', started, h1) = >>=-eq-ok (Models.bucket_start_ns now_ns c.bucket_ms) _ h in
    let same : b' ≡ b = cc in
    let all = samples_from b' c.bucket_ms (c.tick + 1) 0 c.streams in
    let made : rows ≡ keep (matches c.sample_filter) all = cc in
    rw (← same, made)
      (All-zip (Measured b' c.bucket_ms) (λ r. matches c.sample_filter r ≡ true)
        (keep (matches c.sample_filter) all)
        (All-keep (Measured b' c.bucket_ms) (matches c.sample_filter) all
          (samples_from-Measured c.streams b' c.bucket_ms c.tick 0 layered))
        (keep-All (matches c.sample_filter) all))
