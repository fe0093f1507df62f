-- ===== src/Cli/Ready.antt =====
-- The collectors that a command asks for can read checkpoints.
use ebpf_udp_tcp_analyzer.Base.{
  ℕ, ◌+◌, ◌*◌, ◌≤◌, ◌<◌, ◌≡◌, ◌≢◌, ◌↔◌, true, false, string_eq, nat_eq,
}
use ebpf_udp_tcp_analyzer.Base.Dict.{is_some}
use ebpf_udp_tcp_analyzer.Errors.{ok}
use ebpf_udp_tcp_analyzer.Models
use ebpf_udp_tcp_analyzer.Models.{SampleFilter}
use ebpf_udp_tcp_analyzer.Cli.Choices.{Args, CollectorChoice, dry_run, ebpf, wants_processes}

-- The bucket of every checkpoint can be computed, and holds the clock.
abbrev pub HasBuckets : ℕ → Type 0
HasBuckets bucket_ms =
    (now_ns : ℕ)
    → (b : ℕ) × (Models.bucket_start_ns now_ns bucket_ms ≡ ok b)
      × (b ≤ now_ns)
      × (now_ns < b + bucket_ms * 1_000_000)

-- What the arguments promise of a collector.
abbrev pub IsReady : Args → SampleFilter → CollectorChoice → Type 0
IsReady a f (dry_run bucket_ms g) = HasBuckets bucket_ms × (g ≡ f)
IsReady a f (ebpf s) =
    HasBuckets s.bucket_ms
    × (s.sample_filter ≡ f)
    × ((is_some s.process_enricher ≡ false) ↔ (s.delivery_attribution ≡ "none"))
    × (wants_processes a ≡ true → s.delivery_attribution ≢ "none")
