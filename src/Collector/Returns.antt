-- ===== src/Collector/Returns.antt =====
-- When a checkpoint returns.
use ebpf_udp_tcp_analyzer.Base.{
  ℕ, ◌*◌, ◌/◌, ◌^◌, ◌<◌, ◌≡◌, ◌⊎◌, ◌-◌, refl, Bool, Option, none, some, inl, inr, true, false, List,
  [], All, arith, Bool-cases, ltb,
}
use ebpf_udp_tcp_analyzer.Errors.{ok}
use ebpf_udp_tcp_analyzer.Models
use ebpf_udp_tcp_analyzer.Models.{UdpSample}
use ebpf_udp_tcp_analyzer.Bpftool.Address.{ipv4_from_bpf_int, dotted}
use ebpf_udp_tcp_analyzer.Bpftool.Struct.{bytes_le}
use ebpf_udp_tcp_analyzer.Ingress.Wire.{key_identity_eq, UdpMapEntry, udp_counting}
use ebpf_udp_tcp_analyzer.Checkpoint.Rows.{Total, read_flows_total}
use ebpf_udp_tcp_analyzer.Processes.{ProcessSocket, Enricher, Probe, sockets, find_matches, enrich}
use ebpf_udp_tcp_analyzer.Collector.{
  World, Collector, Enriching, is_legacy, legacy_rows, ingress_sample, emit_ingress,
  extend_delivered, read_checkpoint,
}
use ebpf_udp_tcp_analyzer.Collector.Baseline.{
  Dumps, entry_identity, entry_counters, read_ingress-read_flows,
}
use ebpf_udp_tcp_analyzer.Collector.Emit.{is_quiet, packets_delta, bytes_delta}
use ebpf_udp_tcp_analyzer.Collector.Parts.{elapsed_of, start_of, after_ingress}

-- The addresses are those of IPv4.
abbrev pub FitsAddresses : UdpMapEntry → Type 0
FitsAddresses e = (e.key.src_ip4 < 2 ^ 32) × (e.key.dst_ip4 < 2 ^ 32)

address_returns :
    (value : ℕ) → value < 2 ^ 32 → ipv4_from_bpf_int value ≡ ok (dotted (bytes_le 4 value))
unfolding ipv4_from_bpf_int
address_returns value h = let fits : ltb value (2 ^ 32) ≡ true = ground arith in rw fits refl

-- Each scan of /proc returns.
abbrev pub Scans : World → Type 0
Scans w = (n : ℕ) → (rows : List ProcessSocket) × ((w.probe n).scan ≡ ok rows)

sockets_return :
    (probe : Probe) (e : Enricher) (rows : List ProcessSocket)
    → probe.scan ≡ ok rows
    → (known : List ProcessSocket) × (e' : Enricher) × (sockets probe e ≡ ok (known, e'))
unfolding sockets
sockets_return probe e rows h = elim (Bool-cases (ltb e.cache_ttl (probe.now - e.cache_at))) [
  | inl old ↦ rw (old, h) (_, _, refl)
  | inr young ↦ rw young (_, _, refl)
]

legacy_rows_return :
    (w : World) (enabled : Bool) (sample : UdpSample) (o : Option Enricher) (n : ℕ)
    → (enabled ≡ false) ⊎ Scans w
    → (rows : List UdpSample) × (s' : Enriching) × (legacy_rows w enabled sample
          (record { enricher = o; calls = n })
        ≡ ok (rows, s'))
unfolding legacy_rows enrich find_matches
legacy_rows_return w enabled sample none n calm = (_, _, refl)
legacy_rows_return w false sample (some e) n calm = (_, _, refl)
legacy_rows_return w true sample (some e) n (inl off) = absurd (ground (arith, off))
legacy_rows_return w true sample (some e) n (inr scans) =
    let (rows, scanned) = scans n in
    let (known, e', ran) = sockets_return (w.probe n) e rows scanned in rw ran (_, _, refl)

emit_ingress-Total :
    (w : World) (c : Collector) (b el : ℕ)
    → (is_legacy c.delivery_attribution ≡ false) ⊎ Scans w
    → Total (emit_ingress w c b el) FitsAddresses
unfolding emit_ingress
emit_ingress-Total w c b el calm = record {
  runs = λ p n e s good. elim (Bool-cases (is_quiet p n)) [
    | inl quiet ↦ ([], s, rw quiet refl)
    | inr busy ↦
        let (rows, s', ran) =
          legacy_rows_return w (is_legacy c.delivery_attribution)
            (ingress_sample w c b el (dotted (bytes_le 4 e.key.src_ip4))
              (dotted (bytes_le 4 e.key.dst_ip4)) e (packets_delta p n) (bytes_delta p n))
            s.enricher s.calls calm in
        rw (busy, address_returns e.key.src_ip4 good.0, address_returns e.key.dst_ip4 good.1, ran)
          (_, _, refl)
  ];
}

bucket_returns :
    (now_ns bucket_ms : ℕ)
    → 0 < bucket_ms
    → (b : ℕ) × (Models.bucket_start_ns now_ns bucket_ms ≡ ok b)
unfolding Models.bucket_start_ns
bucket_returns now_ns bucket_ms h =
    (now_ns / (bucket_ms * 1_000_000) * (bucket_ms * 1_000_000), ground arith)

-- A checkpoint of a collector without a delivered map returns, whatever its baseline holds, where
-- the interval is above 0, the dump parses, the addresses of its entries are those of IPv4, and, if
-- it attributes by port, each scan of /proc returns.
pub read_checkpoint_returns :
    (w : World) (c : Collector) (entries : List UdpMapEntry)
    → 0 < c.bucket_ms
    → c.has_delivered_reader ≡ false
    → (is_legacy c.delivery_attribution ≡ false) ⊎ Scans w
    → Dumps w entries
    → All FitsAddresses entries
    → (rows : List UdpSample) × (c' : Collector) × (read_checkpoint w c ≡ ok (rows, c'))
unfolding read_checkpoint extend_delivered
read_checkpoint_returns w c entries above no_reader calm d good =
    let (b, started) = bucket_returns w.now_ns c.bucket_ms above in
    let emit = emit_ingress w c b (elapsed_of w c) in
    let (p, rows, s, ran) =
      read_flows_total emit FitsAddresses (emit_ingress-Total w c b (elapsed_of w c) calm)
        udp_counting entry_identity entry_counters entries c.previous (start_of c) good in
    (
      rows,
      after_ingress w c p s,
      rw
          (
            started,
            read_ingress-read_flows w c b (elapsed_of w c) entries (start_of c) d,
            ran,
            no_reader,
          )
          refl,
    )
