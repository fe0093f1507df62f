-- ===== src/Collector.antt =====
-- The checkpoints of `EbpfIngressCollector` (src/udp_analyzer/ebpf.py): the ingress rows, and the
-- delivered rows where there is a delivered map.
pub mod Emit
pub mod Parts
pub mod Rows
pub mod Baseline
pub mod Growth
pub mod Setup
pub mod Open
pub mod Opened
pub mod Returns
use ebpf_udp_tcp_analyzer.Base.{
  ℕ, ◌+◌, ◌-◌, ◌*◌, ◌/◌, Bool, true, false, ◌&&◌, String, Option, none, some, List, [], ◌∷◌, ◌++◌,
  keep, ◌==◌, nat_eq, string_eq, ltb, if◌then◌else◌,
}
use ebpf_udp_tcp_analyzer.Base.Int.{sub_ℕ, pos_part, is_le_zero}
use ebpf_udp_tcp_analyzer.Base.Dict.{Dict}
use ebpf_udp_tcp_analyzer.Errors.{Result, ok, ◌>>=◌}
use ebpf_udp_tcp_analyzer.Models
use ebpf_udp_tcp_analyzer.Models.{UdpSample, SampleFilter, matches}
use ebpf_udp_tcp_analyzer.Bpftool.Json.{Json, null, iterate}
use ebpf_udp_tcp_analyzer.Bpftool.Address.{ipv4_from_bpf_int}
use ebpf_udp_tcp_analyzer.Processes.{Enricher, Probe, enrich, enrich_exact}
use ebpf_udp_tcp_analyzer.Checkpoint.{read_flows}
use ebpf_udp_tcp_analyzer.Ingress
use ebpf_udp_tcp_analyzer.Ingress.Wire.{
  KeyIdentity, key_identity_eq, UdpMapCounters, UdpMapEntry, udp_counting, parse_bpftool_entry,
}
use ebpf_udp_tcp_analyzer.Delivered
use ebpf_udp_tcp_analyzer.Delivered.Wire.{DeliveredMapEntry, parse_bpftool_delivered_entry}

-- What a checkpoint meets outside the process.
pub record World : Type 0 where
  pub now_ns : ℕ
  -- what `bpftool map dump` gives for the two maps
  pub ingress_dump : Result Json
  pub delivered_dump : Result Json
  -- `socket.if_indextoname`, `none` for its `OSError`
  pub if_indextoname : ℕ → Option String
  -- the clock and the /proc scan that `ProcessSocketEnricher.sockets` meets for the n-th row
  pub probe : ℕ → Probe

-- `delivery_attribution` once it is configured: "none", "legacy" or "cookie".
pub data Attribution : Type 0 where
  disabled legacy cookie : Attribution

-- The enricher, if there is one, and the number of rows that it has been asked for in this
-- checkpoint, which numbers the probes.
pub record Enriching : Type 0 where
  pub enricher : Option Enricher
  pub calls : ℕ

pub record Collector : Type 0 where
  pub ifname : String
  pub bucket_ms : ℕ
  pub sample_filter : SampleFilter
  pub delivery_attribution : Attribution
  pub has_delivered_reader : Bool
  pub process_enricher : Option Enricher
  pub previous : Dict KeyIdentity UdpMapCounters
  pub delivered_previous : Dict KeyIdentity UdpMapCounters
  pub last_checkpoint_ns : Option ℕ

-- `ifname_from_index`
abbrev pub ifname_or : Option String → String → String
ifname_or none fallback = fallback
ifname_or (some name) fallback = name

unfoldable pub parse_all : {E : Type 0} → (Json → Result E) → List Json → Result (List E)
parse_all parse [] = ok []
parse_all parse (raw ∷ raws) = do entry ← parse raw; rest ← parse_all parse raws; ok (entry ∷ rest)

-- `dump_entries`: an empty map is printed as `null`.
unfoldable pub dump_entries : {E : Type 0} → (Json → Result E) → Json → Result (List E)
unfolding parse_all iterate
dump_entries parse null = ok []
dump_entries parse raw = do raws ← iterate raw; parse_all parse raws

-- The interval since the last checkpoint in milliseconds, or the nominal one where there was none
-- or the clock has not moved on.
unfoldable pub elapsed_ms : Option ℕ → ℕ → ℕ → ℕ
elapsed_ms none now_ns bucket_ms = bucket_ms
elapsed_ms (some previous_ns) now_ns bucket_ms =
    if is_le_zero (sub_ℕ now_ns previous_ns)
    then bucket_ms
    else (let measured = (now_ns - previous_ns) / 1_000_000 in
        if ltb 0 measured then measured else bucket_ms)

abbrev pub is_legacy : Attribution → Bool
is_legacy legacy = true
is_legacy _ = false

-- `enrich` in legacy mode, else the sample alone.
unfoldable pub legacy_rows :
    World → Bool → UdpSample → Enriching → Result (List UdpSample × Enriching)
unfolding enrich
legacy_rows w enabled sample s = elim s.enricher [
  | none ↦ ok (sample ∷ [], s)
  | some e ↦
      let enriched = enrich (w.probe s.calls) sample e >>= λ (rows, e').
      ok (rows, record { enricher = some e'; calls = s.calls + 1 }) in
      if enabled then enriched else ok (sample ∷ [], s)
]

-- `enrich_exact` where there is an enricher, else the sample alone.
unfoldable pub exact_rows :
    World → UdpSample → ℕ → ℕ → Enriching → Result (List UdpSample × Enriching)
unfolding enrich_exact
exact_rows w sample inode socket_cookie s = elim s.enricher [
  | none ↦ ok (sample ∷ [], s)
  | some e ↦ do
    (rows, e') ← enrich_exact (w.probe s.calls) sample inode socket_cookie e
    ok (rows, record { enricher = some e'; calls = s.calls + 1 })
]

module _ (w : World) (c : Collector) (bucket_ns elapsed : ℕ) where
  -- `UdpSample(…)` of `_read_ingress`
  abbrev pub ingress_sample : String → String → UdpMapEntry → ℕ → ℕ → UdpSample
  ingress_sample src_ip dst_ip entry packets bytes = record Models.blank_sample {
    bucket_start_ns = bucket_ns;
    bucket_ms = elapsed;
    src_ip = src_ip;
    dst_ip = dst_ip;
    src_port = entry.key.src_port;
    dst_port = entry.key.dst_port;
    ip_proto = entry.key.ip_proto;
    ifindex = entry.key.ifindex;
    ifname = ifname_or (w.if_indextoname entry.key.ifindex) c.ifname;
    packets = packets;
    bytes = bytes;
    layer = "ingress";
  }

  -- `UdpSample(…)` of `_read_delivered`
  abbrev pub delivered_sample : String → String → DeliveredMapEntry → ℕ → ℕ → UdpSample
  delivered_sample src_ip dst_ip entry packets bytes = record Models.blank_sample {
    bucket_start_ns = bucket_ns;
    bucket_ms = elapsed;
    src_ip = src_ip;
    dst_ip = dst_ip;
    src_port = entry.key.src_port;
    dst_port = entry.key.dst_port;
    ip_proto = entry.key.ip_proto;
    ifindex = entry.value.ifindex;
    ifname = ifname_or (w.if_indextoname entry.value.ifindex) c.ifname;
    packets = packets;
    bytes = bytes;
    socket_id = entry.key.socket_cookie;
    layer = "delivered";
  }

  -- The second loop of `_read_ingress` from the deltas on.
  unfoldable pub emit_ingress :
      UdpMapCounters
      → UdpMapCounters
      → UdpMapEntry
      → Enriching
      → Result (List UdpSample × Enriching)
  unfolding legacy_rows
  emit_ingress previous now entry s =
      let packet_delta = sub_ℕ now.packets previous.packets in
      let byte_delta = sub_ℕ now.bytes previous.bytes in
      if is_le_zero packet_delta && is_le_zero byte_delta then ok ([], s) else do
        src_ip ← ipv4_from_bpf_int entry.key.src_ip4
        dst_ip ← ipv4_from_bpf_int entry.key.dst_ip4
        let sample =
            ingress_sample src_ip dst_ip entry (pos_part packet_delta) (pos_part byte_delta)
        (rows, s') ← legacy_rows w (is_legacy c.delivery_attribution) sample s
        ok (keep (matches c.sample_filter) rows, s')

  -- The second loop of `_read_delivered` from the deltas on.
  unfoldable pub emit_delivered :
      UdpMapCounters
      → UdpMapCounters
      → DeliveredMapEntry
      → Enriching
      → Result (List UdpSample × Enriching)
  unfolding exact_rows
  emit_delivered previous now entry s =
      let packet_delta = sub_ℕ now.packets previous.packets in
      let byte_delta = sub_ℕ now.bytes previous.bytes in
      if is_le_zero packet_delta && is_le_zero byte_delta then ok ([], s) else do
        src_ip ← ipv4_from_bpf_int entry.key.src_ip4
        dst_ip ← ipv4_from_bpf_int entry.key.dst_ip4
        let sample =
            delivered_sample src_ip dst_ip entry (pos_part packet_delta) (pos_part byte_delta)
        (rows, s') ← exact_rows w sample entry.value.socket_inode entry.key.socket_cookie s
        ok (keep (matches c.sample_filter) rows, s')

  unfoldable pub read_ingress :
      Enriching → Result (Dict KeyIdentity UdpMapCounters × Enriching × List UdpSample)
  unfolding dump_entries
  read_ingress s = do
    raw ← w.ingress_dump
    entries ← dump_entries parse_bpftool_entry raw
    read_flows emit_ingress udp_counting (λ e. Ingress.Wire.identity e.key) (λ e. e.counters)
        entries c.previous s

  unfoldable pub read_delivered :
      Enriching → Result (Dict KeyIdentity UdpMapCounters × Enriching × List UdpSample)
  unfolding dump_entries
  read_delivered s = do
    raw ← w.delivered_dump
    entries ← dump_entries parse_bpftool_delivered_entry raw
    read_flows emit_delivered udp_counting (λ e. Delivered.Wire.identity e.key)
        (λ e. Delivered.Wire.counters e.value) entries c.delivered_previous s

-- `if self.delivered_reader is not None: samples.extend(self._read_delivered(…))`
unfoldable pub extend_delivered :
    Bool
    → World
    → ℕ
    → ℕ
    → Enriching
    → List UdpSample
    → Collector
    → Result (List UdpSample × Collector)
extend_delivered false w bucket_ns elapsed s samples c = ok (samples, c)
extend_delivered true w bucket_ns elapsed s samples c = do
  (delivered_previous, s', delivered) ← read_delivered w c bucket_ns elapsed s
  ok (
    samples ++ delivered,
    record c { delivered_previous = delivered_previous; process_enricher = s'.enricher },
  )

unfoldable pub read_checkpoint : World → Collector → Result (List UdpSample × Collector)
read_checkpoint w c = do
  bucket_ns ← Models.bucket_start_ns w.now_ns c.bucket_ms
  let elapsed = elapsed_ms c.last_checkpoint_ns w.now_ns c.bucket_ms
  (previous, s, samples) ←
      read_ingress w c bucket_ns elapsed (record { enricher = c.process_enricher; calls = 0 })
  extend_delivered c.has_delivered_reader w bucket_ns elapsed s samples (record c {
    previous = previous;
    process_enricher = s.enricher;
    last_checkpoint_ns = some w.now_ns;
  })

-- The checkpoints of the loop of `run_analyzer` (src/udp_analyzer/cli.py), with their rows in order.
unfoldable pub run : List World → Collector → Result (List UdpSample × Collector)
run [] c = ok ([], c)
run (w ∷ ws) c = do
  (rows, c') ← read_checkpoint w c
  (more, c'') ← run ws c'
  ok (rows ++ more, c'')
