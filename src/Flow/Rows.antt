-- ===== src/Flow/Rows.antt =====
-- What holds of every row of a channel collector: its measurements, the unit of its process, and
-- the verdict of the catalog on its endpoint.
use ebpf_udp_tcp_analyzer.Base.{
  ℕ, ◌+◌, ◌<◌, ◌≡◌, refl, inl, inr, ◌⊎◌, Bool, true, false, String, Option, none, some, List, [],
  ◌∷◌, keep, All, Bool-cases, ◌==◌, nat_eq, nat_beq_iff, arith, if◌then◌else◌,
}
use ebpf_udp_tcp_analyzer.Base.Dict.{Dict, get, get-put}
use ebpf_udp_tcp_analyzer.Errors.{ok, ◌>>=◌, >>=-eq-ok, guard, runtime_error}
use ebpf_udp_tcp_analyzer.Models
use ebpf_udp_tcp_analyzer.Bpftool.Address.{ipv4_from_bpf_int}
use ebpf_udp_tcp_analyzer.Bpftool.Json.{Json}
use ebpf_udp_tcp_analyzer.Channels.{match_flow, unit_from_cgroup_text}
use ebpf_udp_tcp_analyzer.Checkpoint.Rows.{Emits, All-read_flows}
use ebpf_udp_tcp_analyzer.Checkpoint.{read_flows}
use ebpf_udp_tcp_analyzer.Collector.{dump_entries}
use ebpf_udp_tcp_analyzer.Flow.Wire.{
  FlowIdentity, flow_identity_eq, FlowCounters, FlowEntry, flow_counting, identity, counters,
}
use ebpf_udp_tcp_analyzer.Flow.Merge.{parse_flow_entry}
use ebpf_udp_tcp_analyzer.Flow.Samples.{FlowSample, sample_matches}
use ebpf_udp_tcp_analyzer.Flow.Collector.{
  Protocol, FlowWorld, FlowCollector, cached_unit, unit_for_pid, deltas, is_idle, of_target,
  interval_ms, flow_sample, emit_flow, read_flow_map, read_flow_checkpoint,
}

abbrev pub flow_entry_identity : FlowEntry → FlowIdentity
flow_entry_identity e = identity e.key

abbrev pub flow_entry_counters : FlowEntry → FlowCounters
flow_entry_counters e = counters e.value

-- What `bpftool` gives for the map parses to these entries.
abbrev pub FlowDumps : Protocol → FlowWorld → List FlowEntry → Type 0
FlowDumps protocol w entries =
    (w.dump >>= dump_entries (parse_flow_entry protocol.number)) ≡ ok entries

-- The unit of a process when the checkpoint is read; pid 0 stands for no process.
abbrev pub owner : FlowWorld → ℕ → String
owner w pid = if pid == 0 then "" else unit_from_cgroup_text (w.cgroup_text pid)

-- The cache holds the units of this checkpoint.
abbrev IsCache : FlowWorld → Dict ℕ String → Type 0
IsCache w units = (pid : ℕ) (unit : String) → get pid units ≡ some unit → unit ≡ owner w pid

nothing-IsCache : (w : FlowWorld) → IsCache w []
unfolding get
nothing-IsCache w pid unit there = absurd (ground (arith, there))

loader_alive :
    (attached alive : Bool) {u : Unit {0}}
    → (if attached then guard alive runtime_error else ok tt) ≡ ok u
    → attached ≡ true
    → alive ≡ true
loader_alive true true h on = refl
loader_alive true false h on = absurd (ground (arith, h))
loader_alive false alive h on = absurd (ground (arith, on))

module _ (w : FlowWorld) (pid : ℕ) (units : Dict ℕ String) (cache : IsCache w units) where
  cached_unit-owner :
      (o : Option String)
      → o ≡ get pid units
      → (pid == 0) ≡ false
      → ((cached_unit o (unit_from_cgroup_text (w.cgroup_text pid)) pid units).0
          ≡ unit_from_cgroup_text (w.cgroup_text pid))
        × IsCache w (cached_unit o (unit_from_cgroup_text (w.cgroup_text pid)) pid units).1
  unfolding cached_unit
  cached_unit-owner none e live = (
    refl,
    λ j unit there. ground (
      arith,
      get-put pid j (unit_from_cgroup_text (w.cgroup_text pid)) units,
      cache j unit,
      nat_beq_iff pid j,
    ),
  )
  cached_unit-owner (some cached) e live =
      let owner-live : owner w pid ≡ unit_from_cgroup_text (w.cgroup_text pid) = rw live refl in
      (cc (cache pid cached cc, owner-live), cache)

  unit_for_pid-owner :
      ((unit_for_pid w.cgroup_text pid units).0 ≡ owner w pid)
      × IsCache w (unit_for_pid w.cgroup_text pid units).1
  unfolding unit_for_pid
  unit_for_pid-owner = elim (Bool-cases (pid == 0)) [
    | inl no_process ↦ rw no_process (refl, cache)
    | inr live ↦
        let (same, cache') = cached_unit-owner (get pid units) refl live in
        (rw live same, rw live cache')
  ]

-- Some counter of the interval is not 0.
busy_deltas :
    (d : FlowCounters)
    → is_idle d ≡ false
    → 0 < d.tx_bytes + d.rx_bytes + d.tx_calls + d.rx_calls + d.connections
busy_deltas d h = ground arith

-- A row that the catalog and the process of its flow account for.
pub record Attributed (protocol : Protocol) (w : FlowWorld) (c : FlowCollector) (r : FlowSample)
    : Type 0 where
  pub unit : r.unit ≡ owner w r.host_pid
  pub status : r.status ≡ (match_flow c.catalog r.unit r.dst_ip r.dst_port).status
  pub channel :
      r.channel
      ≡ of_target (λ t. t.channel) (match_flow c.catalog r.unit r.dst_ip r.dst_port).target
  pub url : r.url ≡ of_target (λ t. t.url) (match_flow c.catalog r.unit r.dst_ip r.dst_port).target
  pub host :
      r.host ≡ of_target (λ t. t.host) (match_flow c.catalog r.unit r.dst_ip r.dst_port).target
  pub layer : r.layer ≡ protocol.layer
  pub ip_proto : r.ip_proto ≡ protocol.number
  pub traffic : 0 < r.tx_bytes + r.rx_bytes + r.tx_calls + r.rx_calls + r.connections

-- A row of this checkpoint that the filter lets through.
abbrev pub ReportedFlow : Protocol → FlowWorld → FlowCollector → ℕ → ℕ → FlowSample → Type 0
ReportedFlow protocol w c bucket_ns elapsed r =
    Attributed protocol w c r
    × (r.bucket_start_ns ≡ bucket_ns)
    × (r.bucket_ms ≡ elapsed)
    × (sample_matches c.sample_filter r ≡ true)

module _ (protocol : Protocol) (w : FlowWorld) (c : FlowCollector) (b el : ℕ) where
  -- What one flow reports.
  pub flow_outcome :
      (p n : FlowCounters) (e : FlowEntry) (s s' : Dict ℕ String) (rows : List FlowSample)
      → emit_flow protocol w c b el p n e s ≡ ok (rows, s')
      → ((is_idle (deltas p n) ≡ true) × (rows ≡ []) × (s ≡ s'))
        ⊎ ((src : String) × (dst : String) × (is_idle (deltas p n) ≡ false)
            × (rows
                ≡ keep (sample_matches c.sample_filter) (
                    flow_sample protocol w c b el src dst
                      (unit_for_pid w.cgroup_text e.value.pid s).0
                      (match_flow c.catalog
                        (unit_for_pid w.cgroup_text e.value.pid s).0
                        dst
                        (protocol.endpoint_port e.key))
                      e
                      (deltas p n)
                    ∷ []))
            × (s' ≡ (unit_for_pid w.cgroup_text e.value.pid s).1))
  unfolding emit_flow
  flow_outcome p n e s s' rows h = elim (Bool-cases (is_idle (deltas p n))) [
    | inl idle ↦ let h' = rw idle at h in inl (idle, cc, cc)
    | inr busy ↦
        let h' = rw busy at h in
        let (dst, _, h1) = >>=-eq-ok (ipv4_from_bpf_int (protocol.endpoint_ip e.key)) _ h' in
        let (src, _, h2) = >>=-eq-ok (ipv4_from_bpf_int e.key.src_ip4) _ h1 in
        inr (src, dst, busy, cc, cc)
  ]

  sample-Attributed :
      (src dst unit : String) (e : FlowEntry) (d : FlowCounters)
      → unit ≡ owner w e.value.pid
      → is_idle d ≡ false
      → Attributed protocol w c (
          flow_sample protocol w c b el src dst unit
            (match_flow c.catalog unit dst (protocol.endpoint_port e.key))
            e
            d)
  sample-Attributed src dst unit e d owned busy = record {
    unit = owned;
    status = refl;
    channel = refl;
    url = refl;
    host = refl;
    layer = refl;
    ip_proto = refl;
    traffic = busy_deltas d busy;
  }

  keep-ReportedFlow :
      (r : FlowSample)
      → Attributed protocol w c r
      → r.bucket_start_ns ≡ b
      → r.bucket_ms ≡ el
      → All (ReportedFlow protocol w c b el) (keep (sample_matches c.sample_filter) (r ∷ []))
  keep-ReportedFlow r a start interval = elim (Bool-cases (sample_matches c.sample_filter r)) [
    | inl passes ↦ rw passes ((a, start, interval, passes), tt)
    | inr blocked ↦ rw blocked tt
  ]

  emit_flow-Emits : Emits (emit_flow protocol w c b el) (IsCache w) (ReportedFlow protocol w c b el)
  emit_flow-Emits = record {
    each = λ p n e s s' rows cache h. elim (flow_outcome p n e s s' rows h) [
      | inl (idle, nothing, same) ↦ (rw nothing tt, rw (← same) cache)
      | inr (src, dst, busy, made, moved) ↦
          let (owned, cache') = unit_for_pid-owner w e.value.pid s cache in
          (
            rw made (
                keep-ReportedFlow _ (sample-Attributed src dst _ e (deltas p n) owned busy) refl
                  refl),
            rw moved cache',
          )
    ];
  }

dump_parsed :
    (protocol : Protocol) (w : FlowWorld) (entries : List FlowEntry) {raw : Json}
    → w.dump ≡ ok raw
    → dump_entries (parse_flow_entry protocol.number) raw ≡ ok entries
    → FlowDumps protocol w entries
dump_parsed protocol w entries dumped parsed = rw dumped parsed

-- The steps of a checkpoint that raises nothing.
pub flow_checkpoint_parts :
    (protocol : Protocol) (w : FlowWorld) (c c' : FlowCollector) (rows : List FlowSample)
    → read_flow_checkpoint protocol w c ≡ ok (rows, c')
    → (b : ℕ) × (entries : List FlowEntry) × (Models.bucket_start_ns w.now_ns c.bucket_ms ≡ ok b)
      × (FlowDumps protocol w entries)
      × (read_flows
            (emit_flow protocol w c b (interval_ms c.last_checkpoint_ns w.now_ns c.bucket_ms))
            flow_counting
            flow_entry_identity
            flow_entry_counters
            entries
            c.previous
            []
          ≡ ok (c'.previous, c'.pid_units, rows))
      × (c.is_attached ≡ true → w.is_loader_alive ≡ true)
unfolding read_flow_checkpoint read_flow_map
flow_checkpoint_parts protocol w c c' rows h =
    let (_, alive, h0) =
      >>=-eq-ok (if c.is_attached then guard w.is_loader_alive runtime_error else ok tt) _ h in
    let (b, started, h1) = >>=-eq-ok (Models.bucket_start_ns w.now_ns c.bucket_ms) _ h0 in
    let el = interval_ms c.last_checkpoint_ns w.now_ns c.bucket_ms in
    let (x, read, h2) = >>=-eq-ok (read_flow_map protocol w c b el []) _ h1 in
    let (raw, dumped, r1) = >>=-eq-ok w.dump _ read in
    let (entries, parsed, r2) =
      >>=-eq-ok (dump_entries (parse_flow_entry protocol.number) raw) _ r1 in
    (
      b,
      entries,
      started,
      dump_parsed protocol w entries dumped parsed,
      ground (arith, r2, h2),
      λ attached. loader_alive c.is_attached w.is_loader_alive alive attached,
    )

-- A checkpoint keeps the filter.
pub filter-read_flow_checkpoint :
    (protocol : Protocol) (w : FlowWorld) (c c' : FlowCollector) (rows : List FlowSample)
    → read_flow_checkpoint protocol w c ≡ ok (rows, c')
    → c'.sample_filter ≡ c.sample_filter
unfolding read_flow_checkpoint
filter-read_flow_checkpoint protocol w c c' rows h =
    let (_, _, h0) =
      >>=-eq-ok (if c.is_attached then guard w.is_loader_alive runtime_error else ok tt) _ h in
    let (b, _, h1) = >>=-eq-ok (Models.bucket_start_ns w.now_ns c.bucket_ms) _ h0 in
    let el = interval_ms c.last_checkpoint_ns w.now_ns c.bucket_ms in
    let (x, _, h2) = >>=-eq-ok (read_flow_map protocol w c b el []) _ h1 in ground (arith, h2)

-- Every row of a channel checkpoint reports some traffic in the bucket and interval of the
-- checkpoint, carries the unit that the cgroup of its process names at that checkpoint, and the
-- status, channel, url and host that the catalog gives for this unit and the row's endpoint; and it
-- passes the filter.
pub read_flow_checkpoint-ReportedFlow :
    (protocol : Protocol) (w : FlowWorld) (c c' : FlowCollector) (rows : List FlowSample) (b : ℕ)
    → Models.bucket_start_ns w.now_ns c.bucket_ms ≡ ok b
    → read_flow_checkpoint protocol w c ≡ ok (rows, c')
    → All (ReportedFlow protocol w c b (interval_ms c.last_checkpoint_ns w.now_ns c.bucket_ms)) rows
read_flow_checkpoint-ReportedFlow protocol w c c' rows b start h =
    let (b', entries, started, _, ran, _) = flow_checkpoint_parts protocol w c c' rows h in
    let same : b' ≡ b = cc in
    let el = interval_ms c.last_checkpoint_ns w.now_ns c.bucket_ms in
    rw (← same) (
      All-read_flows (emit_flow protocol w c b' el) (IsCache w) (ReportedFlow protocol w c b' el)
        (emit_flow-Emits protocol w c b' el) flow_counting flow_entry_identity flow_entry_counters
        entries c.previous [] c'.pid_units rows (nothing-IsCache w) ran)
