-- ===== src/Flow/Growth.antt =====
-- What the rows of a channel collector add up to.
use ebpf_udp_tcp_analyzer.Base.{
  ℕ, ◌+◌, ◌-◌, ◌≡◌, refl, inl, inr, true, String, List, [], ◌∷◌, keep, sum_by, arith,
}
use ebpf_udp_tcp_analyzer.Base.Int.{pos_part-sub_ℕ}
use ebpf_udp_tcp_analyzer.Base.Dict.{Dict, get}
use ebpf_udp_tcp_analyzer.Errors.{ok}
use ebpf_udp_tcp_analyzer.Checkpoint.{Reading}
use ebpf_udp_tcp_analyzer.Checkpoint.Sums.{totals_of}
use ebpf_udp_tcp_analyzer.Checkpoint.Growth.{Reports, Follows, read_flows-growth}
use ebpf_udp_tcp_analyzer.Checkpoint.Baseline.{baseline-read_flows}
use ebpf_udp_tcp_analyzer.Channels.{ChannelMatch, match_flow}
use ebpf_udp_tcp_analyzer.Flow.Wire.{
  FlowIdentity, flow_identity_eq, FlowCounters, FlowEntry, flow_counting,
}
use ebpf_udp_tcp_analyzer.Flow.Samples.{FlowSample, no_channel_filter, sample_matches}
use ebpf_udp_tcp_analyzer.Flow.Collector.{
  Protocol, FlowWorld, FlowCollector, deltas, is_idle, emit_flow, read_flow_checkpoint,
  unit_for_pid, flow_sample, interval_ms,
}
use ebpf_udp_tcp_analyzer.Flow.Rows.{
  FlowDumps, flow_entry_identity, flow_entry_counters, flow_outcome, flow_checkpoint_parts,
}

pub data Counter : Type 0 where
  tx_bytes rx_bytes tx_calls rx_calls connections : Counter

abbrev pub counter_in : Counter → FlowCounters → ℕ
counter_in tx_bytes n = n.tx_bytes
counter_in rx_bytes n = n.rx_bytes
counter_in tx_calls n = n.tx_calls
counter_in rx_calls n = n.rx_calls
counter_in connections n = n.connections

abbrev pub counter_of : Counter → FlowSample → ℕ
counter_of tx_bytes r = r.tx_bytes
counter_of rx_bytes r = r.rx_bytes
counter_of tx_calls r = r.tx_calls
counter_of rx_calls r = r.rx_calls
counter_of connections r = r.connections

abbrev pub reading : Counter → Reading flow_counting
reading tx_bytes = record { read = λ n. n.tx_bytes; read-zero = refl; read-add = λ a b. refl }
reading rx_bytes = record { read = λ n. n.rx_bytes; read-zero = refl; read-add = λ a b. refl }
reading tx_calls = record { read = λ n. n.tx_calls; read-zero = refl; read-add = λ a b. refl }
reading rx_calls = record { read = λ n. n.rx_calls; read-zero = refl; read-add = λ a b. refl }
reading connections = record { read = λ n. n.connections; read-zero = refl; read-add = λ a b. refl }

-- No filter: one row for each flow that has grown.
abbrev pub IsUnfiltered : FlowCollector → Type 0
IsUnfiltered c = c.sample_filter ≡ no_channel_filter

-- A counter of the deltas is the growth of the counter.
deltas-counter :
    (k : Counter) (p n : FlowCounters)
    → counter_in k (deltas p n) ≡ (reading k).read n - (reading k).read p
unfolding deltas
deltas-counter tx_bytes p n = pos_part-sub_ℕ n.tx_bytes p.tx_bytes
deltas-counter rx_bytes p n = pos_part-sub_ℕ n.rx_bytes p.rx_bytes
deltas-counter tx_calls p n = pos_part-sub_ℕ n.tx_calls p.tx_calls
deltas-counter rx_calls p n = pos_part-sub_ℕ n.rx_calls p.rx_calls
deltas-counter connections p n = pos_part-sub_ℕ n.connections p.connections

idle-counter : (k : Counter) (d : FlowCounters) → is_idle d ≡ true → counter_in k d ≡ 0
idle-counter tx_bytes d h = ground arith
idle-counter rx_bytes d h = ground arith
idle-counter tx_calls d h = ground arith
idle-counter rx_calls d h = ground arith
idle-counter connections d h = ground arith

counter_of_sample :
    (k : Counter) (protocol : Protocol) (w : FlowWorld) (c : FlowCollector) (b el : ℕ)
    (src dst unit : String) (found : ChannelMatch) (e : FlowEntry) (d : FlowCounters)
    → counter_of k (flow_sample protocol w c b el src dst unit found e d) ≡ counter_in k d
counter_of_sample tx_bytes protocol w c b el src dst unit found e d = refl
counter_of_sample rx_bytes protocol w c b el src dst unit found e d = refl
counter_of_sample tx_calls protocol w c b el src dst unit found e d = refl
counter_of_sample rx_calls protocol w c b el src dst unit found e d = refl
counter_of_sample connections protocol w c b el src dst unit found e d = refl

keep_one : (r : FlowSample) → keep (sample_matches no_channel_filter) (r ∷ []) ≡ r ∷ []
unfolding sample_matches
keep_one r = refl

module _ (protocol : Protocol) (w : FlowWorld) (c : FlowCollector) (plain : IsUnfiltered c)
    (b el : ℕ) (k : Counter) where
  emit_flow-Reports : Reports (reading k) (counter_of k) (emit_flow protocol w c b el)
  emit_flow-Reports = record {
    exact = λ p n e s s' rows h. elim (flow_outcome protocol w c b el p n e s s' rows h) [
      | inl (idle, nothing, _) ↦
          rw nothing (omega (arith, idle-counter k (deltas p n) idle, deltas-counter k p n))
      | inr (src, dst, busy, made, _) ↦
          rw (made, plain, keep_one)
            (omega (
              arith,
              deltas-counter k p n,
              counter_of_sample k protocol w c b el src dst
                  (unit_for_pid w.cgroup_text e.value.pid s).0
                  (match_flow c.catalog (unit_for_pid w.cgroup_text e.value.pid s).0 dst
                    (protocol.endpoint_port e.key))
                  e (deltas p n),
            ))
    ];
  }

-- Two dumps of the same flows, none of whose counters goes down.
abbrev pub FlowsContinue : List FlowEntry → List FlowEntry → Type 0
FlowsContinue old new =
    (k : Counter) → Follows (reading k) flow_entry_identity flow_entry_counters old new

-- A counter added up over the entries of a dump, and over rows.
abbrev pub counter_in_dump : Counter → List FlowEntry → ℕ
counter_in_dump k = sum_by (λ e. (reading k).read (flow_entry_counters e))

abbrev pub counter_reported : Counter → List FlowSample → ℕ
counter_reported k = sum_by (counter_of k)

abbrev pub flow_totals : List FlowEntry → Dict FlowIdentity FlowCounters
flow_totals = totals_of flow_counting flow_entry_identity flow_entry_counters

-- A checkpoint of a channel collector without a filter, with the totals of an earlier dump as
-- baseline, reports of each of the five counters exactly what it has grown by from that dump to its
-- own, if no flow came or went and no counter went down; and it leaves the totals of its own dump
-- as baseline.
pub flow_checkpoint_growth :
    (protocol : Protocol) (w : FlowWorld) (c c' : FlowCollector) (rows : List FlowSample)
    (old new : List FlowEntry)
    → IsUnfiltered c
    → ((i : FlowIdentity) → get i c.previous ≡ get i (flow_totals old))
    → FlowDumps protocol w new
    → FlowsContinue old new
    → read_flow_checkpoint protocol w c ≡ ok (rows, c')
    → ((k : Counter) → counter_reported k rows + counter_in_dump k old ≡ counter_in_dump k new)
      × ((i : FlowIdentity) → get i c'.previous ≡ get i (flow_totals new))
flow_checkpoint_growth protocol w c c' rows old new plain base d f h =
    let (b, entries, _, d', ran, _) = flow_checkpoint_parts protocol w c c' rows h in
    let el = interval_ms c.last_checkpoint_ns w.now_ns c.bucket_ms in
    let emit = emit_flow protocol w c b el in
    let same : entries ≡ new = cc in
    let ran' = rw same at ran in
    (
      λ k.
          read_flows-growth (reading k) flow_entry_identity flow_entry_counters emit (counter_of k)
            (emit_flow-Reports protocol w c plain b el k) old new c.previous [] ran' base (f k),
      baseline-read_flows emit flow_counting flow_entry_identity flow_entry_counters new c.previous
          [] ran',
    )
