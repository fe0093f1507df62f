-- ===== src/Collector/Baseline.antt =====
-- The baselines that a checkpoint leaves.
use ebpf_udp_tcp_analyzer.Base.{ℕ, ◌≡◌, ◌∙◌, true, false, none, List, []}
use ebpf_udp_tcp_analyzer.Base.Dict.{Dict, get, is_some}
use ebpf_udp_tcp_analyzer.Errors.{ok, ◌>>=◌, >>=-eq-ok}
use ebpf_udp_tcp_analyzer.Models.{UdpSample}
use ebpf_udp_tcp_analyzer.Ingress
use ebpf_udp_tcp_analyzer.Ingress.Wire.{
  KeyIdentity, key_identity_eq, UdpMapCounters, UdpMapEntry, udp_counting, parse_bpftool_entry,
}
use ebpf_udp_tcp_analyzer.Checkpoint.{read_flows}
use ebpf_udp_tcp_analyzer.Checkpoint.Sums.{totals_of, first_of_identity}
use ebpf_udp_tcp_analyzer.Checkpoint.Baseline.{baseline-read_flows}
use ebpf_udp_tcp_analyzer.Checkpoint.Rows.{read_flows_unseen}
use ebpf_udp_tcp_analyzer.Collector.{
  World, Collector, Enriching, emit_ingress, read_ingress, read_checkpoint, dump_entries,
}
use ebpf_udp_tcp_analyzer.Collector.Parts.{
  Delivery-Kept, rows_without_reader, elapsed_of, start_of, checkpoint_parts,
}

abbrev pub entry_identity : UdpMapEntry → KeyIdentity
entry_identity e = Ingress.Wire.identity e.key

abbrev pub entry_counters : UdpMapEntry → UdpMapCounters
entry_counters e = e.counters

-- The totals of a dump of the ingress map.
abbrev pub ingress_totals : List UdpMapEntry → Dict KeyIdentity UdpMapCounters
ingress_totals = totals_of udp_counting entry_identity entry_counters

-- What `bpftool` gives for the ingress map parses to these entries.
abbrev pub Dumps : World → List UdpMapEntry → Type 0
Dumps w entries = (w.ingress_dump >>= dump_entries parse_bpftool_entry) ≡ ok entries

pub read_ingress-read_flows :
    (w : World) (c : Collector) (bucket_ns elapsed : ℕ) (entries : List UdpMapEntry) (s : Enriching)
    → Dumps w entries
    → read_ingress w c bucket_ns elapsed s
      ≡ read_flows
          (emit_ingress w c bucket_ns elapsed)
          udp_counting
          entry_identity
          entry_counters
          entries
          c.previous
          s
unfolding read_ingress
read_ingress-read_flows w c b el entries s d =
    let (raw, there, parsed) = >>=-eq-ok w.ingress_dump _ d in rw (there, parsed)

-- The ingress rows of a checkpoint are those of the flows of its dump.
pub checkpoint_flows :
    (w : World) (c c' : Collector) (rows : List UdpSample) (entries : List UdpMapEntry)
    → Dumps w entries
    → read_checkpoint w c ≡ ok (rows, c')
    → (b : ℕ) × (s : Enriching) × (samples : List UdpSample) × (read_flows
          (emit_ingress w c b (elapsed_of w c))
          udp_counting
          entry_identity
          entry_counters
          entries
          c.previous
          (start_of c)
        ≡ ok (c'.previous, s, samples))
      × (c.has_delivered_reader ≡ false → rows ≡ samples)
checkpoint_flows w c c' rows entries d h =
    let (b, p, s, samples, started, read, delivery) = checkpoint_parts w c c' rows h in
    let kept = Delivery-Kept delivery in
    (
      b,
      s,
      samples,
      rw (kept.previous, ← read_ingress-read_flows w c b (elapsed_of w c) entries (start_of c) d)
          read,
      rows_without_reader delivery,
    )

-- A checkpoint changes no setting.
pub settings-read_checkpoint :
    (w : World) (c c' : Collector) (rows : List UdpSample)
    → read_checkpoint w c ≡ ok (rows, c')
    → (c'.sample_filter ≡ c.sample_filter)
      × (c'.delivery_attribution ≡ c.delivery_attribution)
      × (c'.has_delivered_reader ≡ c.has_delivered_reader)
      × (c'.bucket_ms ≡ c.bucket_ms)
settings-read_checkpoint w c c' rows h =
    let (_, _, _, _, _, _, delivery) = checkpoint_parts w c c' rows h in
    let kept = Delivery-Kept delivery in
    (kept.sample_filter, kept.delivery_attribution, kept.has_delivered_reader, kept.bucket_ms)

-- Whatever a checkpoint reports, the baseline that it leaves is the sum of each flow of its dump:
-- a flow of the dump has its totals, and any other flow has none.
pub previous-read_checkpoint :
    (w : World) (c c' : Collector) (rows : List UdpSample) (entries : List UdpMapEntry)
    → Dumps w entries
    → read_checkpoint w c ≡ ok (rows, c')
    → (k : KeyIdentity) → get k c'.previous ≡ get k (ingress_totals entries)
previous-read_checkpoint w c c' rows entries d h k =
    let (b, s, samples, ran, _) = checkpoint_flows w c c' rows entries d h in
    baseline-read_flows (emit_ingress w c b (elapsed_of w c)) udp_counting entry_identity
      entry_counters entries c.previous (start_of c) ran k

-- A checkpoint whose flows have no baseline, as the first one after a start or the first one after
-- the flows came back, reports no row (there being no delivered map).
pub read_checkpoint_unseen :
    (w : World) (c c' : Collector) (rows : List UdpSample) (entries : List UdpMapEntry)
    → Dumps w entries
    → c.has_delivered_reader ≡ false
    → ((k : KeyIdentity)
        → is_some (first_of_identity udp_counting entry_identity entry_counters k entries) ≡ true
        → get k c.previous ≡ none)
    → read_checkpoint w c ≡ ok (rows, c')
    → rows ≡ []
read_checkpoint_unseen w c c' rows entries d off new h =
    let (b, s, samples, ran, only) = checkpoint_flows w c c' rows entries d h in
    only off
    ∙ (read_flows_unseen (emit_ingress w c b (elapsed_of w c)) udp_counting entry_identity
        entry_counters entries c.previous (start_of c) s samples new ran).0
