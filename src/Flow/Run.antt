-- ===== src/Flow/Run.antt =====
-- What the rows of a run of a channel collector add up to.
use ebpf_udp_tcp_analyzer.Base.{◌+◌, ◌≡◌, ◌∙◌, List, [], ◌∷◌, ◌++◌, sum_by-append, arith}
use ebpf_udp_tcp_analyzer.Base.Dict.{get}
use ebpf_udp_tcp_analyzer.Errors.{ok, >>=-eq-ok}
use ebpf_udp_tcp_analyzer.Flow.Wire.{FlowIdentity, flow_identity_eq, FlowEntry}
use ebpf_udp_tcp_analyzer.Flow.Samples.{FlowSample}
use ebpf_udp_tcp_analyzer.Flow.Collector.{
  Protocol, FlowWorld, FlowCollector, read_flow_checkpoint, run_flows,
}
use ebpf_udp_tcp_analyzer.Flow.Rows.{FlowDumps, filter-read_flow_checkpoint}
use ebpf_udp_tcp_analyzer.Flow.Growth.{
  Counter, counter_of, IsUnfiltered, FlowsContinue, flow_totals, counter_in_dump, counter_reported,
  flow_checkpoint_growth,
}

-- Checkpoints whose dumps follow one another, from a first dump to a last one.
pub data FlowChain (protocol : Protocol)
    : List FlowEntry → List FlowWorld → List FlowEntry → Type 0 where
  done : {old last : List FlowEntry} → old ≡ last → FlowChain protocol old [] last
  next :
      {old last : List FlowEntry} {w : FlowWorld} {ws : List FlowWorld} (new : List FlowEntry)
      → FlowDumps protocol w new
      → FlowsContinue old new
      → FlowChain protocol new ws last
      → FlowChain protocol old (w ∷ ws) last

-- A run of a channel collector without a filter, from a baseline taken from one dump, where each
-- dump has the same flows as the one before and no counter goes down, loses and invents no traffic:
-- each of the five counters, added up over all rows of all checkpoints, is its growth from that dump
-- to the last.
pub run_flows_growth :
    (protocol : Protocol) (ws : List FlowWorld) (c c' : FlowCollector) (rows : List FlowSample)
    (old last : List FlowEntry)
    → IsUnfiltered c
    → ((i : FlowIdentity) → get i c.previous ≡ get i (flow_totals old))
    → FlowChain protocol old ws last
    → run_flows protocol ws c ≡ ok (rows, c')
    → (k : Counter) → counter_reported k rows + counter_in_dump k old ≡ counter_in_dump k last
unfolding run_flows
run_flows_growth protocol [] c c' rows old last plain base (done same) h k =
    let none : rows ≡ [] = cc in rw (none, same) (omega arith)
run_flows_growth protocol (w ∷ ws) c c' rows old last plain base (next new d f chain) h k =
    let (x, read, h1) = >>=-eq-ok (read_flow_checkpoint protocol w c) _ h in
    let (y, ran, h2) = >>=-eq-ok (run_flows protocol ws x.1) _ h1 in
    let joined : rows ≡ x.0 ++ y.0 = cc in
    let (here, base') = flow_checkpoint_growth protocol w c x.1 x.0 old new plain base d f read in
    let plain' = filter-read_flow_checkpoint protocol w c x.1 x.0 read ∙ plain in
    let there = run_flows_growth protocol ws x.1 y.1 y.0 new last plain' base' chain ran k in
    rw joined (omega (arith, sum_by-append (counter_of k) x.0 y.0, here k, there))
