-- ===== src/Collector/Growth.antt =====
-- What the rows of a run add up to.
use ebpf_udp_tcp_analyzer.Base.{
  ℕ, ◌+◌, ◌≡◌, refl, sym, ap, ◌∙◌, inl, inr, false, Option, none, some, List, [], ◌∷◌, ◌++◌, arith,
  keep, sum_by, sum_by-append,
}
use ebpf_udp_tcp_analyzer.Base.Int.{pos_part-sub_ℕ}
use ebpf_udp_tcp_analyzer.Base.Dict.{get}
use ebpf_udp_tcp_analyzer.Errors.{ok, >>=-eq-ok}
use ebpf_udp_tcp_analyzer.Models.{UdpSample, no_filter, matches}
use ebpf_udp_tcp_analyzer.Processes.{Enricher}
use ebpf_udp_tcp_analyzer.Ingress.Wire.{KeyIdentity, key_identity_eq, UdpMapEntry, udp_counting}
use ebpf_udp_tcp_analyzer.Checkpoint.{Reading}
use ebpf_udp_tcp_analyzer.Checkpoint.Growth.{Reports, Follows, read_flows-growth}
use ebpf_udp_tcp_analyzer.Collector.{
  World, Collector, Enriching, is_legacy, legacy_rows, emit_ingress, read_checkpoint, run,
}
use ebpf_udp_tcp_analyzer.Collector.Emit.{ingress_outcome, quiet_deltas}
use ebpf_udp_tcp_analyzer.Collector.Parts.{elapsed_of, start_of}
use ebpf_udp_tcp_analyzer.Collector.Baseline.{
  Dumps, entry_identity, entry_counters, ingress_totals, checkpoint_flows, settings-read_checkpoint,
  previous-read_checkpoint,
}

abbrev packets_reading : Reading udp_counting
packets_reading = record { read = λ n. n.packets; read-zero = refl; read-add = λ a b. refl }

abbrev bytes_reading : Reading udp_counting
bytes_reading = record { read = λ n. n.bytes; read-zero = refl; read-add = λ a b. refl }

-- No filter, no port heuristic, no delivered map: one row for each flow that has grown.
pub record IsPlain (c : Collector) : Type 0 where
  pub unfiltered : c.sample_filter ≡ no_filter
  pub exact : is_legacy c.delivery_attribution ≡ false
  pub ingress_only : c.has_delivered_reader ≡ false

legacy_rows_off :
    (w : World) (sample : UdpSample) (o : Option Enricher) (n : ℕ)
    → legacy_rows w false sample (record { enricher = o; calls = n })
      ≡ ok (sample ∷ [], record { enricher = o; calls = n })
unfolding legacy_rows
legacy_rows_off w sample none n = refl
legacy_rows_off w sample (some e) n = refl

legacy_rows_plain :
    (w : World) (c : Collector) (plain : IsPlain c) (sample : UdpSample) (made : List UdpSample)
    (s s' : Enriching)
    → legacy_rows w (is_legacy c.delivery_attribution) sample s ≡ ok (made, s')
    → made ≡ sample ∷ []
legacy_rows_plain w c plain sample made s s' ran =
    let off = legacy_rows_off w sample s.enricher s.calls in
    let ran' = rw plain.exact at ran in
    let same : ok (sample ∷ [], s) ≡ ok (made, s') = sym off ∙ ran' in ground (arith, same)

keep-no_filter : (rows : List UdpSample) → keep (matches no_filter) rows ≡ rows
unfolding matches
keep-no_filter [] = refl
keep-no_filter (r ∷ rows) = ap (◌∷◌ r) (keep-no_filter rows)

module _ (w : World) (c : Collector) (plain : IsPlain c) (b el : ℕ) where
  packets-Reports : Reports packets_reading (λ (r : UdpSample). r.packets) (emit_ingress w c b el)
  packets-Reports = record {
    exact = λ p n e s s' rows h. elim (ingress_outcome w c b el p n e s s' rows h) [
      | inl (quiet, nothing) ↦ rw nothing (omega (arith, quiet_deltas p n quiet))
      | inr (src, dst, busy, made, _, ran, kept) ↦
          rw (kept, plain.unfiltered, keep-no_filter, legacy_rows_plain w c plain _ made s _ ran)
            (omega (arith, pos_part-sub_ℕ n.packets p.packets))
    ];
  }

  bytes-Reports : Reports bytes_reading (λ (r : UdpSample). r.bytes) (emit_ingress w c b el)
  bytes-Reports = record {
    exact = λ p n e s s' rows h. elim (ingress_outcome w c b el p n e s s' rows h) [
      | inl (quiet, nothing) ↦ rw nothing (omega (arith, quiet_deltas p n quiet))
      | inr (src, dst, busy, made, _, ran, kept) ↦
          rw (kept, plain.unfiltered, keep-no_filter, legacy_rows_plain w c plain _ made s _ ran)
            (omega (arith, pos_part-sub_ℕ n.bytes p.bytes))
    ];
  }

-- Two dumps with the same flows, whose packet and byte counters do not go down.
pub record Continues (old new : List UdpMapEntry) : Type 0 where
  pub packets : Follows packets_reading entry_identity entry_counters old new
  pub bytes : Follows bytes_reading entry_identity entry_counters old new

-- The sum of a counter over the entries of a dump.
abbrev pub packets_in : List UdpMapEntry → ℕ
packets_in = sum_by (λ (e : UdpMapEntry). e.counters.packets)

abbrev pub bytes_in : List UdpMapEntry → ℕ
bytes_in = sum_by (λ (e : UdpMapEntry). e.counters.bytes)

abbrev pub packets_reported : List UdpSample → ℕ
packets_reported = sum_by (λ (r : UdpSample). r.packets)

abbrev pub bytes_reported : List UdpSample → ℕ
bytes_reported = sum_by (λ (r : UdpSample). r.bytes)

-- The baseline of the collector is the totals of a dump.
abbrev pub IsBaselined : Collector → List UdpMapEntry → Type 0
IsBaselined c entries = (k : KeyIdentity) → get k c.previous ≡ get k (ingress_totals entries)

-- One checkpoint: what it reports is what the counters in the map have grown by.
pub checkpoint_growth :
    (w : World) (c c' : Collector) (rows : List UdpSample) (old new : List UdpMapEntry)
    → IsPlain c
    → IsBaselined c old
    → Dumps w new
    → Continues old new
    → read_checkpoint w c ≡ ok (rows, c')
    → (packets_reported rows + packets_in old ≡ packets_in new)
      × (bytes_reported rows + bytes_in old ≡ bytes_in new)
checkpoint_growth w c c' rows old new plain base d f h =
    let (b, s, samples, ran, only) = checkpoint_flows w c c' rows new d h in
    let el = elapsed_of w c in
    let emit = emit_ingress w c b el in
    rw (only plain.ingress_only) (
      read_flows-growth packets_reading entry_identity entry_counters emit
          (λ (r : UdpSample). r.packets) (packets-Reports w c plain b el) old new c.previous
          (start_of c) ran base f.packets,
      read_flows-growth bytes_reading entry_identity entry_counters emit
          (λ (r : UdpSample). r.bytes) (bytes-Reports w c plain b el) old new c.previous
          (start_of c) ran base f.bytes,
    )

-- Checkpoints whose dumps follow one another, from a first dump to a last one.
pub data Chain : List UdpMapEntry → List World → List UdpMapEntry → Type 0 where
  done : {old last : List UdpMapEntry} → old ≡ last → Chain old [] last
  next :
      {old last : List UdpMapEntry} {w : World} {ws : List World} (new : List UdpMapEntry)
      → Dumps w new
      → Continues old new
      → Chain new ws last
      → Chain old (w ∷ ws) last

-- A run loses and invents no traffic: from a baseline taken from one dump, the packets and the bytes
-- of all rows of all checkpoints add up to the growth of the counters from that dump to the last.
pub run_growth :
    (ws : List World) (c c' : Collector) (rows : List UdpSample) (old last : List UdpMapEntry)
    → IsPlain c
    → IsBaselined c old
    → Chain old ws last
    → run ws c ≡ ok (rows, c')
    → (packets_reported rows + packets_in old ≡ packets_in last)
      × (bytes_reported rows + bytes_in old ≡ bytes_in last)
unfolding run
run_growth [] c c' rows old last plain base (done same) h = rw same (ground arith)
run_growth (w ∷ ws) c c' rows old last plain base (next new d f chain) h =
    let (x, read, h1) = >>=-eq-ok (read_checkpoint w c) _ h in
    let (y, ran, h2) = >>=-eq-ok (run ws x.1) _ h1 in
    let joined : rows ≡ x.0 ++ y.0 = cc in
    let settings = settings-read_checkpoint w c x.1 x.0 read in
    let plain' : IsPlain x.1 = record {
      unfiltered = settings.0 ∙ plain.unfiltered;
      exact = ap is_legacy settings.1 ∙ plain.exact;
      ingress_only = settings.2 ∙ plain.ingress_only;
    } in
    let base' = previous-read_checkpoint w c x.1 x.0 new d read in
    let here = checkpoint_growth w c x.1 x.0 old new plain base d f read in
    let there = run_growth ws x.1 y.1 y.0 new last plain' base' chain ran in
    rw joined (
      omega (arith, sum_by-append (λ (r : UdpSample). r.packets) x.0 y.0, here, there),
      omega (arith, sum_by-append (λ (r : UdpSample). r.bytes) x.0 y.0, here, there),
    )
