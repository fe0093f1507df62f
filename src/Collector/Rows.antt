-- ===== src/Collector/Rows.antt =====
-- What holds of every row that a checkpoint returns.
use ebpf_udp_tcp_analyzer.Base.{
  map, ℕ, ◌+◌, ◌<◌, ◌≡◌, ◌⊎◌, refl, inl, inr, Bool, true, false, Option, none, some, List, [], ◌∷◌,
  keep, All, All-append, All-keep, keep-All, All-map, All-zip,
}
use mathlib.Core.Path.{subst}
use ebpf_udp_tcp_analyzer.Errors.{ok, >>=-eq-ok}
use ebpf_udp_tcp_analyzer.Models
use ebpf_udp_tcp_analyzer.Models.{UdpSample, matches}
use ebpf_udp_tcp_analyzer.Processes.{
  ProcessSocket, Enricher, enrich, enrich_exact, deliver_to, attribute_to, find_matches,
  find_inode_matches, attributed_rows,
}
use ebpf_udp_tcp_analyzer.Ingress.Wire.{
  KeyIdentity, key_identity_eq, UdpMapCounters, udp_counting, parse_bpftool_entry,
}
use ebpf_udp_tcp_analyzer.Checkpoint.Rows.{Emits, All-read_flows}
use ebpf_udp_tcp_analyzer.Collector.{
  World, Collector, Enriching, legacy_rows, exact_rows, emit_ingress, emit_delivered, is_legacy,
  read_ingress, read_delivered, read_checkpoint, dump_entries, elapsed_ms,
}
use ebpf_udp_tcp_analyzer.Collector.Parts.{
  absent, present, after_ingress, elapsed_of, start_of, checkpoint_parts,
}
use ebpf_udp_tcp_analyzer.Collector.Emit.{ingress_outcome, delivered_outcome, busy_traffic}
use ebpf_udp_tcp_analyzer.Base.Dict.{Dict}
use ebpf_udp_tcp_analyzer.Delivered.Wire.{parse_bpftool_delivered_entry}

-- The measurements of a row: those of the checkpoint, some traffic, and one of the two layers.
pub record Measured (bucket_ns elapsed : ℕ) (r : UdpSample) : Type 0 where
  pub start : r.bucket_start_ns ≡ bucket_ns
  pub interval : r.bucket_ms ≡ elapsed
  pub traffic : 0 < r.packets + r.bytes
  pub layer : (r.layer ≡ "ingress") ⊎ (r.layer ≡ "delivered")

module _ (w : World) (c : Collector) (bucket_ns elapsed : ℕ) where
  abbrev M : UdpSample → Type 0
  M = Measured bucket_ns elapsed

  deliver_to-Measured :
      (sample : UdpSample) (m : ProcessSocket) → M sample → M (deliver_to sample m)
  unfolding deliver_to
  deliver_to-Measured sample m h = record {
    start = h.start;
    interval = h.interval;
    traffic = h.traffic;
    layer = inr refl;
  }

  attribute_to-Measured :
      (sample : UdpSample) (m : ProcessSocket) → M sample → M (attribute_to sample m)
  unfolding attribute_to
  attribute_to-Measured sample m h = record {
    start = h.start;
    interval = h.interval;
    traffic = h.traffic;
    layer = h.layer;
  }

  attributed_rows-Measured :
      (sample : UdpSample) (found : List ProcessSocket)
      → M sample
      → All M (attributed_rows sample found)
  attributed_rows-Measured sample [] h = (h, tt)
  attributed_rows-Measured sample (m ∷ found) h =
      All-map M (attribute_to sample) (m ∷ found) (λ m'. attribute_to-Measured sample m' h)

  -- Enrichment changes no measurement.
  legacy_rows-Measured :
      (enabled : Bool) (sample : UdpSample) (o : Option Enricher) (n : ℕ) (rows : List UdpSample)
      (s' : Enriching)
      → legacy_rows w enabled sample (record { enricher = o; calls = n }) ≡ ok (rows, s')
      → M sample
      → All M rows
  unfolding legacy_rows enrich
  legacy_rows-Measured enabled sample none n rows s' ran h =
      let alone : sample ∷ [] ≡ rows = cc in subst (All M) alone (h, tt)
  legacy_rows-Measured false sample (some e) n rows s' ran h =
      let alone : sample ∷ [] ≡ rows = cc in subst (All M) alone (h, tt)
  legacy_rows-Measured true sample (some e) n rows s' ran h =
      let ((made, e'), enriched, h1) = >>=-eq-ok (enrich (w.probe n) sample e) _ ran in
      let ((found, e''), matched, h2) = >>=-eq-ok (find_matches (w.probe n) sample e) _ enriched in
      let all : sample ∷ map (deliver_to sample) found ≡ rows = cc in
      subst (All M) all
        (h, All-map M (deliver_to sample) found (λ m. deliver_to-Measured sample m h))

  exact_rows-Measured :
      (sample : UdpSample) (inode socket_cookie : ℕ) (o : Option Enricher) (n : ℕ)
      (rows : List UdpSample) (s' : Enriching)
      → exact_rows w sample inode socket_cookie (record { enricher = o; calls = n }) ≡ ok (rows, s')
      → M sample
      → All M rows
  unfolding exact_rows enrich_exact
  exact_rows-Measured sample inode socket_cookie none n rows s' ran h =
      let alone : sample ∷ [] ≡ rows = cc in subst (All M) alone (h, tt)
  exact_rows-Measured sample inode socket_cookie (some e) n rows s' ran h =
      let ((made, e'), enriched, h1) =
        >>=-eq-ok (enrich_exact (w.probe n) sample inode socket_cookie e) _ ran in
      let ((found, e''), matched, h2) =
        >>=-eq-ok (find_inode_matches (w.probe n) inode e) _ enriched in
      let cookie_row = record sample { layer = "delivered"; socket_id = socket_cookie } in
      let all : attributed_rows cookie_row found ≡ rows = cc in
      subst (All M) all (
        attributed_rows-Measured cookie_row found (record {
          start = h.start;
          interval = h.interval;
          traffic = h.traffic;
          layer = inr refl;
        }))

  -- A row of this checkpoint that the filter lets through.
  abbrev pub Reported : UdpSample → Type 0
  Reported r = M r × (matches c.sample_filter r ≡ true)

  keep-Reported :
      (rows : List UdpSample) → All M rows → All Reported (keep (matches c.sample_filter) rows)
  keep-Reported rows h =
      All-zip M (λ r. matches c.sample_filter r ≡ true) (keep (matches c.sample_filter) rows)
        (All-keep M (matches c.sample_filter) rows h) (keep-All (matches c.sample_filter) rows)

  emit_ingress-Reported : Emits (emit_ingress w c bucket_ns elapsed) (λ _. Unit) Reported
  emit_ingress-Reported = record {
    each = λ p n e s s' rows _ h. elim (ingress_outcome w c bucket_ns elapsed p n e s s' rows h) [
      | inl (quiet, nothing) ↦ (rw nothing tt, tt)
      | inr (src, dst, busy, made, s'', ran, kept) ↦ (
        rw kept (
            keep-Reported made (
              legacy_rows-Measured (is_legacy c.delivery_attribution) _ s.enricher s.calls made s''
                ran
                (record {
                  start = refl;
                  interval = refl;
                  traffic = busy_traffic p n busy;
                  layer = inl refl;
                }))),
        tt,
      )
    ];
  }

  emit_delivered-Reported : Emits (emit_delivered w c bucket_ns elapsed) (λ _. Unit) Reported
  emit_delivered-Reported = record {
    each = λ p n e s s' rows _ h. elim (delivered_outcome w c bucket_ns elapsed p n e s s' rows h) [
      | inl (quiet, nothing) ↦ (rw nothing tt, tt)
      | inr (src, dst, busy, made, s'', ran, kept) ↦ (
        rw kept (
            keep-Reported made (
              exact_rows-Measured _ e.value.socket_inode e.key.socket_cookie s.enricher s.calls made
                s'' ran
                (record {
                  start = refl;
                  interval = refl;
                  traffic = busy_traffic p n busy;
                  layer = inr refl;
                }))),
        tt,
      )
    ];
  }

  read_ingress-Reported :
      (s : Enriching) (p : Dict KeyIdentity UdpMapCounters) (s' : Enriching) (rows : List UdpSample)
      → read_ingress w c bucket_ns elapsed s ≡ ok (p, s', rows)
      → All Reported rows
  unfolding read_ingress
  read_ingress-Reported s p s' rows h =
      let (raw, _, h1) = >>=-eq-ok w.ingress_dump _ h in
      let (entries, _, h2) = >>=-eq-ok (dump_entries parse_bpftool_entry raw) _ h1 in
      All-read_flows (emit_ingress w c bucket_ns elapsed) (λ _. Unit) Reported emit_ingress-Reported
        udp_counting _ _ entries c.previous s s' rows tt h2

  read_delivered-Reported :
      (s : Enriching) (p : Dict KeyIdentity UdpMapCounters) (s' : Enriching) (rows : List UdpSample)
      → read_delivered w c bucket_ns elapsed s ≡ ok (p, s', rows)
      → All Reported rows
  unfolding read_delivered
  read_delivered-Reported s p s' rows h =
      let (raw, _, h1) = >>=-eq-ok w.delivered_dump _ h in
      let (entries, _, h2) = >>=-eq-ok (dump_entries parse_bpftool_delivered_entry raw) _ h1 in
      All-read_flows (emit_delivered w c bucket_ns elapsed) (λ _. Unit) Reported
        emit_delivered-Reported udp_counting _ _ entries c.delivered_previous s s' rows tt h2

-- Every row of a checkpoint starts at the bucket of the clock, carries the measured interval,
-- reports at least one packet or byte, is of layer "ingress" or "delivered", and passes the filter.
pub read_checkpoint-Reported :
    (w : World) (c c' : Collector) (rows : List UdpSample) (bucket_ns : ℕ)
    → Models.bucket_start_ns w.now_ns c.bucket_ms ≡ ok bucket_ns
    → read_checkpoint w c ≡ ok (rows, c')
    → All (Reported w c bucket_ns (elapsed_ms c.last_checkpoint_ns w.now_ns c.bucket_ms)) rows
read_checkpoint-Reported w c c' rows bucket_ns start h =
    let (b, p, s, samples, started, read, delivery) = checkpoint_parts w c c' rows h in
    let same : b ≡ bucket_ns = cc in
    let el = elapsed_of w c in
    let first = read_ingress-Reported w c b el (start_of c) p s samples read in
    rw (← same) (elim delivery [
      | absent _ all _ ↦ rw all first
      | present d s' delivered _ more all _ ↦ rw all (
          All-append (Reported w c b el) samples delivered first
            (read_delivered-Reported w (after_ingress w c p s) b el s d s' delivered more))
    ])
