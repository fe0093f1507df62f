-- ===== src/Collector/Emit.antt =====
-- What one flow reports: nothing where neither counter has grown, else its filtered rows.
use ebpf_udp_tcp_analyzer.Base.{
  ℕ, ◌+◌, ◌-◌, ◌<◌, ◌≡◌, ◌⊎◌, inl, inr, Bool, true, false, ◌&&◌, String, List, [], arith, keep,
  Bool-cases,
}
use ebpf_udp_tcp_analyzer.Base.Int.{sub_ℕ, pos_part, is_le_zero}
use ebpf_udp_tcp_analyzer.Errors.{ok, >>=-eq-ok}
use ebpf_udp_tcp_analyzer.Models.{UdpSample, matches}
use ebpf_udp_tcp_analyzer.Bpftool.Address.{ipv4_from_bpf_int}
use ebpf_udp_tcp_analyzer.Ingress.Wire.{UdpMapCounters, UdpMapEntry}
use ebpf_udp_tcp_analyzer.Delivered.Wire.{DeliveredMapEntry}
use ebpf_udp_tcp_analyzer.Collector.{
  World, Collector, Enriching, legacy_rows, exact_rows, emit_ingress, emit_delivered, is_legacy,
  ingress_sample, delivered_sample,
}

-- Neither counter is above its baseline.
abbrev pub is_quiet : UdpMapCounters → UdpMapCounters → Bool
is_quiet p n = is_le_zero (sub_ℕ n.packets p.packets) && is_le_zero (sub_ℕ n.bytes p.bytes)

abbrev pub packets_delta : UdpMapCounters → UdpMapCounters → ℕ
packets_delta p n = pos_part (sub_ℕ n.packets p.packets)

abbrev pub bytes_delta : UdpMapCounters → UdpMapCounters → ℕ
bytes_delta p n = pos_part (sub_ℕ n.bytes p.bytes)

pub busy_traffic :
    (p n : UdpMapCounters) → is_quiet p n ≡ false → 0 < packets_delta p n + bytes_delta p n
busy_traffic p n h = ground arith

pub quiet_deltas :
    (p n : UdpMapCounters)
    → is_quiet p n ≡ true
    → (n.packets - p.packets ≡ 0) × (n.bytes - p.bytes ≡ 0)
quiet_deltas p n h = ground arith

module _ (w : World) (c : Collector) (bucket_ns elapsed : ℕ) (p n : UdpMapCounters) where
  -- The rows of one ingress flow.
  pub ingress_outcome :
      (e : UdpMapEntry) (s s' : Enriching) (rows : List UdpSample)
      → emit_ingress w c bucket_ns elapsed p n e s ≡ ok (rows, s')
      → ((is_quiet p n ≡ true) × (rows ≡ []))
        ⊎ ((src : String) × (dst : String) × (is_quiet p n ≡ false)
            × (made : List UdpSample) × (s'' : Enriching) × (legacy_rows w
                  (is_legacy c.delivery_attribution)
                  (ingress_sample w c bucket_ns elapsed src dst e
                    (packets_delta p n)
                    (bytes_delta p n))
                  s
                ≡ ok (made, s''))
            × (rows ≡ keep (matches c.sample_filter) made))
  unfolding emit_ingress
  ingress_outcome e s s' rows h = elim (Bool-cases (is_quiet p n)) [
    | inl quiet ↦ let h' = rw quiet at h in inl (quiet, ground arith)
    | inr busy ↦
        let h' = rw busy at h in
        let (src, _, h1) = >>=-eq-ok (ipv4_from_bpf_int e.key.src_ip4) _ h' in
        let (dst, _, h2) = >>=-eq-ok (ipv4_from_bpf_int e.key.dst_ip4) _ h1 in
        let ((made, s''), ran, h3) = >>=-eq-ok (legacy_rows w _ _ s) _ h2 in
        inr (src, dst, busy, made, s'', ran, cc)
  ]

  -- The rows of one delivered flow.
  pub delivered_outcome :
      (e : DeliveredMapEntry) (s s' : Enriching) (rows : List UdpSample)
      → emit_delivered w c bucket_ns elapsed p n e s ≡ ok (rows, s')
      → ((is_quiet p n ≡ true) × (rows ≡ []))
        ⊎ ((src : String) × (dst : String) × (is_quiet p n ≡ false)
            × (made : List UdpSample) × (s'' : Enriching) × (exact_rows w
                  (delivered_sample w c bucket_ns elapsed src dst e
                    (packets_delta p n)
                    (bytes_delta p n))
                  e.value.socket_inode
                  e.key.socket_cookie
                  s
                ≡ ok (made, s''))
            × (rows ≡ keep (matches c.sample_filter) made))
  unfolding emit_delivered
  delivered_outcome e s s' rows h = elim (Bool-cases (is_quiet p n)) [
    | inl quiet ↦ let h' = rw quiet at h in inl (quiet, ground arith)
    | inr busy ↦
        let h' = rw busy at h in
        let (src, _, h1) = >>=-eq-ok (ipv4_from_bpf_int e.key.src_ip4) _ h' in
        let (dst, _, h2) = >>=-eq-ok (ipv4_from_bpf_int e.key.dst_ip4) _ h1 in
        let ((made, s''), ran, h3) = >>=-eq-ok (exact_rows w _ _ _ s) _ h2 in
        inr (src, dst, busy, made, s'', ran, cc)
  ]
