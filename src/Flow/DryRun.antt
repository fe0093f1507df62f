-- ===== src/Flow/DryRun.antt =====
-- The rows of the dry runs claim what the catalog says of them.
use ebpf_udp_tcp_analyzer.Base.{
  ℕ, ◌≡◌, refl, String, some, List, [], ◌∷◌, nat_eq, string_eq, nat_beq_iff, arith,
}
use text.Mathlib.TextEquality.{eq_iff}
use ebpf_udp_tcp_analyzer.Channels.{
  ChannelTarget, contains, catalog_of, match_target, match_found, match_flow,
}
use ebpf_udp_tcp_analyzer.Channels.Matching.{last_of_unit, get-catalog_of}
use ebpf_udp_tcp_analyzer.Flow.Tcp.{first_or, tcp_dry_sample}
use ebpf_udp_tcp_analyzer.Flow.Udp.{udp_dry_sample}

-- The first address of a target, or any where it lists none, is one of its endpoints.
match_target-first :
    (target : ChannelTarget) (addresses : List String) (default : String)
    → target.addresses ≡ addresses
    → (match_target target (first_or addresses default) target.port).status ≡ "matched"
unfolding match_target contains
match_target-first target [] default e = ground (arith, nat_beq_iff target.port target.port)
match_target-first target (a ∷ addresses) default e =
    rw e (ground (arith, nat_beq_iff target.port target.port, eq_iff a a))

match_flow-first :
    (targets : List ChannelTarget) (target : ChannelTarget) (default : String)
    → last_of_unit target.unit targets ≡ some target
    → (match_flow
        (catalog_of targets)
        target.unit
        (first_or target.addresses default)
        target.port).status
      ≡ "matched"
unfolding match_flow match_found
match_flow-first targets target default last =
    rw (get-catalog_of target.unit targets, last)
      (match_target-first target target.addresses default refl)

-- A dry run's row for a target that no later target of its unit replaces has the status that the
-- catalog gives for the row's own unit and endpoint, for TCP and for UDP.
pub dry_sample-status :
    (targets : List ChannelTarget) (target : ChannelTarget) (bucket_ns bucket_ms tick : ℕ)
    → last_of_unit target.unit targets ≡ some target
    → (let r = tcp_dry_sample target bucket_ns bucket_ms tick in
        r.status ≡ (match_flow (catalog_of targets) r.unit r.dst_ip r.dst_port).status)
      × (let r = udp_dry_sample target bucket_ns bucket_ms tick in
          r.status ≡ (match_flow (catalog_of targets) r.unit r.dst_ip r.dst_port).status)
unfolding tcp_dry_sample udp_dry_sample
dry_sample-status targets target bucket_ns bucket_ms tick last =
    let tcp = match_flow-first targets target "203.0.113.10" last in
    let udp = match_flow-first targets target "239.239.16.2" last in (cc tcp, cc udp)
