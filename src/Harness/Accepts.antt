-- ===== src/Harness/Accepts.antt =====
-- The harness accepts what the collectors report.
use ebpf_udp_tcp_analyzer.Base.{
  ℕ, ◌+◌, ◌≡◌, ◌⊎◌, refl, inl, inr, Bool, true, false, not, ◌&&◌, ◌||◌, String, List, [], ◌∷◌, map,
  All, keep, ltb, arith, ◌==◌, string_eq, Bool-cases, if◌then◌else◌,
}
use text.Mathlib.TextEquality.{eq_iff}
use ebpf_udp_tcp_analyzer.Errors.{ok, system_exit, guard, ◌>>◌, >>=-eq-ok}
use ebpf_udp_tcp_analyzer.Models
use ebpf_udp_tcp_analyzer.Models.{UdpSample, matches, no_filter}
use ebpf_udp_tcp_analyzer.Models.Rows.{to_dict}
use ebpf_udp_tcp_analyzer.Bpftool.Json.{Json, obj}
use ebpf_udp_tcp_analyzer.Collector.{World, Collector, read_checkpoint}
use ebpf_udp_tcp_analyzer.Collector.Rows.{Reported, read_checkpoint-Reported}
use ebpf_udp_tcp_analyzer.Collector.Parts.{checkpoint_parts}
use ebpf_udp_tcp_analyzer.DryRun.{DryRunCollector, demo_streams, samples_from, read_dry_run}
use ebpf_udp_tcp_analyzer.Harness.{
  validate_row, validate_each, validate_rows, no_rows, any_ingress, any_packets, validate_ebpf,
  validate_dry_run,
}

-- Two guards in a row, past the test for empty output.
two_guards :
    (allow a b : Bool)
    → (if allow && false then ok tt else (guard a system_exit >> guard b system_exit))
      ≡ guard (a && b) system_exit
two_guards true true b = refl
two_guards false true b = refl
two_guards true false b = refl
two_guards false false b = refl

guard_alone : (b : Bool) → (guard b system_exit >> ok tt) ≡ guard b system_exit
guard_alone true = refl
guard_alone false = refl

layers :
    (w : World) (c : Collector) (b elapsed : ℕ) (rows : List UdpSample)
    → All (Reported w c b elapsed) rows
    → All (λ r. (r.layer ≡ "ingress") ⊎ (r.layer ≡ "delivered")) rows
layers w c b elapsed [] h = tt
layers w c b elapsed (r ∷ rows) h = (h.0.0.layer, layers w c b elapsed rows h.1)

module _ (iso : ℕ → String) where
  -- The rows that the harness reads from the printed samples.
  abbrev pub printed_rows : List UdpSample → List Json
  printed_rows = map (λ s. obj (to_dict iso s))

  abbrev IsLayered : UdpSample → Type 0
  IsLayered r = (r.layer ≡ "ingress") ⊎ (r.layer ≡ "delivered")

  layer_test :
      (s : String)
      → (s ≡ "ingress") ⊎ (s ≡ "delivered")
      → ((s == "ingress") || (s == "delivered")) ≡ true
  layer_test s (inl e) = ground (arith, e, eq_iff s "ingress")
  layer_test s (inr e) = ground (arith, e, eq_iff s "delivered")

  validate_row-to_dict : (r : UdpSample) → IsLayered r → validate_row (obj (to_dict iso r)) ≡ ok tt
  unfolding validate_row to_dict
  validate_row-to_dict r h = rw (layer_test r.layer h) refl

  validate_each-printed_rows :
      (rows : List UdpSample) → All IsLayered rows → validate_each (printed_rows rows) ≡ ok tt
  unfolding validate_each
  validate_each-printed_rows [] h = refl
  validate_each-printed_rows (r ∷ rows) h =
      rw (validate_row-to_dict r h.0) (validate_each-printed_rows rows h.1)

  -- Some row satisfies a test.
  abbrev pub some_row : (UdpSample → Bool) → List UdpSample → Bool
  some_row p [] = false
  some_row p (r ∷ rows) = p r || some_row p rows

  any_ingress-printed_rows :
      (rows : List UdpSample)
      → any_ingress (printed_rows rows) ≡ ok (some_row (λ r. r.layer == "ingress") rows)
  unfolding any_ingress to_dict
  any_ingress-printed_rows [] = refl
  any_ingress-printed_rows (r ∷ rows) = elim (Bool-cases (r.layer == "ingress")) [
    | inl here ↦ rw here refl
    | inr away ↦ rw away (any_ingress-printed_rows rows)
  ]

  any_packets-printed_rows :
      (rows : List UdpSample)
      → any_packets (printed_rows rows) ≡ ok (some_row (λ r. ltb 0 r.packets) rows)
  unfolding any_packets to_dict
  any_packets-printed_rows [] = refl
  any_packets-printed_rows (r ∷ rows) = elim (Bool-cases (ltb 0 r.packets)) [
    | inl here ↦ rw here refl
    | inr away ↦ rw away (any_packets-printed_rows rows)
  ]

  empty_output :
      (allow_empty : Bool)
      → validate_ebpf (printed_rows []) allow_empty ≡ guard allow_empty system_exit
  unfolding validate_ebpf any_ingress
  empty_output true = refl
  empty_output false = refl

  -- The check of the eBPF profile accepts the printed rows of a checkpoint exactly if one of them is
  -- an ingress row and one counts packets, or there are none and none are needed.
  pub validate_ebpf-printed_rows :
      (r : UdpSample) (rows : List UdpSample) (allow_empty : Bool)
      → (validate_ebpf (printed_rows []) allow_empty ≡ guard allow_empty system_exit)
        × (validate_ebpf (printed_rows (r ∷ rows)) allow_empty
            ≡ guard
                (some_row (λ s. s.layer == "ingress") (r ∷ rows)
                  && some_row (λ s. ltb 0 s.packets) (r ∷ rows))
                system_exit)
  unfolding validate_ebpf any_ingress
  validate_ebpf-printed_rows r rows allow_empty = (
    empty_output allow_empty,
    rw (any_ingress-printed_rows, any_packets-printed_rows) (two_guards allow_empty _ _),
  )

-- What a checkpoint reports passes the harness: its printed rows have all fields, of the right
-- types, with one of the two layers; only where it reports nothing and empty output is not allowed
-- is the output refused.
pub read_checkpoint-validate_rows :
    (iso : ℕ → String) (w : World) (c c' : Collector) (rows : List UdpSample) (allow_empty : Bool)
    → read_checkpoint w c ≡ ok (rows, c')
    → validate_rows (printed_rows iso rows) allow_empty
      ≡ guard (not (no_rows (printed_rows iso rows) && not allow_empty)) system_exit
unfolding validate_rows
read_checkpoint-validate_rows iso w c c' rows allow_empty h =
    let (b, _, _, _, start, _, _) = checkpoint_parts w c c' rows h in
    let layered = layers w c b _ rows (read_checkpoint-Reported w c c' rows b start h) in
    rw (validate_each-printed_rows iso rows layered)
      (guard_alone (not (no_rows (printed_rows iso rows) && not allow_empty)))

demo_rows :
    (iso : ℕ → String) (b bucket_ms tick : ℕ)
    → validate_dry_run
        (printed_rows iso (keep (matches no_filter) (samples_from b bucket_ms tick 0 demo_streams)))
      ≡ ok tt
unfolding validate_dry_run to_dict samples_from matches
demo_rows iso b bucket_ms tick = refl

-- At any tick, the rows of a dry run on the built-in streams without a filter pass the check of the
-- dry-run profile.
pub read_dry_run-validate_dry_run :
    (iso : ℕ → String) (now_ns : ℕ) (c c' : DryRunCollector) (rows : List UdpSample)
    → c.streams ≡ demo_streams
    → c.sample_filter ≡ no_filter
    → read_dry_run now_ns c ≡ ok (rows, c')
    → validate_dry_run (printed_rows iso rows) ≡ ok tt
unfolding read_dry_run
read_dry_run-validate_dry_run iso now_ns c c' rows streams filter h =
    let (b, _, h1) = >>=-eq-ok (Models.bucket_start_ns now_ns c.bucket_ms) _ h in
    let made : rows
        ≡ keep (matches no_filter) (samples_from b c.bucket_ms (c.tick + 1) 0 demo_streams) =
      cc in
    rw made (demo_rows iso b c.bucket_ms (c.tick + 1))
