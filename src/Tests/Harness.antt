-- ===== src/Tests/Harness.antt =====
-- The harness on the output of a checkpoint and of a dry run.
use ebpf_udp_tcp_analyzer.Base.{
  ℕ, ◌≡◌, ◌&&◌, ◌==◌, string_eq, refl, not, false, String, [], ◌∷◌, ltb,
}
use ebpf_udp_tcp_analyzer.Errors.{ok, system_exit, guard}
use ebpf_udp_tcp_analyzer.Harness.{validate_rows, validate_ebpf, validate_dry_run, no_rows}
use ebpf_udp_tcp_analyzer.Harness.Accepts.{
  printed_rows, some_row, validate_ebpf-printed_rows, read_checkpoint-validate_rows,
  read_dry_run-validate_dry_run,
}
use ebpf_udp_tcp_analyzer.Tests.Ingress.{second_world, seeded, reported, row, entries_are_summed}
use ebpf_udp_tcp_analyzer.Tests.Enrichment.{dry, dry_rows, dry_run_rows}

abbrev iso : ℕ → String
iso n = "1970-01-01T00:00:06+00:00"

validate_ebpf-printed_rows_example :
    (validate_ebpf (printed_rows iso []) false ≡ guard false system_exit)
    × (validate_ebpf (printed_rows iso (row ∷ [])) false
        ≡ guard
            (some_row iso (λ s. s.layer == "ingress") (row ∷ [])
              && some_row iso (λ s. ltb 0 s.packets) (row ∷ []))
            system_exit)
validate_ebpf-printed_rows_example = validate_ebpf-printed_rows iso row [] false

read_checkpoint-validate_rows_example :
    validate_rows (printed_rows iso (row ∷ [])) false
    ≡ guard (not (no_rows (printed_rows iso (row ∷ [])) && not false)) system_exit
read_checkpoint-validate_rows_example =
    read_checkpoint-validate_rows iso second_world seeded reported (row ∷ []) false
      entries_are_summed

read_dry_run-validate_dry_run_example : validate_dry_run (printed_rows iso dry_rows) ≡ ok tt
read_dry_run-validate_dry_run_example =
    read_dry_run-validate_dry_run iso 1_500_000_000 dry (record dry { tick = 1 }) dry_rows refl refl
      dry_run_rows
