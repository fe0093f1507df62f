-- ===== src/Tests/Cli.antt =====
-- The loop and the command, on the collector and the database of the other tests.
use ebpf_udp_tcp_analyzer.Base.{
  ℕ, zero, suc, ◌+◌, ◌*◌, ◌≡◌, refl, true, false, Option, none, some, List, [], ◌∷◌, arith, ◌++◌,
  ap,
}
use mathlib.Core.List.{append-nil}
use ebpf_udp_tcp_analyzer.Base.Int.{pos}
use ebpf_udp_tcp_analyzer.Errors.{Result, ok}
use ebpf_udp_tcp_analyzer.Models.{UdpSample, no_filter}
use ebpf_udp_tcp_analyzer.Ingress.Wire.{UdpMapEntry}
use ebpf_udp_tcp_analyzer.Collector.{World, Collector, read_checkpoint}
use ebpf_udp_tcp_analyzer.Collector.Growth.{Continues}
use ebpf_udp_tcp_analyzer.Writers.Values.{rows_of}
use ebpf_udp_tcp_analyzer.Writers.Sql.{sqlite_writer, write_sqlite}
use ebpf_udp_tcp_analyzer.Writers.Refines.{IsSettled, sqlite_writer-Appends}
use ebpf_udp_tcp_analyzer.Cli.Loop.{Pass, pass_body, loop}
use ebpf_udp_tcp_analyzer.Cli.Ends.{IsPaced, loop_returns}
use ebpf_udp_tcp_analyzer.Cli.Command.{Final, run_analyzer}
use ebpf_udp_tcp_analyzer.Cli.Choices.{Args, EbpfSettings}
use ebpf_udp_tcp_analyzer.Cli.Fed.{IsFed}
use ebpf_udp_tcp_analyzer.Cli.Storage.{closing_of, IsCuttable, Stored, run_analyzer-Stored}
use ebpf_udp_tcp_analyzer.Tests.Writers.{iso, Tables, transactional, transactional-IsTransactional}
use ebpf_udp_tcp_analyzer.Tests.Ingress.{
  second_world, seeded, reported, row, first_dump, second_dump, second_dump_parses, seeded-IsPlain,
  seeded-IsBaselined, dumps-Continues, reader,
}

abbrev passes : ℕ → Pass World UdpSample Tables
passes n = record {
  world = second_world;
  is_stopped = false;
  emitted = ok tt;
  cut = none;
  now = 5000 + n * 1000;
  slept = ok tt;
}

passes-IsPaced : IsPaced 1000 5000 passes
passes-IsPaced = record { starts = omega arith; sleeps = λ n. omega arith }

abbrev empty : Tables
empty = record { committed_rows = []; visible_rows = [] }

abbrev write : List UdpSample → Tables → Result Tables
write = write_sqlite iso transactional

loop_returns_example :
    (loop read_checkpoint write false none passes 1 0 seeded empty
      ≡ some (pass_body read_checkpoint write (passes 0) seeded empty))
    × ((out : Result (Unit {0}) × Collector × Tables) × (loop read_checkpoint write true
            (some 8000)
            passes
            4
            0
            seeded
            empty
          ≡ some out))
    × ((deadline : Option ℕ) (j : ℕ)
        → (passes j).is_stopped ≡ true
        → (out : Result (Unit {0}) × Collector × Tables) × (loop read_checkpoint write true deadline
              passes
              (suc j)
              0
              seeded
              empty
            ≡ some out))
loop_returns_example =
    loop_returns read_checkpoint write passes seeded empty 1000 5000 3000 3 passes-IsPaced
      (omega arith)

abbrev dumps : ℕ → List UdpMapEntry
dumps zero = first_dump
dumps (suc n) = second_dump

dumps-rise : (n : ℕ) → Continues (dumps n) (dumps (suc n))
dumps-rise zero = dumps-Continues
dumps-rise (suc n) = record {
  packets = record { same = λ k. ground arith; rises = λ k. ground arith };
  bytes = record { same = λ k. ground arith; rises = λ k. ground arith };
}

-- A signal after the rows have been inserted, and before they are committed.
abbrev uncommitted : List UdpSample → Tables → Tables
uncommitted rows s = record s { visible_rows = s.visible_rows ++ rows_of iso rows }

abbrev cut_passes : ℕ → Pass World UdpSample Tables
cut_passes n = record (passes n) { cut = some uncommitted }

cut-IsFed : IsFed cut_passes dumps
cut-IsFed = record {
  parses = λ n c c' rows h. second_dump_parses;
  rises = λ n c c' rows h. dumps-rise n;
}

same_cut :
    (leave : List UdpSample → Tables → Tables) → some uncommitted ≡ some leave → uncommitted ≡ leave
same_cut leave h = cc

cut-IsCuttable :
    IsCuttable iso
      (sqlite_writer iso transactional)
      (IsSettled iso transactional)
      (sqlite_writer-Appends iso transactional transactional-IsTransactional)
      cut_passes
cut-IsCuttable = record {
  leaves = λ n leave rows s h i. rw (← same_cut leave h) ([], rows, refl, rw append-nil refl);
  closes = λ n leave rows s h i. rw (← same_cut leave h) (
    record s {
      committed_rows = s.visible_rows ++ rows_of iso rows;
      visible_rows = s.visible_rows ++ rows_of iso rows;
    },
    record s {
      committed_rows = s.visible_rows ++ rows_of iso rows;
      visible_rows = s.visible_rows ++ rows_of iso rows;
    },
    refl,
    refl,
    (rows, [], rw append-nil refl, ap (λ v. v ++ rows_of iso rows) i),
  );
}

abbrev stored_row : Tables
stored_row = record {
  committed_rows = rows_of iso (row ∷ []);
  visible_rows = rows_of iso (row ∷ []);
}

abbrev final : Final Collector Tables
final = record {
  outcome = ok tt;
  collector = some reported;
  is_closed = true;
  writer = some stored_row;
}

-- What the signal has cut short is stored by the last flush.
cut_short :
    run_analyzer
      (closing_of (sqlite_writer iso transactional) (λ c. ok c))
      read_checkpoint
      write
      false
      none
      5000
      cut_passes
      1
      (ok seeded)
      (ok empty)
    ≡ some final
unfolding reader run_analyzer write_sqlite
cut_short = refl

run_analyzer-Stored_example :
    Stored iso
      (sqlite_writer iso transactional)
      (IsSettled iso transactional)
      (sqlite_writer-Appends iso transactional transactional-IsTransactional)
      false
      none
      cut_passes
      dumps
      seeded
      empty
      final
run_analyzer-Stored_example =
    run_analyzer-Stored iso (sqlite_writer iso transactional) (IsSettled iso transactional)
      (sqlite_writer-Appends iso transactional transactional-IsTransactional) (λ c. ok c) false none
      5000 cut_passes 1 dumps seeded empty final seeded-IsPlain seeded-IsBaselined cut-IsFed
      cut-IsCuttable refl cut_short

abbrev args : Args
args = record {
  collector = "ebpf";
  bucket_ms = pos 1000;
  src_ip = none;
  dst_ip = none;
  src_port = none;
  dst_port = none;
  ifname = none;
  process_name = some "ffmpeg";
  layer = none;
  delivery_attribution = none;
  enrich_processes = false;
  interface = some "eth0";
  no_attach = false;
  keep_attached = false;
  receive_map_id = none;
  storage = "none";
}

-- A process name asks for enrichment, and so for attribution.
abbrev settings : EbpfSettings
settings = record {
  bucket_ms = 1000;
  sample_filter = no_filter;
  ifname = some "eth0";
  attach = true;
  detach_on_close = true;
  process_enricher = some (some "ffmpeg");
  delivery_attribution = "auto";
  receive_map_id = none;
}
