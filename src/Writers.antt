-- ===== src/Writers.antt =====
-- src/udp_analyzer/writers.py. The databases, the export to Parquet and the HTTP server are
-- parameters (Writers.Backends); what a stored row holds is `sample_values`.
pub mod Values
pub mod Backends
pub mod Sql
pub mod Refines
pub mod Parquet
pub mod ClickHouse
use ebpf_udp_tcp_analyzer.Base.{List, [], ◌∷◌, ◌++◌}
use ebpf_udp_tcp_analyzer.Errors.{Result, ok, ◌>>=◌}
use ebpf_udp_tcp_analyzer.Models.{UdpSample}
use ebpf_udp_tcp_analyzer.Bpftool.Json.{Json}

-- The values of the columns of a row.
abbrev pub Row : Type 0
Row = List Json

-- `SampleWriter`, and the rows that a reader of the storage finds.
pub record Writer : Type 1 where
  pub State : Type 0
  pub write_samples : List UdpSample → State → Result State
  pub flush : State → Result State
  pub close : State → Result State
  pub stored : State → List Row

-- `NullWriter` keeps nothing.
abbrev pub null_writer : Writer
null_writer = record {
  State = Unit {0};
  write_samples = λ rows s. ok s;
  flush = λ s. ok s;
  close = λ s. ok s;
  stored = λ s. [];
}

-- The batches of a run.
unfoldable pub write_all : (W : Writer) → List (List UdpSample) → W.State → Result W.State
write_all W [] s = ok s
write_all W (rows ∷ batches) s = do s' ← W.write_samples rows s; write_all W batches s'

-- The batches, and then `flush` and `close`, as at the end of `run_analyzer`.
unfoldable pub session : (W : Writer) → List (List UdpSample) → W.State → Result W.State
unfolding write_all
session W batches s = do written ← write_all W batches s; flushed ← W.flush written; W.close flushed
