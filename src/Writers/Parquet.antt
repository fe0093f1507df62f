-- ===== src/Writers/Parquet.antt =====
-- `ParquetWriter`: rows are kept in memory, and each flush writes all of them to the file.
use ebpf_udp_tcp_analyzer.Base.{ℕ, ◌≡◌, refl, ◌∙◌, String, Option, List, [], ◌∷◌, ◌++◌}
use mathlib.Core.List.{append-nil, append_assoc}
use ebpf_udp_tcp_analyzer.Errors.{Result, ok, ◌>>=◌}
use ebpf_udp_tcp_analyzer.Models.{UdpSample}
use ebpf_udp_tcp_analyzer.Writers.{Writer, write_all, session}
use ebpf_udp_tcp_analyzer.Writers.Backends.{Exporter, IsReplacing}
use ebpf_udp_tcp_analyzer.Writers.Values.{all_values, all_values-rows_of, rows_of}
use ebpf_udp_tcp_analyzer.Writers.Sql.{concat}

module _ (iso : ℕ → String) (X : Exporter) where
  -- The writer's rows, and the file at its path.
  pub record Parquet : Type 0 where
    pub rows : List UdpSample
    pub file : Option X.File

  unfoldable pub write_parquet : List UdpSample → Parquet → Result Parquet
  write_parquet new s = ok (record s { rows = s.rows ++ new })

  -- `flush`, by the rows there are.
  unfoldable pub flush_rows : List UdpSample → Parquet → Result Parquet
  unfolding all_values
  flush_rows [] s = ok s
  flush_rows (row ∷ rows) s = do
    values ← all_values iso (row ∷ rows)
    file ← X.export values s.file
    ok (record s { file = file })

  unfoldable pub flush_parquet : Parquet → Result Parquet
  unfolding flush_rows
  flush_parquet s = flush_rows s.rows s

  abbrev pub parquet_writer : Writer
  parquet_writer = record {
    State = Parquet;
    write_samples = write_parquet;
    flush = flush_parquet;
    close = flush_parquet;
    stored = λ s. X.contents s.file;
  }

  write_all-parquet :
      (batches : List (List UdpSample)) (s : Parquet)
      → write_all parquet_writer batches s ≡ ok (record s { rows = s.rows ++ concat batches })
  unfolding write_all write_parquet
  write_all-parquet [] s = rw append-nil refl
  write_all-parquet (rows ∷ batches) s =
      write_all-parquet batches (record s { rows = s.rows ++ rows }) ∙ rw append_assoc refl

  -- What a flush leaves in the file.
  abbrev Exported : List UdpSample → Option X.File → Option X.File → Type 0
  Exported [] before after = after ≡ before
  Exported (row ∷ rows) before after = X.contents after ≡ rows_of iso (row ∷ rows)

  flush_rows-Exported :
      (law : IsReplacing X) (rows : List UdpSample) (s : Parquet)
      → (f : Option X.File) × (flush_rows rows s ≡ ok (record s { file = f }))
        × Exported rows s.file f
  unfolding flush_rows
  flush_rows-Exported law [] s = (s.file, refl, refl)
  flush_rows-Exported law (row ∷ rows) s =
      let (f, exported, holds) = law.exports (rows_of iso (row ∷ rows)) s.file in
      (f, rw (all_values-rows_of iso (row ∷ rows), exported) refl, holds)

  Exported-twice :
      (rows : List UdpSample) (a b c : Option X.File)
      → Exported rows a b
      → Exported rows b c
      → Exported rows a c
  Exported-twice [] a b c h g = g ∙ h
  Exported-twice (row ∷ rows) a b c h g = g

  -- Where an export replaces the file, a session of the Parquet writer, opened with no rows, returns,
  -- and leaves a file with exactly the rows of its batches, in order, whatever the file held before;
  -- if the batches have no rows, the file is left as it was.
  pub session-Exported :
      (law : IsReplacing X) (batches : List (List UdpSample)) (before : Option X.File)
      → (after : Option X.File) × (session parquet_writer batches
            (record { rows = []; file = before })
          ≡ ok (record { rows = concat batches; file = after }))
        × Exported (concat batches) before after
  unfolding session flush_parquet
  session-Exported law batches before =
      let rows = concat batches in
      let (f, flushed, first) =
        flush_rows-Exported law rows (record { rows = rows; file = before }) in
      let (g, closed, second) = flush_rows-Exported law rows (record { rows = rows; file = f }) in
      (
        g,
        rw (write_all-parquet batches (record { rows = []; file = before }), flushed, closed) refl,
        Exported-twice rows before f g first second,
      )
