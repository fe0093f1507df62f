-- ===== src/Writers/Sql.antt =====
-- `SQLiteWriter` and `DuckDBWriter`: rows are inserted as they come; SQLite commits each batch.
use ebpf_udp_tcp_analyzer.Base.{ℕ, ◌≡◌, refl, ◌∙◌, String, List, [], ◌∷◌, ◌++◌}
use mathlib.Core.List.{append-nil, append_assoc, map-append}
use ebpf_udp_tcp_analyzer.Errors.{Result, ok, ◌>>=◌}
use ebpf_udp_tcp_analyzer.Models.{UdpSample}
use ebpf_udp_tcp_analyzer.Writers.{Writer, write_all, session}
use ebpf_udp_tcp_analyzer.Writers.Backends.{Database}
use ebpf_udp_tcp_analyzer.Writers.Values.{all_values, rows_of}

-- All batches of a run as one list.
abbrev pub concat : List (List UdpSample) → List UdpSample
concat [] = []
concat (rows ∷ batches) = rows ++ concat batches

module _ (iso : ℕ → String) (D : Database) where
  -- `SQLiteWriter.write_samples`
  unfoldable pub write_sqlite : List UdpSample → D.State → Result D.State
  unfolding all_values
  write_sqlite [] s = ok s
  write_sqlite (row ∷ rows) s = do
    values ← all_values iso (row ∷ rows)
    inserted ← D.insert_many values s
    D.commit inserted

  -- `DuckDBWriter.write_samples`
  unfoldable pub write_duckdb : List UdpSample → D.State → Result D.State
  unfolding all_values
  write_duckdb [] s = ok s
  write_duckdb (row ∷ rows) s = do values ← all_values iso (row ∷ rows); D.insert_many values s

  abbrev pub sqlite_writer : Writer
  sqlite_writer = record {
    State = D.State;
    write_samples = write_sqlite;
    flush = D.commit;
    close = D.close;
    stored = D.committed;
  }

  abbrev pub duckdb_writer : Writer
  duckdb_writer = record {
    State = D.State;
    write_samples = write_duckdb;
    flush = D.commit;
    close = D.close;
    stored = D.committed;
  }

-- A writer that appends: a batch is written with nothing left to do, and what is stored grows by
-- the rows of the batch; flushing and closing keep it. `I` is what holds between the calls.
pub record Appends (iso : ℕ → String) (W : Writer) (I : W.State → Type 0) : Type 0 where
  pub writes :
      (rows : List UdpSample) (s : W.State)
      → I s
      → (t : W.State) × (W.write_samples rows s ≡ ok t)
        × (W.stored t ≡ W.stored s ++ rows_of iso rows)
        × I t
  pub flushes :
      (s : W.State) → I s → (t : W.State) × (W.flush s ≡ ok t) × (W.stored t ≡ W.stored s) × I t
  pub closes : (s : W.State) → I s → (t : W.State) × (W.close s ≡ ok t) × (W.stored t ≡ W.stored s)

module _ (iso : ℕ → String) (W : Writer) (I : W.State → Type 0) (law : Appends iso W I) where
  pub write_all-Appends :
      (batches : List (List UdpSample)) (s : W.State)
      → I s
      → (t : W.State) × (write_all W batches s ≡ ok t)
        × (W.stored t ≡ W.stored s ++ rows_of iso (concat batches))
        × I t
  unfolding write_all
  write_all-Appends [] s i = (s, refl, rw append-nil refl, i)
  write_all-Appends (rows ∷ batches) s i =
      let (t, wrote, grown, i') = law.writes rows s i in
      let (u, rest, more, i'') = write_all-Appends batches t i' in
      (u, rw wrote rest, rw (more, grown, append_assoc, map-append) refl, i'')

  -- A session of an appending writer returns, and adds exactly the rows of its batches, in order.
  pub session-Appends :
      (batches : List (List UdpSample)) (s : W.State)
      → I s
      → (t : W.State) × (session W batches s ≡ ok t)
        × (W.stored t ≡ W.stored s ++ rows_of iso (concat batches))
  unfolding session
  session-Appends batches s i =
      let (t, wrote, grown, i') = write_all-Appends batches s i in
      let (u, flushed, kept, i'') = law.flushes t i' in
      let (v, closed, kept') = law.closes u i'' in
      (v, rw (wrote, flushed, closed) refl, kept' ∙ (kept ∙ grown))
