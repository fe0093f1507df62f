-- ===== src/Writers/Refines.antt =====
-- `SQLiteWriter` and `DuckDBWriter` append.
use ebpf_udp_tcp_analyzer.Base.{ℕ, ◌≡◌, refl, ◌∙◌, ap, sym, String, List, [], ◌∷◌, ◌++◌}
use mathlib.Core.List.{append-nil}
use ebpf_udp_tcp_analyzer.Errors.{ok}
use ebpf_udp_tcp_analyzer.Models.{UdpSample}
use ebpf_udp_tcp_analyzer.Writers.{session}
use ebpf_udp_tcp_analyzer.Writers.Backends.{Database, IsTransactional, IsAutocommitting}
use ebpf_udp_tcp_analyzer.Writers.Values.{all_values-rows_of, rows_of}
use ebpf_udp_tcp_analyzer.Writers.Sql.{
  concat, write_sqlite, write_duckdb, sqlite_writer, duckdb_writer, Appends, session-Appends,
}

module _ (iso : ℕ → String) (D : Database) where
  -- Nothing waits for a commit.
  abbrev pub IsSettled : D.State → Type 0
  IsSettled s = D.visible s ≡ D.committed s

  write_sqlite-IsSettled :
      (law : IsTransactional D) (rows : List UdpSample) (s : D.State)
      → IsSettled s
      → (t : D.State) × (write_sqlite iso D rows s ≡ ok t)
        × (D.committed t ≡ D.committed s ++ rows_of iso rows)
        × IsSettled t
  unfolding write_sqlite
  write_sqlite-IsSettled law [] s i = (s, refl, rw append-nil refl, i)
  write_sqlite-IsSettled law (row ∷ rows) s i =
      let (t, inserted, seen, _) = law.insert (rows_of iso (row ∷ rows)) s in
      let (u, done, kept, durable) = law.commits t in
      (
        u,
        rw (all_values-rows_of iso (row ∷ rows), inserted, done) refl,
        durable ∙ (seen ∙ ap (λ v. v ++ rows_of iso (row ∷ rows)) i),
        kept ∙ sym durable,
      )

  pub sqlite_writer-Appends : IsTransactional D → Appends iso (sqlite_writer iso D) IsSettled
  sqlite_writer-Appends law = record {
    writes = write_sqlite-IsSettled law;
    flushes = λ s i.
        (let (t, done, kept, durable) = law.commits s in
          (t, done, durable ∙ i, kept ∙ sym durable));
    closes = λ s i. law.closes s;
  }

  write_duckdb-Appends :
      (law : IsAutocommitting D) (rows : List UdpSample) (s : D.State)
      → Unit {0}
      → (t : D.State) × (write_duckdb iso D rows s ≡ ok t)
        × (D.committed t ≡ D.committed s ++ rows_of iso rows)
        × Unit {0}
  unfolding write_duckdb
  write_duckdb-Appends law [] s i = (s, refl, rw append-nil refl, tt)
  write_duckdb-Appends law (row ∷ rows) s i =
      let (t, inserted, grown) = law.insert (rows_of iso (row ∷ rows)) s in
      (t, rw (all_values-rows_of iso (row ∷ rows), inserted) refl, grown, tt)

  duckdb_writer-Appends : IsAutocommitting D → Appends iso (duckdb_writer iso D) (λ s. Unit {0})
  duckdb_writer-Appends law = record {
    writes = write_duckdb-Appends law;
    flushes = λ s i. (let (t, done, kept) = law.commits s in (t, done, kept, tt));
    closes = λ s i. law.closes s;
  }

  -- Over a transactional database with nothing pending, a session of the SQLite writer returns, and
  -- the committed table has grown by the rows of all its batches, in order; so it is for the DuckDB
  -- writer over a database whose statements commit themselves.
  pub session-stored :
      (batches : List (List UdpSample)) (s : D.State)
      → (IsTransactional D
          → IsSettled s
          → (t : D.State) × (session (sqlite_writer iso D) batches s ≡ ok t)
            × (D.committed t ≡ D.committed s ++ rows_of iso (concat batches)))
        × (IsAutocommitting D
            → (t : D.State) × (session (duckdb_writer iso D) batches s ≡ ok t)
              × (D.committed t ≡ D.committed s ++ rows_of iso (concat batches)))
  session-stored batches s = (
    λ law i.
        session-Appends iso (sqlite_writer iso D) IsSettled (sqlite_writer-Appends law) batches s i,
    λ law.
        session-Appends iso (duckdb_writer iso D) (λ s. Unit {0}) (duckdb_writer-Appends law)
          batches s tt,
  )
