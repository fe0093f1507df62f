-- ===== src/Writers/Backends.antt =====
-- What the writers assume of the packages that they call: `sqlite3` and `duckdb` connections, the
-- export of an in-memory table to a Parquet file, and the HTTP interface of ClickHouse.
use ebpf_udp_tcp_analyzer.Base.{ℕ, ◌≡◌, String, Option, List, ◌++◌}
use ebpf_udp_tcp_analyzer.Errors.{Result, ok}
use ebpf_udp_tcp_analyzer.Writers.{Row}

-- A connection to a database with the table `udp_samples`.
pub record Database : Type 1 where
  pub State : Type 0
  -- `executemany("INSERT …", rows)`
  pub insert_many : List Row → State → Result State
  pub commit : State → Result State
  pub close : State → Result State
  -- what another connection sees, and what this one sees
  pub committed : State → List Row
  pub visible : State → List Row

-- A statement opens a transaction, as with `sqlite3`, and `commit` makes it durable.
pub record IsTransactional (D : Database) : Type 0 where
  pub insert :
      (rows : List Row) (s : D.State)
      → (t : D.State) × (D.insert_many rows s ≡ ok t)
        × (D.visible t ≡ D.visible s ++ rows)
        × (D.committed t ≡ D.committed s)
  pub commits :
      (s : D.State)
      → (t : D.State) × (D.commit s ≡ ok t)
        × (D.visible t ≡ D.visible s)
        × (D.committed t ≡ D.visible s)
  pub closes : (s : D.State) → (t : D.State) × (D.close s ≡ ok t) × (D.committed t ≡ D.committed s)

-- Every statement commits itself, as with `duckdb`, and a `commit` with nothing open is harmless.
pub record IsAutocommitting (D : Database) : Type 0 where
  pub insert :
      (rows : List Row) (s : D.State)
      → (t : D.State) × (D.insert_many rows s ≡ ok t) × (D.committed t ≡ D.committed s ++ rows)
  pub commits :
      (s : D.State) → (t : D.State) × (D.commit s ≡ ok t) × (D.committed t ≡ D.committed s)
  pub closes : (s : D.State) → (t : D.State) × (D.close s ≡ ok t) × (D.committed t ≡ D.committed s)

-- `CREATE TABLE`, `executemany` and `COPY … TO path` over a connection of its own: the file that
-- stands at the path before and after.
pub record Exporter : Type 1 where
  pub File : Type 0
  pub export : List Row → Option File → Result (Option File)
  pub contents : Option File → List Row

-- `COPY` replaces the file.
pub record IsReplacing (X : Exporter) : Type 0 where
  pub exports :
      (rows : List Row) (f : Option X.File)
      → (g : Option X.File) × (X.export rows f ≡ ok g) × (X.contents g ≡ rows)

-- A server that takes the body of a POST request, and answers with a status.
pub record Server : Type 1 where
  pub State : Type 0
  pub post : String → State → Result (ℕ × State)
