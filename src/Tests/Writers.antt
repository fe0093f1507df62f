-- ===== src/Tests/Writers.antt =====
-- The writers over a database, a file and a server that keep what they are given.
use ebpf_udp_tcp_analyzer.Base.{ℕ, ◌≡◌, refl, String, Option, none, some, List, [], ◌∷◌, ◌++◌}
use ebpf_udp_tcp_analyzer.Errors.{ok}
use ebpf_udp_tcp_analyzer.Models.{UdpSample, blank_sample}
use ebpf_udp_tcp_analyzer.Bpftool.Json.{Json}
use ebpf_udp_tcp_analyzer.Writers.{Row, session}
use ebpf_udp_tcp_analyzer.Writers.Values.{
  rows_of, sample_of, sample_values, sample_values-sample_of,
}
use ebpf_udp_tcp_analyzer.Writers.Backends.{
  Database, IsTransactional, Exporter, IsReplacing, Server,
}
use ebpf_udp_tcp_analyzer.Writers.Sql.{concat, sqlite_writer}
use ebpf_udp_tcp_analyzer.Writers.Refines.{session-stored}
use ebpf_udp_tcp_analyzer.Writers.Parquet.{parquet_writer, session-Exported}

abbrev pub iso : ℕ → String
iso n = "1970-01-01T00:00:06+00:00"

abbrev one : UdpSample
one = record blank_sample { dst_port = 5000; packets = 3; bytes = 300 }

abbrev two : UdpSample
two = record blank_sample { dst_port = 5001; packets = 4; bytes = 400 }

abbrev batches : List (List UdpSample)
batches = (one ∷ []) ∷ [] ∷ (two ∷ []) ∷ []

pub record Tables : Type 0 where
  pub committed_rows : List Row
  pub visible_rows : List Row

abbrev pub transactional : Database
transactional = record {
  State = Tables;
  insert_many = λ rows s. ok (record s { visible_rows = s.visible_rows ++ rows });
  commit = λ s. ok (record s { committed_rows = s.visible_rows });
  close = λ s. ok s;
  committed = λ s. s.committed_rows;
  visible = λ s. s.visible_rows;
}

pub transactional-IsTransactional : IsTransactional transactional
transactional-IsTransactional = record {
  insert = λ rows s. (_, refl, refl, refl);
  commits = λ s. (_, refl, refl, refl);
  closes = λ s. (_, refl, refl);
}

session-stored_example :
    (t : Tables) × (session
        (sqlite_writer iso transactional)
        batches
        (record { committed_rows = []; visible_rows = [] })
      ≡ ok t)
    × (t.committed_rows ≡ rows_of iso (concat batches))
session-stored_example =
    (session-stored iso transactional batches (record { committed_rows = []; visible_rows = [] })).0
      transactional-IsTransactional refl

abbrev rows_in : Option (List Row) → List Row
rows_in none = []
rows_in (some rows) = rows

abbrev kept_file : Exporter
kept_file = record { File = List Row; export = λ rows f. ok (some rows); contents = rows_in }

kept_file-IsReplacing : IsReplacing kept_file
kept_file-IsReplacing = record { exports = λ rows f. (_, refl, refl) }

session-Exported_example :
    (after : Option (List Row)) × (session
        (parquet_writer iso kept_file)
        batches
        (record { rows = []; file = none })
      ≡ ok (record { rows = concat batches; file = after }))
    × (kept_file.contents after ≡ rows_of iso (concat batches))
session-Exported_example = session-Exported iso kept_file kept_file-IsReplacing batches none

abbrev server : Server
server = record { State = List String; post = λ body s. ok (200, body ∷ s) }

sample_values-sample_of_example :
    (row : List Json) × (sample_values iso one ≡ ok row) × (sample_of row ≡ some one)
sample_values-sample_of_example = sample_values-sample_of iso one
