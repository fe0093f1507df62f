-- ===== src/Harness.antt =====
-- src/harness/assert_output.py: the checks of the analyzer's JSON output. A row is what `json.loads`
-- makes of a line; a row that is no dictionary is a type error. `SystemExit` is `system_exit`.
pub mod Accepts
use ebpf_udp_tcp_analyzer.Base.{
  ℕ, Bool, true, false, not, ◌&&◌, ◌||◌, String, Option, none, some, List, [], ◌∷◌, ◌==◌, nat_eq,
  string_eq, ltb, if◌then◌else◌,
}
use ebpf_udp_tcp_analyzer.Base.Dict.{is_some}
use ebpf_udp_tcp_analyzer.Errors.{
  Result, ok, err, type_error, key_error, system_exit, require, ◌>>=◌, ◌>>◌, guard,
}
use ebpf_udp_tcp_analyzer.Bpftool.Json.{Json, num, str, bool, obj, Fields, find}

abbrev pub required_fields : List String
required_fields =
    "ts" ∷ "bucket_ms" ∷ "src_ip" ∷ "dst_ip" ∷ "src_port" ∷ "dst_port" ∷ "ifindex" ∷ "ifname"
    ∷ "packets" ∷ "bytes" ∷ "layer" ∷ []

abbrev pub integer_fields : List String
integer_fields = "src_port" ∷ "dst_port" ∷ "ifindex" ∷ "packets" ∷ "bytes" ∷ []

-- `not REQUIRED_FIELDS.difference(row)`
unfoldable pub has_all : List String → Fields → Bool
has_all [] fs = true
has_all (k ∷ ks) fs = is_some (find k fs) && has_all ks fs

-- `isinstance(v, int)`; a bool is an int.
abbrev pub is_int : Json → Bool
is_int (num n) = true
is_int (bool b) = true
is_int _ = false

unfoldable pub has_ints : List String → Fields → Result (Unit {0})
has_ints [] fs = ok tt
has_ints (k ∷ ks) fs = do
  v ← require (find k fs) key_error
  guard (is_int v) system_exit
  has_ints ks fs

abbrev pub is_layer : Json → Bool
is_layer (str s) = (s == "ingress") || (s == "delivered")
is_layer _ = false

-- The tests of one row. Counters are naturals here, so none is negative.
unfoldable pub validate_row : Json → Result (Unit {0})
unfolding has_all has_ints
validate_row (obj fs) = do
  guard (has_all required_fields fs) system_exit
  has_ints integer_fields fs
  layer ← require (find "layer" fs) key_error
  guard (is_layer layer) system_exit
validate_row _ = err type_error

unfoldable pub validate_each : List Json → Result (Unit {0})
unfolding validate_row
validate_each [] = ok tt
validate_each (row ∷ rows) = do validate_row row; validate_each rows

abbrev pub no_rows : List Json → Bool
no_rows [] = true
no_rows (row ∷ rows) = false

unfoldable pub validate_rows : List Json → Bool → Result (Unit {0})
unfolding validate_each
validate_rows rows allow_empty = do
  guard (not (no_rows rows && not allow_empty)) system_exit
  validate_each rows

-- `row[k]`
unfoldable pub item : String → Json → Result Json
item k (obj fs) = require (find k fs) key_error
item k _ = err type_error

abbrev pub is_text : String → Json → Bool
is_text wanted (str s) = s == wanted
is_text wanted _ = false

-- `v > 0`
abbrev pub is_positive : Json → Result Bool
is_positive (num n) = ok (ltb 0 n)
is_positive (bool b) = ok b
is_positive _ = err type_error

-- `any(row["layer"] == "ingress" for row in rows)`
unfoldable pub any_ingress : List Json → Result Bool
unfolding item
any_ingress [] = ok false
any_ingress (row ∷ rows) = do
  layer ← item "layer" row
  if is_text "ingress" layer then ok true else any_ingress rows

-- `any(row["packets"] > 0 for row in rows)`
unfoldable pub any_packets : List Json → Result Bool
unfolding item
any_packets [] = ok false
any_packets (row ∷ rows) = do
  packets ← item "packets" row
  positive ← is_positive packets
  if positive then ok true else any_packets rows

unfoldable pub validate_ebpf : List Json → Bool → Result (Unit {0})
unfolding any_ingress any_packets
validate_ebpf rows allow_empty = if allow_empty && no_rows rows then ok tt else do
  ingress ← any_ingress rows
  guard ingress system_exit
  packets ← any_packets rows
  guard packets system_exit

-- `v == n`
abbrev pub is_num : ℕ → Json → Bool
is_num wanted (num n) = n == wanted
is_num wanted _ = false

-- The tuple of a row in `present`.
pub record Present : Type 0 where
  pub src_ip : Json
  pub dst_port : Json
  pub layer : Json
  pub process_name : Json

-- `row.get("process_name", "")`
abbrev pub or_empty_text : Option Json → Json
or_empty_text none = str ""
or_empty_text (some v) = v

unfoldable pub present_of : Json → Result Present
present_of (obj fs) = do
  src_ip ← require (find "src_ip" fs) key_error
  dst_port ← require (find "dst_port" fs) key_error
  layer ← require (find "layer" fs) key_error
  ok (record {
    src_ip = src_ip;
    dst_port = dst_port;
    layer = layer;
    process_name = or_empty_text (find "process_name" fs);
  })
present_of _ = err type_error

unfoldable pub all_present : List Json → Result (List Present)
unfolding present_of
all_present [] = ok []
all_present (row ∷ rows) = do p ← present_of row; ps ← all_present rows; ok (p ∷ ps)

-- `(src_ip, dst_port, layer, process_name) in present`
unfoldable pub is_present : String → ℕ → String → String → List Present → Bool
is_present src_ip dst_port layer process_name [] = false
is_present src_ip dst_port layer process_name (p ∷ ps) =
    (is_text src_ip p.src_ip
      && is_num dst_port p.dst_port
      && is_text layer p.layer
      && is_text process_name p.process_name)
    || is_present src_ip dst_port layer process_name ps

-- `validate_dry_run`, with the three expected rows.
unfoldable pub validate_dry_run : List Json → Result (Unit {0})
unfolding all_present is_present
validate_dry_run rows = do
  present ← all_present rows
  guard
      (is_present "192.0.2.10" 5000 "delivered" "ffmpeg" present
        && is_present "192.0.2.11" 5001 "delivered" "ffmpeg" present
        && is_present "192.0.2.12" 5999 "ingress" "" present)
      system_exit
