-- ===== src/Loaders/Status.antt =====
-- The line of JSON in which a loader reports the map it has made. Whatever is wrong with the line
-- is raised as a RuntimeError.
use ebpf_udp_tcp_analyzer.Base.{
  ℕ, Bool, ◌||◌, String, Option, none, some, ◌==◌, nat_eq, string_eq, if◌then◌else◌,
}
use ebpf_udp_tcp_analyzer.Errors.{Result, ok, err, runtime_error, type_error, key_error, ◌>>=◌}
use ebpf_udp_tcp_analyzer.Bpftool.Json.{Json, str, obj, find, int_field}

-- `int(raw["map_id"])`
unfoldable pub map_id_of : Json → Result ℕ
unfolding int_field
map_id_of (obj fs) = int_field "map_id" fs
map_id_of _ = err type_error

-- `map_id <= 0` after whatever came before; an id is never negative here.
unfoldable pub positive_id : Result ℕ → Result ℕ
positive_id (err e) = err runtime_error
positive_id (ok map_id) = if map_id == 0 then err runtime_error else ok map_id

-- `parse_tcp_channel_loader_status`, on the result of `json.loads(line)`.
unfoldable pub parse_loader_status : Result Json → Result ℕ
unfolding positive_id map_id_of
parse_loader_status loaded = positive_id (loaded >>= map_id_of)

pub record ReceiveStatus : Type 0 where
  pub backend : String
  pub map_id : ℕ

-- `str(raw["backend"])`, `none` for the text of a value that is not a string, which is no backend.
unfoldable pub backend_of : Json → Result (Option String)
backend_of (obj fs) = elim (find "backend" fs) [
  | none ↦ err key_error
  | some v ↦ ok (elim v [ str b ↦ some b | _ ↦ none ])
]
backend_of _ = err type_error

abbrev pub is_backend : String → Bool
is_backend b = (b == "fentry") || (b == "kprobe")

unfoldable pub checked_status : Option String → ℕ → Result ReceiveStatus
checked_status none map_id = err runtime_error
checked_status (some b) map_id =
    if is_backend b
    then (if map_id == 0 then err runtime_error else ok (record { backend = b; map_id = map_id }))
    else err runtime_error

abbrev pub as_runtime_error {ℓ} : {A : Type ℓ} → Result A → Result A
as_runtime_error (err e) = err runtime_error
as_runtime_error (ok a) = ok a

-- `parse_receive_loader_status`
unfoldable pub parse_receive_loader_status : Result Json → Result ReceiveStatus
unfolding backend_of map_id_of checked_status
parse_receive_loader_status loaded = as_runtime_error (do
  raw ← loaded
  backend ← backend_of raw
  map_id ← map_id_of raw
  checked_status backend map_id)
