-- ===== src/Bpftool/Select.antt =====
-- Finding the map of the ingress program (src/udp_analyzer/ebpf.py
-- `BpftoolMapReader.refresh_map_id`).
use Prim.Native.String.{[], ◌∷◌}
use ebpf_udp_tcp_analyzer.Base.{
  ℕ, ◌-◌, Bool, true, false, not, ◌&&◌, String, none, some, List, [], ◌∷◌, ◌==◌, nat_eq, string_eq,
  leb, if◌then◌else◌,
}
use ebpf_udp_tcp_analyzer.Base.Dict.{Dict, get, put}
use ebpf_udp_tcp_analyzer.Errors.{
  Result, ok, err, runtime_error, type_error, attribute_error, ◌>>=◌,
}
use ebpf_udp_tcp_analyzer.Bpftool.Json.{
  Json, null, bool, num, str, arr, obj, nil, cons, Fields, end, field, find, get_field, iterate,
  int_of, int_field_or_zero,
}

-- The truth value of a JSON value.
unfoldable pub truthy : Json → Bool
truthy null = false
truthy (bool b) = b
truthy (num n) = not (n == 0)
truthy (str s) = not (s == "")
truthy (arr nil) = false
truthy (arr (cons x xs)) = true
truthy (obj end) = false
truthy (obj (field k v fs)) = true

unfoldable pub is_text : String → Json → Bool
is_text wanted (str s) = s == wanted
is_text wanted _ = false

-- `[program for program in programs if …]`
unfoldable pub candidates : String → List Json → Result (List Json)
unfolding truthy is_text get_field
candidates program_name [] = ok []
candidates program_name (program ∷ programs) = do
  name ← get_field "name" program
  map_ids ← get_field "map_ids" program
  rest ← candidates program_name programs
  ok (if is_text program_name name && truthy map_ids then program ∷ rest else rest)

-- `int(item.get("id", 0))`
unfoldable pub program_id : Json → Result ℕ
unfolding int_field_or_zero
program_id (obj fs) = int_field_or_zero "id" fs
program_id _ = err attribute_error

-- The last of the programs with the greatest id, going on from one found before.
unfoldable pub newest_from : Json → ℕ → List Json → Result Json
unfolding program_id
newest_from best id [] = ok best
newest_from best id (program ∷ programs) = do
  id' ← program_id program
  if leb id id' then newest_from program id' programs else newest_from best id programs

-- `sorted(candidates, key=…)[-1]`: the sort is stable.
unfoldable pub newest : List Json → Result Json
unfolding newest_from
newest [] = err runtime_error
newest (program ∷ programs) = do id ← program_id program; newest_from program id programs

unfoldable pub ints_of : List Json → Result (List ℕ)
unfolding int_of
ints_of [] = ok []
ints_of (v ∷ vs) = do n ← int_of v; rest ← ints_of vs; ok (n ∷ rest)

-- `s[:n]`
unfoldable pub prefix : ℕ → String → String
prefix n String.[] = String.[]
prefix n (String.◌∷◌ c s) = if n == 0 then String.[] else String.◌∷◌ c (prefix (n - 1) s)

-- `wanted`: the kernel cuts the names of maps at 15 characters.
abbrev pub cut_name : String → String
cut_name map_name = prefix 15 map_name

-- `str(m.get("name", ""))`; `str` of a value that is no string is a parameter.
unfoldable pub name_of : (Json → String) → Fields → String
name_of to_text fs = elim (find "name" fs) [ none ↦ "" | some v ↦ to_text v ]

-- `names`, for maps that are dictionaries.
unfoldable pub names_from : (Json → String) → Dict ℕ String → List Json → Result (Dict ℕ String)
unfolding name_of int_of
names_from to_text names [] = ok names
names_from to_text names (obj fs ∷ maps) = elim (find "id" fs) [
  | none ↦ names_from to_text names maps
  | some v ↦ do id ← int_of v; names_from to_text (put id (name_of to_text fs) names) maps
]
names_from to_text names (_ ∷ maps) = err type_error

-- `run_json(…) or []`
unfoldable pub or_empty : Json → Result (List Json)
unfolding iterate truthy
or_empty v = if truthy v then iterate v else ok []

-- `names.get(map_id, "")`
abbrev pub name_in : Dict ℕ String → ℕ → String
name_in names map_id = elim (get map_id names) [ none ↦ "" | some name ↦ name ]

-- The first of the program's maps with the wanted name.
unfoldable pub first_named : Dict ℕ String → String → List ℕ → Result ℕ
first_named names wanted [] = err runtime_error
first_named names wanted (map_id ∷ map_ids) =
    if name_in names map_id == wanted then ok map_id else first_named names wanted map_ids

-- `refresh_map_id`, on what the two commands give.
unfoldable pub refresh_map_id :
    (Json → String) → String → String → Result Json → Result Json → Result ℕ
unfolding candidates newest ints_of names_from or_empty first_named
refresh_map_id to_text program_name map_name prog_show map_show = do
  programs ← prog_show
  programs' ← iterate programs
  found ← candidates program_name programs'
  program ← newest found
  raw_ids ← get_field "map_ids" program
  raw_ids' ← iterate raw_ids
  map_ids ← ints_of raw_ids'
  maps ← map_show
  maps' ← or_empty maps
  names ← names_from to_text [] maps'
  first_named names (cut_name map_name) map_ids
