-- ===== src/Bpftool/Newest.antt =====
-- Which map `refresh_map_id` chooses.
use ebpf_udp_tcp_analyzer.Base.{
  ℕ, ◌≤◌, ◌≡◌, true, String, List, [], ◌∷◌, All, IsIn, arith, nat_eq, string_eq,
}
use text.Mathlib.TextEquality.{eq_iff}
use ebpf_udp_tcp_analyzer.Base.Dict.{Dict}
use ebpf_udp_tcp_analyzer.Errors.{ok, ◌>>=◌}
use ebpf_udp_tcp_analyzer.Bpftool.Json.{Json, get_field, iterate, str}
use ebpf_udp_tcp_analyzer.Bpftool.Select.{
  is_text, candidates, program_id, newest, ints_of, cut_name, name_in,
}

-- No program of a list has a greater id.
abbrev pub IsBound : ℕ → Json → Type 0
IsBound n p = (m : ℕ) → program_id p ≡ ok m → m ≤ n

abbrev pub IsNamed : String → Json → Type 0
IsNamed name p = get_field "name" p ≡ ok (str name)

All-IsBound : (n m : ℕ) (ps : List Json) → n ≤ m → All (IsBound n) ps → All (IsBound m) ps
All-IsBound n m [] le h = tt
All-IsBound n m (p ∷ ps) le h = (λ k e. omega (arith, h.0 k e, le), All-IsBound n m ps le h.1)

pub record IsNewest (p : Json) (ps : List Json) : Type 0 where
  pub id : ℕ
  pub has_id : program_id p ≡ ok id
  pub member : IsIn p ps
  pub bound : All (IsBound id) ps

named : (wanted : String) (v : Json) → is_text wanted v ≡ true → v ≡ str wanted
unfolding is_text
named wanted (str s) h = ground (arith, h, eq_iff s wanted)
named wanted v h = absurd (ground (arith, h))

-- A named program of a list.
abbrev pub IsNamedIn : String → List Json → Json → Type 0
IsNamedIn name ps p = IsNamed name p × IsIn p ps

-- What a chosen map is, among the programs `ps` and the maps named by `names`.
pub record IsSelected (program_name map_name : String) (ps : List Json) (names : Dict ℕ String)
    (map_id : ℕ) : Type 0 where
  pub program : Json
  pub named : IsNamedIn program_name ps program
  pub found : List Json
  pub candidates_found : candidates program_name ps ≡ ok found
  pub newest : IsNewest program found
  pub map_ids : List ℕ
  pub owned : (get_field "map_ids" program >>= λ v. iterate v >>= λ vs. ints_of vs) ≡ ok map_ids
  pub member : IsIn map_id map_ids
  pub name : name_in names map_id ≡ cut_name map_name
