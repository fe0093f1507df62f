-- ===== src/Tests/Selection.antt =====
-- The search for the map of the ingress program, where the newest program owns two maps
-- (tests/test_map_selection.py).
use ebpf_udp_tcp_analyzer.Base.{ℕ, ◌≡◌, refl, String, List, [], ◌∷◌}
use ebpf_udp_tcp_analyzer.Base.Dict.{Dict, get, put}
use ebpf_udp_tcp_analyzer.Errors.{ok, err, runtime_error}
use ebpf_udp_tcp_analyzer.Bpftool.Json.{Json, num, str, arr, obj, nil, cons, end, field, iterate}
use ebpf_udp_tcp_analyzer.Bpftool.Select.{prefix, refresh_map_id}

select_reader : Unit {0}
unfolding refresh_map_id iterate prefix get put
select_reader = tt

abbrev program : ℕ → List ℕ → Json
program id map_ids = obj (
    field "id" (num id) (
      field "name" (str "udp_ingress") (
        field "map_ids"
          (arr (elim map_ids [ [] ↦ nil | a ∷ rest ↦ cons (num 8) (cons (num a) nil) ])) end)))

abbrev programs : Json
programs = arr (cons (program 30 (9 ∷ [])) (cons (program 20 (5 ∷ [])) nil))

abbrev map_entry : ℕ → String → Json
map_entry id name = obj (field "id" (num id) (field "name" (str name) end))

abbrev maps : Json
maps = arr (
    cons (map_entry 5 "udp_ingress_cou")
      (cons (map_entry 8 "udp_drop_reason") (cons (map_entry 9 "udp_ingress_cou") nil)))

-- A `str` for the values that are no strings.
abbrev to_text : Json → String
to_text (str s) = s
to_text v = "?"

not_loaded :
    refresh_map_id to_text "udp_receive" "udp_ingress_counters" (ok programs) (ok maps)
    ≡ err runtime_error
unfolding select_reader
not_loaded = refl
