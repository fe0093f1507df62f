-- ===== src/Flow/PerCpu.antt =====
-- The per-CPU values of a flow, joined.
use ebpf_udp_tcp_analyzer.Base.{
  ℕ, ◌+◌, ◌≡◌, ◌≤◌, ◌<◌, ◌⊎◌, refl, List, [], ◌∷◌, All, sum_by, foldl, arith,
}
use ebpf_udp_tcp_analyzer.Errors.{ok}
use ebpf_udp_tcp_analyzer.Bpftool.Json.{Json, arr, items_of, list_of-items_of, get_field}
use ebpf_udp_tcp_analyzer.Flow.Wire.{FlowValue, counters, parse_flow_value_one}
use ebpf_udp_tcp_analyzer.Flow.Merge.{
  min_nonzero, no_value, merge_cpu, merge_cpus, parse_flow_value,
}
use ebpf_udp_tcp_analyzer.Flow.Growth.{
  Counter, counter_in, tx_bytes, rx_bytes, tx_calls, rx_calls, connections,
}

abbrev pub counter_at : Counter → FlowValue → ℕ
counter_at k v = counter_in k (counters v)

-- A start is 0 where it is unknown; a joined start is known if one is, and is the earliest.
abbrev pub IsStartOf : ℕ → ℕ → Type 0
IsStartOf joined start = (start ≡ 0) ⊎ ((0 < joined) × (joined ≤ start))

-- What joining does to the values of the CPUs.
pub record Joins (vs : List FlowValue) (m : FlowValue) : Type 0 where
  pub counted : (k : Counter) → counter_at k m ≡ sum_by (counter_at k) vs
  pub latest : All (λ v. v.last_ns ≤ m.last_ns) vs
  pub earliest : All (λ v. IsStartOf m.start_ns v.start_ns) vs

merge_cpu-counter :
    (k : Counter) (a b : FlowValue) → counter_at k (merge_cpu a b) ≡ counter_at k a + counter_at k b
unfolding merge_cpu
merge_cpu-counter tx_bytes a b = refl
merge_cpu-counter rx_bytes a b = refl
merge_cpu-counter tx_calls a b = refl
merge_cpu-counter rx_calls a b = refl
merge_cpu-counter connections a b = refl

foldl-counter :
    (k : Counter) (vs : List FlowValue) (acc : FlowValue)
    → counter_at k (foldl merge_cpu acc vs) ≡ counter_at k acc + sum_by (counter_at k) vs
foldl-counter k [] acc = omega arith
foldl-counter k (v ∷ vs) acc =
    omega (arith, foldl-counter k vs (merge_cpu acc v), merge_cpu-counter k acc v)

no_value-counter : (k : Counter) → counter_at k no_value ≡ 0
no_value-counter tx_bytes = refl
no_value-counter rx_bytes = refl
no_value-counter tx_calls = refl
no_value-counter rx_calls = refl
no_value-counter connections = refl

joined_counter :
    (k : Counter) (vs : List FlowValue)
    → counter_at k (foldl merge_cpu no_value vs) ≡ sum_by (counter_at k) vs
joined_counter k vs = omega (arith, foldl-counter k vs no_value, no_value-counter k)

merge_cpu-last :
    (a b : FlowValue)
    → (a.last_ns ≤ (merge_cpu a b).last_ns) × (b.last_ns ≤ (merge_cpu a b).last_ns)
unfolding merge_cpu
merge_cpu-last a b = (omega arith, omega arith)

foldl-last :
    (vs : List FlowValue) (acc : FlowValue)
    → (acc.last_ns ≤ (foldl merge_cpu acc vs).last_ns)
      × All (λ v. v.last_ns ≤ (foldl merge_cpu acc vs).last_ns) vs
foldl-last [] acc = (omega arith, tt)
foldl-last (v ∷ vs) acc =
    let (acc', rest) = foldl-last vs (merge_cpu acc v) in
    let (left, right) = merge_cpu-last acc v in
    (omega (arith, acc', left), (omega (arith, acc', right), rest))

min_nonzero-IsStartOf : (a b : ℕ) → IsStartOf (min_nonzero a b) a × IsStartOf (min_nonzero a b) b
unfolding min_nonzero
min_nonzero-IsStartOf a b = ground arith

IsStartOf-trans : (a b c : ℕ) → IsStartOf a b → IsStartOf b c → IsStartOf a c
IsStartOf-trans a b c h g = ground (arith, h, g)

foldl-start :
    (vs : List FlowValue) (acc : FlowValue)
    → IsStartOf (foldl merge_cpu acc vs).start_ns acc.start_ns
      × All (λ v. IsStartOf (foldl merge_cpu acc vs).start_ns v.start_ns) vs
unfolding merge_cpu
foldl-start [] acc = (ground arith, tt)
foldl-start (v ∷ vs) acc =
    let (acc', rest) = foldl-start vs (merge_cpu acc v) in
    let (left, right) = min_nonzero-IsStartOf acc.start_ns v.start_ns in
    (IsStartOf-trans _ _ _ acc' left, (IsStartOf-trans _ _ _ acc' right, rest))

-- An element of `values` that reads as the given value.
abbrev pub ReadsAs : Json → FlowValue → Type 0
ReadsAs element v =
    (value : Json) × (get_field "value" element ≡ ok value) × (parse_flow_value_one value ≡ ok v)

abbrev pub AllReadAs : List Json → List FlowValue → Type 0
AllReadAs [] [] = Unit
AllReadAs [] (v ∷ vs) = ⊥
AllReadAs (e ∷ es) [] = ⊥
AllReadAs (e ∷ es) (v ∷ vs) = ReadsAs e v × AllReadAs es vs

merge_cpus-foldl :
    (es : List Json) (vs : List FlowValue) (acc : FlowValue)
    → AllReadAs es vs
    → merge_cpus es acc ≡ ok (foldl merge_cpu acc vs)
unfolding merge_cpus
merge_cpus-foldl [] [] acc h = refl
merge_cpus-foldl [] (v ∷ vs) acc h = elim h [ ]
merge_cpus-foldl (e ∷ es) [] acc h = elim h [ ]
merge_cpus-foldl (e ∷ es) (v ∷ vs) acc h =
    let (value, there, parsed) = h.0 in
    rw (there, parsed) (merge_cpus-foldl es vs (merge_cpu acc v) h.1)

-- The values that the CPUs hold for a flow read as one value, whose five counters are the sums over
-- the CPUs, whose last time is not before any of theirs, and whose start is unknown only if it is so on
-- every CPU, and else not after any known one.
pub parse_flow_value-Joins :
    (value : Json) (es : List Json) (vs : List FlowValue)
    → AllReadAs es vs
    → (m : FlowValue) × (parse_flow_value value (arr (items_of es)) ≡ ok m) × Joins vs m
unfolding parse_flow_value
parse_flow_value-Joins value es vs h = (
  foldl merge_cpu no_value vs,
  rw list_of-items_of (merge_cpus-foldl es vs no_value h),
  record {
    counted = λ k. joined_counter k vs;
    latest = (foldl-last vs no_value).1;
    earliest = (foldl-start vs no_value).1;
  },
)
