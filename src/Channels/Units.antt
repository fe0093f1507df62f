-- ===== src/Channels/Units.antt =====
-- Which part of the text of a cgroup file is taken for the unit of a process.
use ebpf_udp_tcp_analyzer.Base.{
  ◌≡◌, refl, ap, ◌∙◌, ◌⊎◌, inl, inr, true, false, String, Option, none, some, List, [], ◌∷◌, ◌++◌,
  All, All-append, Bool-cases,
}
use ebpf_udp_tcp_analyzer.Base.Text.{split_on, split_lines, after_last, ends_with, starts_with}
use ebpf_udp_tcp_analyzer.Channels.{
  is_unit_part, last_unit_part, last_unit, or_blank, unit_from_cgroup_text,
}

-- The name of a service, but not of the manager of a user.
abbrev pub IsService : String → Type 0
IsService part = (ends_with part ".service" ≡ true) × (starts_with part "user@" ≡ false)

abbrev pub IsOther : String → Type 0
IsOther part = (ends_with part ".service" ≡ false) ⊎ (starts_with part "user@" ≡ true)

-- The parts between slashes of the paths, which follow the last colon of each line.
abbrev pub path_parts : Option String → List String
path_parts none = []
path_parts (some path) = split_on b'/' path

abbrev pub all_parts : List String → List String
all_parts [] = []
all_parts (line ∷ lines) = path_parts (after_last b':' line) ++ all_parts lines

-- `unit` is the last service among the parts, or empty where there is none.
abbrev pub IsLastService : List String → String → Type 0
IsLastService parts unit =
    ((before : List String) × (after : List String) × (parts ≡ before ++ (unit ∷ after))
      × IsService unit
      × All IsOther after)
    ⊎ ((unit ≡ "") × All IsOther parts)

is_unit_part-cases :
    (part : String)
    → ((is_unit_part part ≡ true) × IsService part) ⊎ ((is_unit_part part ≡ false) × IsOther part)
unfolding is_unit_part
is_unit_part-cases part = elim (Bool-cases (ends_with part ".service")) [
  | inr other ↦ inr (rw other refl, inl other)
  | inl service ↦ elim (Bool-cases (starts_with part "user@")) [
    | inl user ↦ inr (rw (service, user) refl, inr user)
    | inr system ↦ inl (rw (service, system) refl, (service, system))
  ]
]

-- What a search through the parts leaves, from what was found before.
abbrev Found : Option String → List String → Option String → Type 0
Found found parts r =
    ((unit : String) × (before : List String) × (after : List String) × (r ≡ some unit)
      × (parts ≡ before ++ (unit ∷ after))
      × IsService unit
      × All IsOther after)
    ⊎ ((r ≡ found) × All IsOther parts)

Found-later :
    (part : String) (found : Option String) (parts : List String) (r : Option String)
    → IsOther part
    → Found found parts r
    → Found found (part ∷ parts) r
Found-later part found parts r other (inl (unit, before, after, is, at, service, rest)) =
    inl (unit, part ∷ before, after, is, ap (λ ps. part ∷ ps) at, service, rest)
Found-later part found parts r other (inr (is, rest)) = inr (is, (other, rest))

Found-here :
    (part : String) (found : Option String) (parts : List String) (r : Option String)
    → IsService part
    → Found (some part) parts r
    → Found found (part ∷ parts) r
Found-here part found parts r here (inl (unit, before, after, is, at, service, rest)) =
    inl (unit, part ∷ before, after, is, ap (λ ps. part ∷ ps) at, service, rest)
Found-here part found parts r here (inr (is, rest)) = inl (part, [], parts, is, refl, here, rest)

last_unit_part-Found :
    (found : Option String) (parts : List String) → Found found parts (last_unit_part found parts)
unfolding last_unit_part
last_unit_part-Found found [] = inr (refl, tt)
last_unit_part-Found found (part ∷ parts) = elim (is_unit_part-cases part) [
  | inl (is, service) ↦ rw is (
      Found-here part found parts (last_unit_part (some part) parts) service
        (last_unit_part-Found (some part) parts))
  | inr (isnt, other) ↦ rw isnt (
      Found-later part found parts (last_unit_part found parts) other
        (last_unit_part-Found found parts))
]

append_assoc :
    (xs ys : List String) (z : String) (zs : List String)
    → (xs ++ (ys ++ (z ∷ zs))) ≡ (xs ++ ys) ++ (z ∷ zs)
append_assoc [] ys z zs = refl
append_assoc (x ∷ xs) ys z zs = ap (λ rest. x ∷ rest) (append_assoc xs ys z zs)

append_middle :
    (before : List String) (unit : String) (after ys : List String)
    → ((before ++ (unit ∷ after)) ++ ys) ≡ before ++ (unit ∷ (after ++ ys))
append_middle [] unit after ys = refl
append_middle (x ∷ before) unit after ys =
    ap (λ rest. x ∷ rest) (append_middle before unit after ys)

Found-append :
    (found : Option String) (xs ys : List String) (m r : Option String)
    → Found found xs m
    → Found m ys r
    → Found found (xs ++ ys) r
Found-append found xs ys m r first (inl (unit, before, after, is, at, service, rest)) = inl (
  unit,
  xs ++ before,
  after,
  is,
  ap (λ zs. xs ++ zs) at ∙ append_assoc xs before unit after,
  service,
  rest,
)
Found-append found xs ys m r (inl (unit, before, after, is, at, service, rest)) (inr (same, more)) =
    inl (
      unit,
      before,
      after ++ ys,
      same ∙ is,
      ap (λ zs. zs ++ ys) at ∙ append_middle before unit after ys,
      service,
      All-append IsOther after ys rest more,
    )
Found-append found xs ys m r (inr (is, rest)) (inr (same, more)) =
    inr (same ∙ is, All-append IsOther xs ys rest more)

line-Found :
    (path : Option String) (found : Option String)
    → Found found
        (path_parts path)
        (elim path [ none ↦ found | some p ↦ last_unit_part found (split_on b'/' p) ])
line-Found none found = inr (refl, tt)
line-Found (some p) found = last_unit_part-Found found (split_on b'/' p)

last_unit-Found :
    (lines : List String) (found : Option String)
    → Found found (all_parts lines) (last_unit found lines)
unfolding last_unit
last_unit-Found [] found = inr (refl, tt)
last_unit-Found (line ∷ lines) found =
    Found-append found _ (all_parts lines) _ _ (line-Found (after_last b':' line) found)
      (last_unit-Found lines _)

Found-IsLastService :
    (parts : List String) (r : Option String)
    → Found none parts r
    → IsLastService parts (or_blank r)
Found-IsLastService parts r (inl (unit, before, after, is, at, service, rest)) =
    rw is (inl (before, after, at, service, rest))
Found-IsLastService parts r (inr (is, rest)) = rw is (inr (refl, rest))

-- The unit read from the text of a cgroup file is the last of the parts of its paths that end in
-- ".service" and do not start with "user@", and empty where no part does.
pub unit_from_cgroup_text-IsLastService :
    (text : String) → IsLastService (all_parts (split_lines text)) (unit_from_cgroup_text text)
unfolding unit_from_cgroup_text
unit_from_cgroup_text-IsLastService text =
    Found-IsLastService (all_parts (split_lines text)) _ (last_unit-Found (split_lines text) none)
