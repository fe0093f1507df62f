-- ===== src/Channels/Matching.antt =====
-- What the status of a flow says.
use ebpf_udp_tcp_analyzer.Base.{
  ℕ, ◌≡◌, ◌≢◌, ◌⊎◌, inl, inr, refl, true, false, String, Option, none, some, List, [], ◌∷◌, foldl,
  Bool-cases, nat_beq_iff, ◌==◌, nat_eq, string_eq, arith, if◌then◌else◌,
}
use ebpf_udp_tcp_analyzer.Base.Dict.{Dict, get, put, get-put, or_default}
use ebpf_udp_tcp_analyzer.Channels.{
  ChannelTarget, catalog_of, contains, is_empty, match_target, match_found, match_flow,
}

-- The last target of a unit in a list.
abbrev pub last_of_unit : String → List ChannelTarget → Option ChannelTarget
last_of_unit unit [] = none
last_of_unit unit (t ∷ ts) =
    or_default (last_of_unit unit ts) (if t.unit == unit then some t else none)

get-foldl :
    (unit : String) (ts : List ChannelTarget) (d : Dict String ChannelTarget)
    → get unit (foldl (λ d (t : ChannelTarget). put t.unit t d) d ts)
      ≡ or_default (last_of_unit unit ts) (get unit d)
get-foldl unit [] d = refl
get-foldl unit (t ∷ ts) d =
    ground (arith, get-foldl unit ts (put t.unit t d), get-put t.unit unit t d)

pub get-catalog_of :
    (unit : String) (ts : List ChannelTarget)
    → get unit (catalog_of ts).by_unit ≡ last_of_unit unit ts
unfolding catalog_of get
get-catalog_of unit ts = ground (arith, get-foldl unit ts [])

-- The endpoint is one that the target configures: its port, and one of its addresses if it has any.
abbrev pub IsEndpoint : ChannelTarget → String → ℕ → Type 0
IsEndpoint t dst_ip dst_port =
    (t.port ≡ dst_port) × ((t.addresses ≡ []) ⊎ (contains dst_ip t.addresses ≡ true))

abbrev pub Verdict : String → Option ChannelTarget → String → ℕ → Type 0
Verdict status none dst_ip dst_port = status ≡ "unknown_unit"
Verdict status (some t) dst_ip dst_port =
    ((status ≡ "matched") × IsEndpoint t dst_ip dst_port)
    ⊎ ((status ≡ "unexpected_flow") × ¬ IsEndpoint t dst_ip dst_port)

empty_cases : (xs : List String) → (xs ≡ []) ⊎ ((is_empty xs ≡ false) × (xs ≢ []))
empty_cases [] = inl refl
empty_cases (x ∷ xs) = inr (refl, λ e. cc)

match_target-Verdict :
    (t : ChannelTarget) (dst_ip : String) (dst_port : ℕ)
    → Verdict (match_target t dst_ip dst_port).status (some t) dst_ip dst_port
unfolding match_target
match_target-Verdict t dst_ip dst_port = elim (Bool-cases (t.port == dst_port)) [
  | inr wrong ↦ inr (rw wrong refl, λ e. ground (arith, e.0))
  | inl port ↦ elim (Bool-cases (contains dst_ip t.addresses)) [
    | inl there ↦
        inl (
          ground (arith, empty_cases t.addresses),
          ((nat_beq_iff t.port dst_port).0 port, inr there),
        )
    | inr away ↦ elim (empty_cases t.addresses) [
      | inl bare ↦ inl (ground arith, ((nat_beq_iff t.port dst_port).0 port, inl bare))
      | inr listed ↦ inr (ground arith, λ e. ground (arith, e.1, listed.1))
    ]
  ]
]

match_target-target :
    (t : ChannelTarget) (dst_ip : String) (dst_port : ℕ)
    → (match_target t dst_ip dst_port).target ≡ some t
unfolding match_target
match_target-target t dst_ip dst_port = ground arith

match_found-Verdict :
    (o : Option ChannelTarget) (dst_ip : String) (dst_port : ℕ)
    → Verdict (match_found o dst_ip dst_port).status o dst_ip dst_port
      × ((match_found o dst_ip dst_port).target ≡ o)
unfolding match_found
match_found-Verdict none dst_ip dst_port = (refl, refl)
match_found-Verdict (some t) dst_ip dst_port =
    (match_target-Verdict t dst_ip dst_port, match_target-target t dst_ip dst_port)

-- The status of a flow is decided by the last target of its unit: without one it is "unknown_unit",
-- at an endpoint of the target it is "matched", and anywhere else "unexpected_flow"; the target is
-- returned with it.
pub match_flow-Verdict :
    (ts : List ChannelTarget) (unit dst_ip : String) (dst_port : ℕ)
    → Verdict
        (match_flow (catalog_of ts) unit dst_ip dst_port).status
        (last_of_unit unit ts)
        dst_ip
        dst_port
      × ((match_flow (catalog_of ts) unit dst_ip dst_port).target ≡ last_of_unit unit ts)
unfolding match_flow
match_flow-Verdict ts unit dst_ip dst_port =
    rw (get-catalog_of unit ts) (match_found-Verdict (last_of_unit unit ts) dst_ip dst_port)
