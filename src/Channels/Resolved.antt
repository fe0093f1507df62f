-- ===== src/Channels/Resolved.antt =====
-- What a resolved target matches, by the rows of the resolver.
use ebpf_udp_tcp_analyzer.Base.{
  ℕ, ◌≡◌, ◌≢◌, ◌⊎◌, refl, sym, ap, ◌∙◌, inl, inr, Bool, true, false, not, ◌&&◌, ◌||◌, String,
  Option, none, some, List, [], ◌∷◌, IsIn, ◌==◌, nat_eq, string_eq, nat_beq_iff, if◌then◌else◌,
  Bool-cases, arith,
}
use mathlib.Core.Path.{subst}
use text.Mathlib.TextEquality.{eq_iff}
use ebpf_udp_tcp_analyzer.Channels.{ChannelTarget, contains, is_empty, match_target}
use ebpf_udp_tcp_analyzer.Channels.Load.{text_less, insert_text, sorted_set}
use ebpf_udp_tcp_analyzer.Channels.Resolve.{
  AddressRow, is_inet, rows_or_none, add_address, addresses_of, resolve_target,
}

is_empty-insert_text : (s : String) (ts : List String) → is_empty (insert_text s ts) ≡ false
unfolding insert_text
is_empty-insert_text s [] = refl
is_empty-insert_text s (t ∷ ts) = elim (Bool-cases (s == t)) [
  | inl same ↦ rw same refl
  | inr other ↦ elim (Bool-cases (text_less s t)) [
    | inl less ↦ rw (other, less) refl
    | inr more ↦ rw (other, more) refl
  ]
]

swap : (a b c : Bool) → (a || (b || c)) ≡ (b || (a || c))
swap true true c = refl
swap true false c = refl
swap false true c = refl
swap false false c = refl

twice : (a c : Bool) → (a || (a || c)) ≡ (a || c)
twice true c = refl
twice false c = refl

contains-insert_text :
    (x s : String) (ts : List String) → contains x (insert_text s ts) ≡ ((s == x) || contains x ts)
unfolding contains insert_text
contains-insert_text x s [] = refl
contains-insert_text x s (t ∷ ts) = elim (Bool-cases (s == t)) [
  | inl same ↦
      let e : s ≡ t = (eq_iff s t).0 same in rw (same, e) (sym (twice (t == x) (contains x ts)))
  | inr other ↦ elim (Bool-cases (text_less s t)) [
    | inl less ↦ rw (other, less) refl
    | inr more ↦
        rw (other, more, contains-insert_text x s ts) (swap (t == x) (s == x) (contains x ts))
  ]
]

is_empty-sorted_set : (xs : List String) → is_empty (sorted_set xs) ≡ is_empty xs
unfolding sorted_set
is_empty-sorted_set [] = refl
is_empty-sorted_set (x ∷ xs) = is_empty-insert_text x (sorted_set xs)

contains-sorted_set : (x : String) (xs : List String) → contains x (sorted_set xs) ≡ contains x xs
unfolding contains sorted_set
contains-sorted_set x [] = refl
contains-sorted_set x (s ∷ xs) =
    contains-insert_text x s (sorted_set xs) ∙ ap (λ b. (s == x) || b) (contains-sorted_set x xs)

abbrev status_by : Bool → Bool → Bool → String
status_by same_port no_addresses listed =
    if not same_port
    then "unexpected_flow"
    else if not no_addresses && not listed
    then "unexpected_flow"
    else "matched"

status-match_target :
    (target : ChannelTarget) (dst_ip : String) (dst_port : ℕ)
    → (match_target target dst_ip dst_port).status
      ≡ status_by
          (target.port == dst_port)
          (is_empty target.addresses)
          (contains dst_ip target.addresses)
unfolding match_target
status-match_target target dst_ip dst_port = elim (Bool-cases (target.port == dst_port)) [
  | inr other ↦ rw other refl
  | inl same ↦
      elim (Bool-cases
        (not (is_empty target.addresses) && not (contains dst_ip target.addresses))) [
          | inl unlisted ↦ rw (same, unlisted) refl
          | inr listed ↦ rw (same, listed) refl
        ]
]

-- The resolver has given this address, for IPv4 or IPv6 (families 2 and 10).
abbrev pub IsListed : List AddressRow → String → Type 0
IsListed rows address =
    (row : AddressRow) × IsIn row rows
    × ((row.family ≡ 2) ⊎ (row.family ≡ 10))
    × (row.sockaddr ≡ some address)

later_row :
    (row : AddressRow) (rows : List AddressRow) (x : String)
    → IsListed rows x
    → IsListed (row ∷ rows) x
later_row row rows x (r, at, family, address) = (r, inr at, family, address)

is_inet-cases : (n : ℕ) → is_inet n ≡ true → (n ≡ 2) ⊎ (n ≡ 10)
is_inet-cases n h = elim (Bool-cases (n == 2)) [
  | inl two ↦ inl ((nat_beq_iff n 2).0 two)
  | inr other ↦ inr ((nat_beq_iff n 10).0 (rw other at h))
]

is_inet_of : (n : ℕ) → (n ≡ 2) ⊎ (n ≡ 10) → is_inet n ≡ true
is_inet_of n (inl two) = rw two refl
is_inet_of n (inr ten) = rw ten refl

add_address-IsListed :
    (row : AddressRow) (rows : List AddressRow) (o : Option String) (x : String)
    → row.sockaddr ≡ o
    → is_inet row.family ≡ true
    → (contains x (addresses_of rows) ≡ true → IsListed rows x)
    → contains x (add_address o (addresses_of rows)) ≡ true
    → IsListed (row ∷ rows) x
unfolding contains
add_address-IsListed row rows none x at inet more h = later_row row rows x (more h)
add_address-IsListed row rows (some a) x at inet more h = elim (Bool-cases (a == x)) [
  | inl same ↦ (row, inl refl, is_inet-cases row.family inet, at ∙ ap some ((eq_iff a x).0 same))
  | inr other ↦ later_row row rows x (more (rw other at h))
]

contains-IsListed :
    (rows : List AddressRow) (x : String) → contains x (addresses_of rows) ≡ true → IsListed rows x
unfolding addresses_of contains
contains-IsListed [] x h = absurd (ground (arith, h))
contains-IsListed (row ∷ rows) x h = elim (Bool-cases (is_inet row.family)) [
  | inl inet ↦
      add_address-IsListed row rows row.sockaddr x refl inet (contains-IsListed rows x)
        (simp inet at h)
  | inr other ↦ later_row row rows x (contains-IsListed rows x (simp other at h))
]

contains-add_address :
    (o : Option String) (xs : List String) (x : String)
    → contains x xs ≡ true
    → contains x (add_address o xs) ≡ true
unfolding contains
contains-add_address none xs x h = h
contains-add_address (some a) xs x h = elim (Bool-cases (a == x)) [
  | inl same ↦ rw same refl
  | inr other ↦ rw (other, h) refl
]

IsListed-contains :
    (rows : List AddressRow) (x : String) → IsListed rows x → contains x (addresses_of rows) ≡ true
unfolding addresses_of contains
IsListed-contains [] x (r, at, family, address) = absurd at
IsListed-contains (row ∷ rows) x (r, inl here, family, address) =
    let inet : is_inet row.family ≡ true = rw (sym here) (is_inet_of r.family family) in
    let known : row.sockaddr ≡ some x = rw (sym here) address in
    rw (inet, known, (eq_iff x x).1 refl) refl
IsListed-contains (row ∷ rows) x (r, inr later, family, address) =
    let rest = IsListed-contains rows x (r, later, family, address) in
    elim (Bool-cases (is_inet row.family)) [
      | inl inet ↦ simp inet (contains-add_address row.sockaddr (addresses_of rows) x rest)
      | inr other ↦ simp other rest
    ]

some_address : (xs : List String) → is_empty xs ≡ false → (x : String) × (contains x xs ≡ true)
unfolding contains
some_address [] h = absurd (ground (arith, h))
some_address (x ∷ xs) h = (x, rw ((eq_iff x x).1 refl) refl)

no_address : (xs : List String) (x : String) → is_empty xs ≡ true → contains x xs ≡ true → ⊥
unfolding contains
no_address [] x h c = absurd (ground (arith, c))
no_address (y ∷ xs) x h c = absurd (ground (arith, h))

-- The verdict on a flow to an address and a port, by the rows for the host of a target.
abbrev pub Verdict : List AddressRow → ChannelTarget → String → ℕ → String → Type 0
Verdict rows target dst_ip dst_port status =
    ((status ≡ "matched")
      × (target.port ≡ dst_port)
      × (IsListed rows dst_ip ⊎ ((x : String) → IsListed rows x → ⊥)))
    ⊎ ((status ≡ "unexpected_flow")
        × ((target.port ≢ dst_port)
            ⊎ (((x : String) × IsListed rows x) × (IsListed rows dst_ip → ⊥))))

status_by-Verdict :
    (rows : List AddressRow) (target : ChannelTarget) (dst_ip : String) (dst_port : ℕ)
    → Verdict rows target dst_ip dst_port (
        status_by
          (target.port == dst_port)
          (is_empty (addresses_of rows))
          (contains dst_ip (addresses_of rows)))
status_by-Verdict rows target dst_ip dst_port = elim (Bool-cases (target.port == dst_port)) [
  | inr other ↦ rw other (inr (refl, inl (λ e. absurd (ground (arith, e, other)))))
  | inl same ↦
      let port = (nat_beq_iff target.port dst_port).0 same in
      elim (Bool-cases (contains dst_ip (addresses_of rows))) [
        | inl listed ↦ elim (Bool-cases (is_empty (addresses_of rows))) [
          | inl empty ↦
              rw (same, empty) (inl (refl, port, inl (contains-IsListed rows dst_ip listed)))
          | inr full ↦
              rw (same, full, listed) (inl (refl, port, inl (contains-IsListed rows dst_ip listed)))
        ]
        | inr unlisted ↦ elim (Bool-cases (is_empty (addresses_of rows))) [
          | inl empty ↦
              rw (same, empty)
                (inl (
                  refl,
                  port,
                  inr (λ x l. no_address (addresses_of rows) x empty (IsListed-contains rows x l)),
                ))
          | inr full ↦
              let (x, known) = some_address (addresses_of rows) full in
              rw (same, full, unlisted)
                (inr (
                  refl,
                  inr (
                    (x, contains-IsListed rows x known),
                    λ l. absurd (ground (arith, unlisted, IsListed-contains rows dst_ip l)),
                  ),
                ))
        ]
      ]
]

-- A resolved target matches a flow to its port and to an IPv4 or IPv6 address that the resolver gave
-- for its host, or to its port where the resolver gave no such address; any other flow is unexpected.
pub match_target-resolve_target :
    (resolver : String → ℕ → Option (List AddressRow)) (target : ChannelTarget) (dst_ip : String)
    (dst_port : ℕ)
    → Verdict
        (rows_or_none (resolver target.host target.port))
        target
        dst_ip
        dst_port
        (match_target (resolve_target resolver target) dst_ip dst_port).status
unfolding match_target resolve_target
match_target-resolve_target resolver target dst_ip dst_port =
    let rows = rows_or_none (resolver target.host target.port) in
    let given = addresses_of rows in
    let by = status_by (target.port == dst_port) in
    let same : (match_target (resolve_target resolver target) dst_ip dst_port).status
        ≡ by (is_empty given) (contains dst_ip given) =
      status-match_target (resolve_target resolver target) dst_ip dst_port
      ∙ (ap (λ b. by b (contains dst_ip (sorted_set given))) (is_empty-sorted_set given)
          ∙ ap (by (is_empty given)) (contains-sorted_set dst_ip given)) in
    subst (Verdict rows target dst_ip dst_port) (sym same)
      (status_by-Verdict rows target dst_ip dst_port)
