-- ===== src/Processes/Owners.antt =====
-- Whose sockets enriched rows are attributed to.
use ebpf_udp_tcp_analyzer.Base.{
  ℕ, ◌-◌, ◌≡◌, ◌≢◌, ◌≤◌, ◌<◌, ◌⊎◌, inl, inr, refl, List, [], ◌∷◌, map, keep, All, IsIn, Bool-cases,
  ◌==◌, nat_eq, nat_beq_iff, ltb, arith,
}
use ebpf_udp_tcp_analyzer.Errors.{Result, ok, err, ◌>>=◌}
use ebpf_udp_tcp_analyzer.Models.{UdpSample}
use ebpf_udp_tcp_analyzer.Processes.{
  ProcessSocket, Enricher, Probe, sockets, find_inode_matches, attribute_to, attributed_rows,
  enrich_exact,
}

-- The cache holds the rows just returned, which are not older than the cache may be.
pub record IsFresh (probe : Probe) (e : Enricher) (rows : List ProcessSocket) : Type 0 where
  pub cached : e.cached_sockets ≡ rows
  pub young : probe.now - e.cache_at ≤ e.cache_ttl

-- How `sockets` ends.
abbrev pub IsSockets : Probe → Enricher → Result (List ProcessSocket × Enricher) → Type 0
IsSockets probe e (ok (rows, e')) =
    IsFresh probe e' rows × ((probe.scan ≡ ok rows) ⊎ (rows ≡ e.cached_sockets))
IsSockets probe e (err raised) = (probe.scan ≡ err raised) × (e.cache_ttl < probe.now - e.cache_at)

scanned-IsSockets :
    (probe : Probe) (e : Enricher) (scanned : Result (List ProcessSocket))
    → probe.scan ≡ scanned
    → e.cache_ttl < probe.now - e.cache_at
    → IsSockets probe e
        (scanned >>= λ rows. ok (rows, record e { cached_sockets = rows; cache_at = probe.now }))
scanned-IsSockets probe e (err raised) h old = (h, old)
scanned-IsSockets probe e (ok rows) h old = (record { cached = refl; young = omega arith }, inl h)

-- `sockets` returns a scan made now, or the cached one, and either way what it returns is in the
-- cache and is no older than the cache may be; it raises only what a scan made now raises, where the
-- cache is older.
pub sockets-IsFresh : (probe : Probe) (e : Enricher) → IsSockets probe e (sockets probe e)
unfolding sockets
sockets-IsFresh probe e = elim (Bool-cases (ltb e.cache_ttl (probe.now - e.cache_at))) [
  | inl old ↦ simp old (scanned-IsSockets probe e probe.scan refl (ground (arith, old)))
  | inr young ↦ simp young (record { cached = refl; young = ground (arith, young) }, inr refl)
]

-- The socket is unknown, or no socket that is known has its inode.
abbrev pub HasNoOwner : ℕ → List ProcessSocket → Type 0
HasNoOwner inode known = (inode ≡ 0) ⊎ All (λ (s : ProcessSocket). s.socket_inode ≢ inode) known

-- A delivered row of a socket cookie, with the counts of the sample, and of a process with the
-- socket of the given inode, or, only where there is none, of the process of the sample.
pub record IsAttributed (sample : UdpSample) (inode socket_cookie : ℕ) (known : List ProcessSocket)
    (r : UdpSample) : Type 0 where
  pub layer : r.layer ≡ "delivered"
  pub socket : r.socket_id ≡ socket_cookie
  pub packets : r.packets ≡ sample.packets
  pub bytes : r.bytes ≡ sample.bytes
  pub process :
      ((m : ProcessSocket) × IsIn m known
        × (m.socket_inode ≡ inode)
        × (r.host_pid ≡ m.host_pid)
        × (r.process_name ≡ m.process_name)
        × (r.container_id ≡ m.container_id))
      ⊎ ((r.host_pid ≡ sample.host_pid)
          × (r.process_name ≡ sample.process_name)
          × (r.container_id ≡ sample.container_id)
          × HasNoOwner inode known)

module _ (sample : UdpSample) (inode socket_cookie : ℕ) where
  abbrev cookie_row : UdpSample
  cookie_row = record sample { layer = "delivered"; socket_id = socket_cookie }

  -- Sockets that are known and have the inode.
  abbrev Owners : List ProcessSocket → List ProcessSocket → Type 0
  Owners known = All (λ m. IsIn m known × (m.socket_inode ≡ inode))

  Owners-later :
      (s : ProcessSocket) (known found : List ProcessSocket)
      → Owners known found
      → Owners (s ∷ known) found
  Owners-later s known [] h = tt
  Owners-later s known (m ∷ found) h = ((inr h.0.0, h.0.1), Owners-later s known found h.1)

  keep-Owners :
      (known : List ProcessSocket)
      → Owners known (keep (λ (s : ProcessSocket). s.socket_inode == inode) known)
  keep-Owners [] = tt
  keep-Owners (s ∷ known) = elim (Bool-cases (s.socket_inode == inode)) [
    | inl same ↦ simp same (
      (inl refl, (nat_beq_iff s.socket_inode inode).0 same),
      Owners-later s known _ (keep-Owners known),
    )
    | inr other ↦ simp other (Owners-later s known _ (keep-Owners known))
  ]

  keep-HasNoOwner :
      (known : List ProcessSocket)
      → keep (λ (s : ProcessSocket). s.socket_inode == inode) known ≡ []
      → All (λ (s : ProcessSocket). s.socket_inode ≢ inode) known
  keep-HasNoOwner [] h = tt
  keep-HasNoOwner (s ∷ known) h = elim (Bool-cases (s.socket_inode == inode)) [
    | inl same ↦
        let one : (s ∷ keep (λ (s : ProcessSocket). s.socket_inode == inode) known) ≡ [] =
          simp same at h in
        absurd (ground (arith, one))
    | inr other ↦ (λ e. absurd (ground (arith, e, other)), keep-HasNoOwner known (simp other at h))
  ]

  map-IsAttributed :
      (known found : List ProcessSocket)
      → Owners known found
      → All (IsAttributed sample inode socket_cookie known) (map (attribute_to cookie_row) found)
  unfolding attribute_to
  map-IsAttributed known [] h = tt
  map-IsAttributed known (m ∷ found) h = (
    record {
      layer = refl;
      socket = refl;
      packets = refl;
      bytes = refl;
      process = inl (m, h.0.0, h.0.1, refl, refl, refl);
    },
    map-IsAttributed known found h.1,
  )

  attributed_rows-IsAttributed :
      (known found : List ProcessSocket)
      → Owners known found
      → (found ≡ [] → HasNoOwner inode known)
      → All (IsAttributed sample inode socket_cookie known) (attributed_rows cookie_row found)
  attributed_rows-IsAttributed known [] h none_found = (
    record {
      layer = refl;
      socket = refl;
      packets = refl;
      bytes = refl;
      process = inr (refl, refl, refl, none_found refl);
    },
    tt,
  )
  attributed_rows-IsAttributed known (m ∷ found) h none_found = map-IsAttributed known (m ∷ found) h

-- How `enrich_exact` ends, by what `sockets` returns or raises; with inode 0 it is not called.
abbrev pub Attributes :
    UdpSample
    → ℕ
    → ℕ
    → Result (List ProcessSocket × Enricher)
    → Result (List UdpSample × Enricher)
    → Type 0
Attributes sample inode socket_cookie (ok (known, _)) (ok (rows, _)) =
    All (IsAttributed sample inode socket_cookie known) rows
Attributes sample inode socket_cookie (err raised) (ok (rows, _)) =
    (inode ≡ 0) × All (IsAttributed sample inode socket_cookie []) rows
Attributes sample inode socket_cookie known (err raised) = (known ≡ err raised) × (inode ≢ 0)

known-Attributes :
    (sample : UdpSample) (inode socket_cookie : ℕ) (r : Result (List ProcessSocket × Enricher))
    → inode ≢ 0
    → Attributes sample inode socket_cookie r (
        (r >>= λ (rows, e'). ok (keep (λ (s : ProcessSocket). s.socket_inode == inode) rows, e'))
        >>= λ (found, e'). ok (attributed_rows (cookie_row sample inode socket_cookie) found, e'))
known-Attributes sample inode socket_cookie (err raised) h = (refl, h)
known-Attributes sample inode socket_cookie (ok (known, e)) h =
    attributed_rows-IsAttributed sample inode socket_cookie known _
      (keep-Owners sample inode socket_cookie known)
      (λ none_left. inr (keep-HasNoOwner sample inode socket_cookie known none_left))

zero-Attributes :
    (sample : UdpSample) (inode socket_cookie : ℕ) (r : Result (List ProcessSocket × Enricher))
    (e : Enricher)
    → inode ≡ 0
    → Attributes sample inode socket_cookie r
        (ok (attributed_rows (cookie_row sample inode socket_cookie) [], e))
zero-Attributes sample inode socket_cookie (err raised) e h =
    (h, attributed_rows-IsAttributed sample inode socket_cookie [] [] tt (λ _. inl h))
zero-Attributes sample inode socket_cookie (ok (known, e')) e h =
    attributed_rows-IsAttributed sample inode socket_cookie known [] tt (λ _. inl h)

-- Every row of `enrich_exact` is delivered, carries the socket cookie and the counts of the sample,
-- and names a process that holds the socket of the inode among the sockets returned; it names the
-- process of the sample only where the inode is 0 or none of these sockets has it. It raises only what
-- the call for these sockets raises, where the inode is not 0.
pub enrich_exact-IsAttributed :
    (probe : Probe) (sample : UdpSample) (inode socket_cookie : ℕ) (e : Enricher)
    → Attributes sample inode socket_cookie
        (sockets probe e)
        (enrich_exact probe sample inode socket_cookie e)
unfolding enrich_exact find_inode_matches
enrich_exact-IsAttributed probe sample inode socket_cookie e = elim (Bool-cases (inode == 0)) [
  | inl unknown ↦ simp unknown (
      zero-Attributes sample inode socket_cookie (sockets probe e) e
        ((nat_beq_iff inode 0).0 unknown))
  | inr known ↦ simp known (
      known-Attributes sample inode socket_cookie (sockets probe e)
        (λ z. absurd (ground (arith, z, known))))
]
