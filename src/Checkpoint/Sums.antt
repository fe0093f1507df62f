-- ===== src/Checkpoint/Sums.antt =====
-- The first loop: what the totals of a dump hold.
use ebpf_udp_tcp_analyzer.Base.{
  ℕ, ◌+◌, ◌≡◌, Option, none, some, List, [], ◌∷◌, foldl, Eq, ◌==◌, ◌||◌, arith, if◌then◌else◌,
  sum_by,
}
use ebpf_udp_tcp_analyzer.Base.Dict.{
  Dict, get, put, has, is_some, Distinct, get-put, get-set_default, put-Distinct, or_default,
}
use ebpf_udp_tcp_analyzer.Checkpoint.{Counting, Reading, Totals, or_zero, add_entry, aggregate}

module _ {K C E : Type 0} ⦃q : Eq K⦄ (c : Counting C) (identity : E → K) (counters : E → C) where
  abbrev add : Totals K C E → E → Totals K C E
  add = add_entry c identity counters

  -- The totals of a dump.
  abbrev pub totals_of : List E → Dict K C
  totals_of entries = (aggregate c identity counters entries).totals

  abbrev pub first_of : List E → Dict K E
  first_of entries = (aggregate c identity counters entries).first_entry

  -- The first entry of a dump with a given identity.
  abbrev pub first_of_identity : K → List E → Option E
  first_of_identity k [] = none
  first_of_identity k (e ∷ es) = if identity e == k then some e else first_of_identity k es

  foldl-Distinct :
      (es : List E) (t : Totals K C E) → Distinct t.totals → Distinct (foldl add t es).totals
  foldl-Distinct [] t h = h
  foldl-Distinct (e ∷ es) t h =
      foldl-Distinct es (add t e) (unfold add_entry in put-Distinct (identity e) _ t.totals h)

  pub aggregate-Distinct : (es : List E) → Distinct (aggregate c identity counters es).totals
  unfolding aggregate
  aggregate-Distinct es = foldl-Distinct es (record { totals = []; first_entry = [] }) tt

  module _ (r : Reading c) (k : K) where
    -- A counter of the entries with identity `k`, added up over a dump.
    abbrev pub sum_of_identity : List E → ℕ
    sum_of_identity = sum_by (λ e. if identity e == k then r.read (counters e) else 0)

    read-add_entry :
        (t : Totals K C E) (e : E)
        → r.read (or_zero c (get k (add t e).totals))
          ≡ r.read (or_zero c (get k t.totals))
            + (if identity e == k then r.read (counters e) else 0)
    unfolding add_entry
    read-add_entry t e = ground (
      arith,
      q.eqb_iff (identity e) k,
      get-put (identity e) k (c.add (or_zero c (get (identity e) t.totals)) (counters e)) t.totals,
      r.read-add (or_zero c (get (identity e) t.totals)) (counters e),
    )

    read-foldl :
        (es : List E) (t : Totals K C E)
        → r.read (or_zero c (get k (foldl add t es).totals))
          ≡ r.read (or_zero c (get k t.totals)) + sum_of_identity es
    read-foldl [] t = omega arith
    read-foldl (e ∷ es) t = omega (arith, read-foldl es (add t e), read-add_entry t e)

    -- Each counter in the totals of `k` is the sum over the entries with that identity.
    pub read-aggregate :
        (es : List E)
        → r.read (or_zero c (get k (aggregate c identity counters es).totals)) ≡ sum_of_identity es
    unfolding aggregate get
    read-aggregate es =
        omega (arith, read-foldl es (record { totals = []; first_entry = [] }), r.read-zero)

  module _ (r : Reading c) where
    sum_by-put :
        (j : K) (v : C) (d : Dict K C)
        → sum_by (λ p. r.read p.1) (put j v d) + r.read (or_zero c (get j d))
          ≡ sum_by (λ p. r.read p.1) d + r.read v
    unfolding get put
    sum_by-put j v [] = omega (arith, r.read-zero)
    sum_by-put j v ((i, w) ∷ d) = ground (arith, sum_by-put j v d)

    sum_by-foldl :
        (es : List E) (t : Totals K C E)
        → sum_by (λ p. r.read p.1) (foldl add t es).totals
          ≡ sum_by (λ p. r.read p.1) t.totals + sum_by (λ e. r.read (counters e)) es
    sum_by-foldl [] t = omega arith
    sum_by-foldl (e ∷ es) t = omega (arith, sum_by-foldl es (add t e), step)
      where
        before : C
        before = or_zero c (get (identity e) t.totals)

        step :
            sum_by (λ p. r.read p.1) (add t e).totals
            ≡ sum_by (λ p. r.read p.1) t.totals + r.read (counters e)
        step =
            unfold add_entry in
            omega (
              arith,
              sum_by-put (identity e) (c.add before (counters e)) t.totals,
              r.read-add before (counters e),
            )

    -- Aggregation loses nothing: a counter added up over the totals is its sum over the dump.
    pub sum_by-aggregate :
        (es : List E)
        → sum_by (λ p. r.read p.1) (aggregate c identity counters es).totals
          ≡ sum_by (λ e. r.read (counters e)) es
    unfolding aggregate
    sum_by-aggregate es = omega (arith, sum_by-foldl es (record { totals = []; first_entry = [] }))

  first-add :
      (k : K) (e : E) (t : Totals K C E)
      → get k (add t e).first_entry
        ≡ or_default (get k t.first_entry) (if identity e == k then some e else none)
  unfolding add_entry
  first-add k e t = get-set_default (identity e) k e t.first_entry

  has-add :
      (k : K) (e : E) (t : Totals K C E)
      → has k (add t e).totals ≡ (has k t.totals || (identity e == k))
  unfolding add_entry
  has-add k e t = ground (
    arith,
    get-put (identity e) k (c.add (or_zero c (get (identity e) t.totals)) (counters e)) t.totals,
  )

  first-foldl :
      (k : K) (es : List E) (t : Totals K C E)
      → get k (foldl add t es).first_entry
        ≡ or_default (get k t.first_entry) (first_of_identity k es)
  first-foldl k [] t = ground arith
  first-foldl k (e ∷ es) t = ground (arith, first-foldl k es (add t e), first-add k e t)

  -- The entry kept for an identity is the first one of the dump that has it.
  pub first_entry-aggregate :
      (k : K) (es : List E)
      → get k (aggregate c identity counters es).first_entry ≡ first_of_identity k es
  unfolding aggregate get
  first_entry-aggregate k es = first-foldl k es (record { totals = []; first_entry = [] })

  has-foldl :
      (k : K) (es : List E) (t : Totals K C E)
      → has k (foldl add t es).totals ≡ (has k t.totals || is_some (first_of_identity k es))
  has-foldl k [] t = ground arith
  has-foldl k (e ∷ es) t = ground (arith, has-foldl k es (add t e), has-add k e t)

  -- An identity has totals exactly when some entry has it.
  pub has-aggregate :
      (k : K) (es : List E)
      → has k (aggregate c identity counters es).totals ≡ is_some (first_of_identity k es)
  unfolding aggregate get
  has-aggregate k es = has-foldl k es (record { totals = []; first_entry = [] })
