-- ===== src/Checkpoint/Baseline.antt =====
-- The second loop: it overwrites `previous` while it reads it, and still reports every flow against
-- the baseline that the checkpoint began with, since no identity stands twice in the totals.
use mathlib.Core.List.{append-nil, append_assoc}
use ebpf_udp_tcp_analyzer.Base.{
  ◌≡◌, refl, sym, ◌∙◌, ap, true, none, some, List, [], ◌∷◌, ◌++◌, Eq, arith,
}
use ebpf_udp_tcp_analyzer.Base.Dict.{
  Dict, get, put, restrict, has, Distinct, get-put, get-restrict, or_default,
}
use ebpf_udp_tcp_analyzer.Errors.{Result, ok, require, key_error, ◌>>=◌, >>=-eq-ok, >>=_assoc}
use ebpf_udp_tcp_analyzer.Checkpoint.{Counting, report, report_flows, read_flows}
use ebpf_udp_tcp_analyzer.Checkpoint.Sums.{totals_of, first_of, aggregate-Distinct}

module _ {K C : Type 0} ⦃q : Eq K⦄ where
  unfoldable pub put_all : Dict K C → Dict K C → Dict K C
  put_all [] d = d
  put_all ((k, v) ∷ items) d = put_all items (put k v d)

  pub get-put_all :
      (j : K) (items d : Dict K C)
      → Distinct items
      → get j (put_all items d) ≡ or_default (get j items) (get j d)
  unfolding get put_all
  get-put_all j [] d h = refl
  get-put_all j ((k, v) ∷ items) d h =
      ground (arith, q.eqb_iff k j, get-put_all j items (put k v d) h.1, get-put k j v d)

  -- Two baselines that agree on the identities of the totals.
  abbrev pub Agree : Dict K C → Dict K C → Dict K C → Type 0
  Agree items d old = (k : K) → has k items ≡ true → get k d ≡ get k old

  Agree-head :
      (k : K) (v : C) (items d old : Dict K C) → Agree ((k, v) ∷ items) d old → get k d ≡ get k old
  unfolding get
  Agree-head k v items d old h = ground (arith, q.eqb_iff k k, h k)

  Agree-tail :
      (k : K) (v w : C) (items d old : Dict K C)
      → get k items ≡ none
      → Agree ((k, v) ∷ items) d old
      → Agree items (put k w d) old
  unfolding get
  Agree-tail k v w items d old fresh h j here = ground (arith, q.eqb_iff k j, get-put k j w d, h j)

  restrict-Agree : (totals previous : Dict K C) → Agree totals (restrict previous totals) previous
  restrict-Agree totals previous k here = ground (arith, get-restrict k previous totals)

  get-put_all-restrict :
      (k : K) (totals previous : Dict K C)
      → Distinct totals
      → get k (put_all totals (restrict previous totals)) ≡ get k totals
  get-put_all-restrict k totals previous u =
      ground
        (arith, get-put_all k totals (restrict previous totals) u, get-restrict k previous totals)

module _ {K C E S R : Type 0} ⦃q : Eq K⦄ (emit : C → C → E → S → Result (List R × S)) where
  -- Every flow against one fixed baseline.
  unfoldable pub report_all : Dict K E → Dict K C → Dict K C → S → Result (List R × S)
  report_all first_entry old [] s = ok ([], s)
  report_all first_entry old ((k, now) ∷ items) s = do
    entry ← require (get k first_entry) key_error
    (more, s') ← report emit (get k old) now entry s
    (rest, s'') ← report_all first_entry old items s'
    ok (more ++ rest, s'')

  -- One round of `report_all` that raises nothing.
  pub report_all-cons :
      (first_entry : Dict K E) (old : Dict K C) (k : K) (now : C) (items : Dict K C) (s : S)
      {s'' : S} {rows : List R}
      → report_all first_entry old ((k, now) ∷ items) s ≡ ok (rows, s'')
      → (entry : E) × (more : List R) × (s' : S) × (rest : List R) × (get k first_entry
          ≡ some entry)
        × (report emit (get k old) now entry s ≡ ok (more, s'))
        × (report_all first_entry old items s' ≡ ok (rest, s''))
        × (rows ≡ more ++ rest)
  unfolding report_all
  report_all-cons first_entry old k now items s h =
      let (entry, found, h1) = >>=-eq-ok (require (get k first_entry) key_error) _ h in
      let (x, reported, h2) = >>=-eq-ok (report emit (get k old) now entry s) _ h1 in
      let (y, ran, h3) = >>=-eq-ok (report_all first_entry old items x.1) _ h2 in
      (entry, x.0, x.1, y.0, ground arith, reported, cc, cc)

  report_flows-report_all :
      (first_entry : Dict K E) (items d old : Dict K C) (s : S) (rows : List R)
      → Distinct items
      → Agree items d old
      → report_flows emit first_entry items d s rows
        ≡ (report_all first_entry old items s >>= λ r. ok (put_all items d, r.1, rows ++ r.0))
  unfolding report_flows report_all put_all
  report_flows-report_all first_entry [] d old s rows u h = rw append-nil
  report_flows-report_all first_entry ((k, now) ∷ items) d old s rows u h =
      let ih = λ (t : S) (out : List R).
        report_flows-report_all first_entry items (put k now d) old t out u.1
          (Agree-tail k now now items d old u.0 h) in
      rw (Agree-head k now items d old h) (simp (ih, >>=_assoc, append_assoc))

  module _ (c : Counting C) (identity : E → K) (counters : E → C) where
    -- A reader reports each flow of the totals against the baseline that it was called with.
    pub read_flows-report_all :
        (entries : List E) (previous : Dict K C) (s : S)
        → read_flows emit c identity counters entries previous s ≡ (
            report_all
              (first_of c identity counters entries)
              previous
              (totals_of c identity counters entries)
              s
            >>= λ r. ok (
              put_all
                  (totals_of c identity counters entries)
                  (restrict previous (totals_of c identity counters entries)),
              r.1,
              r.0,
            ))
    unfolding read_flows
    read_flows-report_all entries previous s =
        report_flows-report_all (first_of c identity counters entries)
          (totals_of c identity counters entries)
          (restrict previous (totals_of c identity counters entries)) previous s []
          (aggregate-Distinct c identity counters entries)
          (restrict-Agree (totals_of c identity counters entries) previous)

    -- What a reader that raises nothing has computed.
    pub read_flows-eq-ok :
        (entries : List E) (previous : Dict K C) (s : S) {p : Dict K C} {s' : S} {rows : List R}
        → read_flows emit c identity counters entries previous s ≡ ok (p, s', rows)
        → (report_all
              (first_of c identity counters entries)
              previous
              (totals_of c identity counters entries)
              s
            ≡ ok (rows, s'))
          × (p
              ≡ put_all
                  (totals_of c identity counters entries)
                  (restrict previous (totals_of c identity counters entries)))
    read_flows-eq-ok entries previous s h =
        let (r, ran, e) =
          >>=-eq-ok
            (report_all (first_of c identity counters entries) previous
              (totals_of c identity counters entries) s)
            _ (sym (read_flows-report_all entries previous s) ∙ h) in
        (cc, cc)

    -- The baseline that a reader leaves is the totals of its dump, and nothing else.
    pub baseline-read_flows :
        (entries : List E) (previous : Dict K C) (s : S) {p : Dict K C} {s' : S} {rows : List R}
        → read_flows emit c identity counters entries previous s ≡ ok (p, s', rows)
        → (k : K) → get k p ≡ get k (totals_of c identity counters entries)
    baseline-read_flows entries previous s h k =
        let (ran, e) = read_flows-eq-ok entries previous s h in
        ap (get k) e
        ∙ get-put_all-restrict k (totals_of c identity counters entries) previous
            (aggregate-Distinct c identity counters entries)
