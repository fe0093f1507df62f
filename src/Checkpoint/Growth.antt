-- ===== src/Checkpoint/Growth.antt =====
-- What the rows of a checkpoint add up to: between two dumps of the same flows, whose counters have
-- not gone down, the rows report exactly the growth of the counters in the map.
use ebpf_udp_tcp_analyzer.Base.{
  ℕ, ◌+◌, ◌-◌, ◌≤◌, ◌≡◌, refl, ◌∙◌, Option, none, some, List, [], ◌∷◌, Eq, arith, sum_by,
  sum_by-append,
}
use ebpf_udp_tcp_analyzer.Base.Dict.{
  Dict, get, has, is_some, Distinct, without, get-without, without-Distinct, sum_by-without,
}
use ebpf_udp_tcp_analyzer.Errors.{Result, ok}
use ebpf_udp_tcp_analyzer.Checkpoint.{Counting, Reading, or_zero, report, read_flows}
use ebpf_udp_tcp_analyzer.Checkpoint.Sums.{
  totals_of, first_of, aggregate-Distinct, sum_of_identity, read-aggregate, sum_by-aggregate,
  first_of_identity, has-aggregate,
}
use ebpf_udp_tcp_analyzer.Checkpoint.Baseline.{report_all, Agree, report_all-cons, read_flows-eq-ok}

-- A counter's growth since the baseline, 0 at first sight and after it went down.
abbrev pub grown : {C : Type 0} {c : Counting C} → Reading c → Option C → C → ℕ
grown r none now = 0
grown r (some p) now = r.read now - r.read p

module _ {K C : Type 0} ⦃q : Eq K⦄ {c : Counting C} (r : Reading c) where
  abbrev pub growth : Dict K C → Dict K C → ℕ
  growth old = sum_by (λ p. grown r (get p.0 old) p.1)

  -- The same flows, and the counter has not gone down in any.
  pub record Continues (old new : Dict K C) : Type 0 where
    pub same : (k : K) → has k old ≡ has k new
    pub rises : (k : K) → r.read (or_zero c (get k old)) ≤ r.read (or_zero c (get k new))

  growth-Agree :
      (items old old' : Dict K C)
      → Distinct items
      → Agree items old old'
      → growth old items ≡ growth old' items
  unfolding get
  growth-Agree [] old old' u h = refl
  growth-Agree ((k, v) ∷ items) old old' u h = ground (
    arith,
    q.eqb_iff k k,
    h k,
    growth-Agree items old old' u.1 (λ j here. ground (arith, q.eqb_iff k j, h j)),
  )

  Agree-without :
      (k : K) (items old : Dict K C) → get k items ≡ none → Agree items old (without k old)
  Agree-without k items old fresh j here = ground (arith, q.eqb_iff k j, get-without k j old)

  -- Both with their entry of `k` taken out.
  Continues-tail :
      (k : K) (v : C) (items old : Dict K C)
      → get k items ≡ none
      → Continues old ((k, v) ∷ items)
      → Continues (without k old) items
  unfolding get
  Continues-tail k v items old fresh h = record {
    same = λ j. ground (arith, q.eqb_iff k j, get-without k j old, h.same j);
    rises = λ j. ground (arith, q.eqb_iff k j, get-without k j old, h.rises j);
  }

  Continues-head :
      (k : K) (v p : C) (items old : Dict K C)
      → Continues old ((k, v) ∷ items)
      → get k old ≡ some p
      → r.read p ≤ r.read v
  unfolding get
  Continues-head k v p items old h there = ground (arith, q.eqb_iff k k, h.rises k)

  known :
      (k : K) (v : C) (items old : Dict K C)
      → Continues old ((k, v) ∷ items)
      → (p : C) × (get k old ≡ some p)
  unfolding get
  known k v items old h = ground (arith, q.eqb_iff k k, h.same k)

  growth-total :
      (items old : Dict K C)
      → Distinct items
      → Distinct old
      → Continues old items
      → growth old items + sum_by (λ p. r.read p.1) old ≡ sum_by (λ p. r.read p.1) items
  growth-total [] [] u w h = omega arith
  growth-total [] ((j, p) ∷ old) u w h =
      absurd (unfold get in ground (arith, q.eqb_iff j j, h.same j))
  growth-total ((k, v) ∷ items) old u w h =
      let (p, there) = known k v items old h in
      rw there (
        omega (
          arith,
          Continues-head k v p items old h there,
          sum_by-without (λ x. r.read x.1) k p old w there,
          growth-Agree items old (without k old) u.1 (Agree-without k items old u.0),
          growth-total items (without k old) u.1 (without-Distinct k old w)
              (Continues-tail k v items old u.0 h),
        ))

-- Rows that a counter is reported in: for each reported flow they add up to its growth.
pub record Reports {C E S R : Type 0} {c : Counting C} (r : Reading c) (w : R → ℕ)
    (emit : C → C → E → S → Result (List R × S)) : Type 0 where
  pub exact :
      (p n : C) (e : E) (s s' : S) (rows : List R)
      → emit p n e s ≡ ok (rows, s')
      → sum_by w rows ≡ r.read n - r.read p

module _ {C E S R : Type 0} (emit : C → C → E → S → Result (List R × S)) {c : Counting C}
    (r : Reading c) (w : R → ℕ) (law : Reports r w emit) where
  sum_by-report :
      (o : Option C) (n : C) (e : E) (s s' : S) (rows : List R)
      → report emit o n e s ≡ ok (rows, s')
      → sum_by w rows ≡ grown r o n
  sum_by-report none n e s s' rows h = ground arith
  sum_by-report (some p) n e s s' rows h = law.exact p n e s s' rows h

module _ {K C E S R : Type 0} ⦃q : Eq K⦄ (emit : C → C → E → S → Result (List R × S))
    {c : Counting C} (r : Reading c) (w : R → ℕ) (law : Reports r w emit) where
  sum_by-report_all :
      (first : Dict K E) (old items : Dict K C) (s s' : S) (rows : List R)
      → report_all emit first old items s ≡ ok (rows, s')
      → sum_by w rows ≡ growth r old items
  unfolding report_all
  sum_by-report_all first old [] s s' rows h = ground arith
  sum_by-report_all first old ((k, n) ∷ items) s s' rows h =
      let (e, more, t, rest, _, reported, ran, joined) =
        report_all-cons emit first old k n items s h in
      let head = sum_by-report emit r w law (get k old) n e s t more reported in
      let tail = sum_by-report_all first old items t s' rest ran in
      rw joined (sum_by-append w more rest ∙ cc (head, tail))

module _ {K C E : Type 0} ⦃q : Eq K⦄ {c : Counting C} (r : Reading c) (identity : E → K)
    (counters : E → C) where
  -- Two dumps with the same flows, where the counter of no flow goes down.
  pub record Follows (old new : List E) : Type 0 where
    pub same :
        (k : K)
        → is_some (first_of_identity c identity counters k old)
          ≡ is_some (first_of_identity c identity counters k new)
    pub rises :
        (k : K)
        → sum_of_identity c identity counters r k old ≤ sum_of_identity c identity counters r k new

  Follows-Continues :
      (old new : List E)
      → Follows old new
      → Continues r (totals_of c identity counters old) (totals_of c identity counters new)
  Follows-Continues old new h = record {
    same = λ k. cc (
      has-aggregate c identity counters k old,
      has-aggregate c identity counters k new,
      h.same k,
    );
    rises = λ k. omega (
      arith,
      read-aggregate c identity counters r k old,
      read-aggregate c identity counters r k new,
      h.rises k,
    );
  }

  module _ {S R : Type 0} (emit : C → C → E → S → Result (List R × S)) (w : R → ℕ)
      (law : Reports r w emit) where
    -- The rows of a checkpoint and the counter in the dump before add up to the counter in its dump.
    pub read_flows-growth :
        (old new : List E) (previous : Dict K C) (s : S) {p : Dict K C} {s' : S} {rows : List R}
        → read_flows emit c identity counters new previous s ≡ ok (p, s', rows)
        → ((k : K) → get k previous ≡ get k (totals_of c identity counters old))
        → Follows old new
        → sum_by w rows + sum_by (λ e. r.read (counters e)) old
          ≡ sum_by (λ e. r.read (counters e)) new
    read_flows-growth old new previous s {p} {s'} {rows} h base f =
        let t = totals_of c identity counters new in
        let t0 = totals_of c identity counters old in
        let (ran, _) = read_flows-eq-ok emit c identity counters new previous s h in
        omega (
          arith,
          sum_by-report_all emit r w law (first_of c identity counters new) previous t s s' rows
              ran,
          growth-Agree r t previous t0 (aggregate-Distinct c identity counters new) (λ k _. base k),
          growth-total r t t0 (aggregate-Distinct c identity counters new)
              (aggregate-Distinct c identity counters old) (Follows-Continues old new f),
          sum_by-aggregate c identity counters r old,
          sum_by-aggregate c identity counters r new,
        )
