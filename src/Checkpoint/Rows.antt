-- ===== src/Checkpoint/Rows.antt =====
-- What holds of every row of a checkpoint, the flows at first sight, and that no lookup fails.
use ebpf_udp_tcp_analyzer.Base.{
  ◌≡◌, refl, sym, ◌∙◌, true, Option, none, some, List, [], ◌∷◌, ◌++◌, Eq, ◌==◌, arith, inl, inr,
  Bool-cases, All, All-append,
}
use ebpf_udp_tcp_analyzer.Base.Dict.{Dict, get, has, is_some, restrict, Distinct}
use ebpf_udp_tcp_analyzer.Errors.{Result, ok}
use ebpf_udp_tcp_analyzer.Checkpoint.{Counting, report, read_flows}
use ebpf_udp_tcp_analyzer.Checkpoint.Sums.{
  totals_of, first_of, first_of_identity, has-aggregate, first_entry-aggregate, aggregate-Distinct,
}
use ebpf_udp_tcp_analyzer.Checkpoint.Baseline.{
  report_all, report_all-cons, read_flows-eq-ok, read_flows-report_all, put_all,
}

module _ {C E S R : Type 0} (emit : C → C → E → S → Result (List R × S)) (I : S → Type 0)
    (P : R → Type 0) where
  -- From a state with `I`, every row that `emit` makes has `P`, and `I` is kept.
  pub record Emits : Type 0 where
    pub each :
        (p n : C) (e : E) (s s' : S) (rows : List R)
        → I s
        → emit p n e s ≡ ok (rows, s')
        → All P rows × I s'

  All-report :
      (law : Emits) (o : Option C) (n : C) (e : E) (s s' : S) (rows : List R)
      → I s
      → report emit o n e s ≡ ok (rows, s')
      → All P rows × I s'
  All-report law none n e s s' [] i h = (tt, rw (← unchanged) i)
    where
      unchanged : s ≡ s'
      unchanged = cc
  All-report law none n e s s' (x ∷ rows) i h = absurd (ground arith)
  All-report law (some p) n e s s' rows i h = law.each p n e s s' rows i h

module _ {C E S R : Type 0} (emit : C → C → E → S → Result (List R × S)) where
  -- `emit` raises nothing on entries that satisfy `Q`.
  pub record Total (Q : E → Type 0) : Type 0 where
    pub runs :
        (p n : C) (e : E) (s : S)
        → Q e
        → (rows : List R) × (s' : S) × (emit p n e s ≡ ok (rows, s'))

  report_total :
      (Q : E → Type 0) (law : Total Q) (o : Option C) (n : C) (e : E) (s : S)
      → Q e
      → (rows : List R) × (s' : S) × (report emit o n e s ≡ ok (rows, s'))
  report_total Q law none n e s good = ([], s, refl)
  report_total Q law (some p) n e s good = law.runs p n e s good

module _ {K C E S R : Type 0} ⦃q : Eq K⦄ (emit : C → C → E → S → Result (List R × S)) where
  All-report_all :
      (I : S → Type 0) (P : R → Type 0) (law : Emits emit I P) (first : Dict K E)
      (old items : Dict K C) (s s' : S) (rows : List R)
      → I s
      → report_all emit first old items s ≡ ok (rows, s')
      → All P rows
  unfolding report_all
  All-report_all I P law first old [] s s' [] i h = tt
  All-report_all I P law first old [] s s' (x ∷ rows) i h = absurd (ground arith)
  All-report_all I P law first old ((k, n) ∷ items) s s' rows i h =
      let (e, more, t, rest, _, reported, ran, joined) =
        report_all-cons emit first old k n items s h in
      let (head, i') = All-report emit I P law (get k old) n e s t more i reported in
      let tail = All-report_all I P law first old items t s' rest i' ran in
      rw joined (All-append P more rest head tail)

  -- What `emit` ensures of its rows holds of every row of a checkpoint.
  pub All-read_flows :
      (I : S → Type 0) (P : R → Type 0) (law : Emits emit I P) (c : Counting C) (identity : E → K)
      (counters : E → C) (entries : List E) (previous : Dict K C) (s s' : S) {p : Dict K C}
      (rows : List R)
      → I s
      → read_flows emit c identity counters entries previous s ≡ ok (p, s', rows)
      → All P rows
  All-read_flows I P law c identity counters entries previous s s' rows i h =
      All-report_all I P law (first_of c identity counters entries) previous
        (totals_of c identity counters entries) s s' rows i
        (read_flows-eq-ok emit c identity counters entries previous s h).0

  -- The flows that have totals and no baseline report nothing and leave the state.
  report_all_unseen :
      (first : Dict K E) (old items : Dict K C) (s s' : S) (rows : List R)
      → ((k : K) → has k items ≡ true → get k old ≡ none)
      → Distinct items
      → report_all emit first old items s ≡ ok (rows, s')
      → (rows ≡ []) × (s ≡ s')
  unfolding report_all get
  report_all_unseen first old [] s s' rows new u h = ground arith
  report_all_unseen first old ((k, n) ∷ items) s s' rows new u h =
      let (e, more, t, rest, _, reported, ran, joined) =
        report_all-cons emit first old k n items s h in
      let unseen : get k old ≡ none = ground (arith, q.eqb_iff k k, new k) in
      let quiet : report emit none n e s ≡ ok (more, t) = rw unseen at reported in
      let (nothing, same) =
        report_all_unseen first old items t s' rest (λ j here. ground (arith, q.eqb_iff k j, new j))
          u.1 ran in
      (ground arith, ground arith)

  -- A checkpoint whose flows have no baseline yet reports nothing: it only seeds the baseline.
  pub read_flows_unseen :
      (c : Counting C) (identity : E → K) (counters : E → C) (entries : List E)
      (previous : Dict K C) (s s' : S) {p : Dict K C} (rows : List R)
      → ((k : K)
          → is_some (first_of_identity c identity counters k entries) ≡ true
          → get k previous ≡ none)
      → read_flows emit c identity counters entries previous s ≡ ok (p, s', rows)
      → (rows ≡ []) × (s ≡ s')
  read_flows_unseen c identity counters entries previous s s' rows new h =
      report_all_unseen (first_of c identity counters entries) previous
        (totals_of c identity counters entries) s s' rows
        (λ k here. new k (sym (has-aggregate c identity counters k entries) ∙ here))
        (aggregate-Distinct c identity counters entries)
        (read_flows-eq-ok emit c identity counters entries previous s h).0

  abbrev Finds : (E → Type 0) → Dict K E → Dict K C → Type 0
  Finds Q first items = (k : K) → has k items ≡ true → (e : E) × (get k first ≡ some e) × Q e

  report_all_total :
      (Q : E → Type 0) (law : Total emit Q) (first : Dict K E) (old items : Dict K C) (s : S)
      → Finds Q first items
      → (rows : List R) × (s' : S) × (report_all emit first old items s ≡ ok (rows, s'))
  unfolding report_all get
  report_all_total Q law first old [] s found = ([], s, refl)
  report_all_total Q law first old ((k, n) ∷ items) s found =
      let (e, there, good) = found k (ground (arith, q.eqb_iff k k)) in
      let (more, t, reported) = report_total emit Q law (get k old) n e s good in
      let (rest, s', ran) =
        report_all_total Q law first old items t
          (λ j here. found j (ground (arith, q.eqb_iff k j))) in
      (more ++ rest, s', rw (there, reported, ran))

  first_of_identity-All :
      (Q : E → Type 0) (c : Counting C) (identity : E → K) (counters : E → C) (k : K)
      (entries : List E)
      → All Q entries
      → is_some (first_of_identity c identity counters k entries) ≡ true
      → (e : E) × (first_of_identity c identity counters k entries ≡ some e) × Q e
  first_of_identity-All Q c identity counters k [] good h = absurd (ground arith)
  first_of_identity-All Q c identity counters k (e ∷ es) good h =
      elim (Bool-cases (identity e == k)) [
        | inl here ↦ (e, rw here, good.0)
        | inr away ↦
            let (e', found, good') =
              first_of_identity-All Q c identity counters k es good.1 (rw away at h) in
            (e', rw away found, good')
      ]

  -- A checkpoint over good entries raises nothing: in particular `first_entry[identity]` is there.
  pub read_flows_total :
      (Q : E → Type 0) (law : Total emit Q) (c : Counting C) (identity : E → K) (counters : E → C)
      (entries : List E) (previous : Dict K C) (s : S)
      → All Q entries
      → (p : Dict K C) × (rows : List R) × (s' : S) × (read_flows emit c identity counters entries
            previous s
          ≡ ok (p, s', rows))
  read_flows_total Q law c identity counters entries previous s good =
      let found : Finds Q (first_of c identity counters entries)
          (totals_of c identity counters entries) =
        λ k here.
          (let (e, there, ok_e) =
              first_of_identity-All Q c identity counters k entries good
                (sym (has-aggregate c identity counters k entries) ∙ here) in
            (e, first_entry-aggregate c identity counters k entries ∙ there, ok_e)) in
      let totals = totals_of c identity counters entries in
      let final = put_all totals (restrict previous totals) in
      let (rows, s', ran) =
        report_all_total Q law (first_of c identity counters entries) previous
          (totals_of c identity counters entries) s found in
      (final, rows, s', rw (read_flows-report_all emit c identity counters entries previous s, ran))
