-- ===== src/Cli/Completed.antt =====
-- The checkpoints and the writes of a loop that has ended.
use ebpf_udp_tcp_analyzer.Base.{
  ℕ, zero, suc, ◌+◌, ◌⊎◌, ◌≡◌, refl, ◌∙◌, sym, inl, inr, Bool, Option, none, some, List, [], ◌∷◌,
  arith, ap, Bool-cases,
}
use ebpf_udp_tcp_analyzer.Errors.{Error, Result, ok, err}
use ebpf_udp_tcp_analyzer.Cli.Loop.{
  Pass, pass_body, after_read, after_emit, written, after_write, loop, reads, writes,
}
use ebpf_udp_tcp_analyzer.Cli.Turn.{EndsAfter, Stopped, ended, went_on, turn}

-- The worlds of k passes from the n-th on.
abbrev pub worlds : {World A S : Type 0} → (ℕ → Pass World A S) → ℕ → ℕ → List World
worlds passes n zero = []
worlds passes n (suc k) = (passes n).world ∷ worlds passes (suc n) k

module _ {World A C S : Type 0} (read : World → C → Result (List A × C))
    (write : List A → S → Result S) where
  -- A pass that raises stores nothing, unless a signal cuts its write short; one that does not has
  -- read a checkpoint and written it.
  pub data Passed (p : Pass World A S) (c : C) (s : S) (out : Result (Unit {0}) × C × S)
      : Type 0 where
    raised : out.2 ≡ s → (out.0 ≡ ok tt → ⊥) → Passed p c s out
    cut_off :
        (leave : List A → S → S) (rows : List A) (c' : C)
        → p.cut ≡ some leave
        → read p.world c ≡ ok (rows, c')
        → out.2 ≡ leave rows s
        → (out.0 ≡ ok tt → ⊥)
        → Passed p c s out
    wrote :
        (rows : List A)
        → out.0 ≡ ok tt
        → read p.world c ≡ ok (rows, out.1)
        → write rows s ≡ ok out.2
        → Passed p c s out

  after_write-Passed :
      (p : Pass World A S) (c c' : C) (s : S) (rows : List A) (r : Result S)
      → read p.world c ≡ ok (rows, c')
      → write rows s ≡ r
      → Passed p c s (after_write read write r c' s)
  unfolding after_write
  after_write-Passed p c c' s rows (err e) h g = raised refl (λ i. absurd (ground (arith, i)))
  after_write-Passed p c c' s rows (ok s') h g = wrote rows refl h g

  written-Passed :
      (p : Pass World A S) (cut : Option (List A → S → S)) (c c' : C) (s : S) (rows : List A)
      → p.cut ≡ cut
      → read p.world c ≡ ok (rows, c')
      → Passed p c s (written read write cut rows c' s)
  unfolding written
  written-Passed p none c c' s rows here h = after_write-Passed p c c' s rows _ h refl
  written-Passed p (some leave) c c' s rows here h =
      cut_off leave rows c' here h refl (λ i. absurd (ground (arith, i)))

  after_emit-Passed :
      (p : Pass World A S) (c c' : C) (s : S) (rows : List A) (r : Result (Unit {0}))
      → read p.world c ≡ ok (rows, c')
      → Passed p c s (after_emit read write p r rows c' s)
  unfolding after_emit
  after_emit-Passed p c c' s rows (err e) h = raised refl (λ i. absurd (ground (arith, i)))
  after_emit-Passed p c c' s rows (ok done) h = written-Passed p p.cut c c' s rows refl h

  after_read-Passed :
      (p : Pass World A S) (c : C) (s : S) (r : Result (List A × C))
      → read p.world c ≡ r
      → Passed p c s (after_read read write p r c s)
  unfolding after_read
  after_read-Passed p c s (err e) h = raised refl (λ i. absurd (ground (arith, i)))
  after_read-Passed p c s (ok (rows, c')) h = after_emit-Passed p c c' s rows p.emitted h

  pass_body-Passed :
      (p : Pass World A S) (c : C) (s : S) → Passed p c s (pass_body read write p c s)
  unfolding pass_body
  pass_body-Passed p c s = elim (Bool-cases p.is_stopped) [
    | inl stopped ↦ simp stopped (raised refl (λ i. absurd (ground (arith, i))))
    | inr on ↦ simp on (after_read-Passed p c s _ refl)
  ]

module _ {World A C S : Type 0} (read : World → C → Result (List A × C))
    (write : List A → S → Result S) (watch : Bool) (deadline : Option ℕ)
    (passes : ℕ → Pass World A S) where
  -- What the m-th pass leaves of the storage `t`, if it raises: nothing has changed, or a signal has
  -- cut short the write of its rows.
  abbrev pub Left : ℕ → C → S → S → Type 0
  Left m c t left =
      (left ≡ t)
      ⊎ ((leave : List A → S → S) × (rows : List A) × (c' : C) × ((passes m).cut ≡ some leave)
          × (read (passes m).world c ≡ ok (rows, c'))
          × (left ≡ leave rows t))

  -- The writes of a loop are those of the checkpoints it has read, one batch for each, up to where it
  -- stops.
  pub data Completed (n : ℕ) (c : C) (s : S) (out : Result (Unit {0}) × C × S) : Type 0 where
    completed :
        (k m : ℕ) (batches : List (List A)) (c' : C) (t : S)
        → k + n ≡ m
        → reads read write (worlds passes n k) c ≡ ok (batches, c')
        → writes read write batches s ≡ ok t
        → Left m c' t out.2
        → Stopped read write watch deadline passes m c' t
        → Completed n c s out

  raised-Completed :
      (n : ℕ) (c : C) (s : S) (out : Result (Unit {0}) × C × S) (e : Error)
      → Left n c s out.2
      → (pass_body read write (passes n) c s).0 ≡ err e
      → Completed n c s out
  unfolding reads writes
  raised-Completed n c s out e left h =
      completed 0 n [] c s (omega arith) refl refl left (inr (e, h))

  wrote-Completed :
      (n : ℕ) (c c' : C) (s : S) (out : Result (Unit {0}) × C × S) (rows : List A)
      → read (passes n).world c ≡ ok (rows, c')
      → write rows s ≡ ok out.2
      → EndsAfter read write watch deadline passes (passes n)
      → Completed n c s out
  unfolding reads writes
  wrote-Completed n c c' s out rows h g ends =
      completed 1 (suc n) (rows ∷ []) c' out.2 (omega arith) (rw h refl) (rw g refl) (inl refl)
        (inl (n, refl, ends))

  -- The pass that the loop ends with.
  last-Completed :
      (n : ℕ) (c : C) (s : S) (out : Result (Unit {0}) × C × S)
      → (pass_body read write (passes n) c s).2 ≡ out.2
      → Passed read write (passes n) c s (pass_body read write (passes n) c s)
      → ((e : Error) × ((pass_body read write (passes n) c s).0 ≡ err e))
        ⊎ (((pass_body read write (passes n) c s).0 ≡ ok tt)
            × EndsAfter read write watch deadline passes (passes n))
      → Completed n c s out
  last-Completed n c s out left (raised kept not_ok) (inl (e, h)) =
      raised-Completed n c s out e (inl (sym left ∙ kept)) h
  last-Completed n c s out left (cut_off leave rows c' cut h kept not_ok) (inl (e, h')) =
      raised-Completed n c s out e (inr (leave, rows, c', cut, h, sym left ∙ kept)) h'
  last-Completed n c s out left (raised kept not_ok) (inr (fine, ends)) = absurd (not_ok fine)
  last-Completed n c s out left (cut_off leave rows c' cut h kept not_ok) (inr (fine, ends)) =
      absurd (not_ok fine)
  last-Completed n c s out left (wrote rows fine h g) (inl (e, raises)) =
      absurd (ground (arith, fine, raises))
  last-Completed n c s out left (wrote rows fine h g) (inr (same, ends)) =
      wrote-Completed n c _ s out rows h (g ∙ ap ok left) ends

  more-Completed :
      (n : ℕ) (c : C) (s : S) (middle out : Result (Unit {0}) × C × S)
      → Passed read write (passes n) c s middle
      → middle.0 ≡ ok tt
      → Completed (suc n) middle.1 middle.2 out
      → Completed n c s out
  unfolding reads writes
  more-Completed n c s middle out (raised kept not_ok) fine rest = absurd (not_ok fine)
  more-Completed n c s middle out (cut_off leave rows c' cut h kept not_ok) fine rest =
      absurd (not_ok fine)
  more-Completed n c s middle out (wrote rows same h g) fine
        (completed k m batches c' t at hs gs left stop) =
      completed (suc k) m (rows ∷ batches) c' t (omega arith) (rw (h, hs) refl) (rw g gs) left stop

  pub loop-Completed :
      (fuel n : ℕ) (c : C) (s : S) (out : Result (Unit {0}) × C × S)
      → loop read write watch deadline passes fuel n c s ≡ some out
      → Completed n c s out
  unfolding loop
  loop-Completed zero n c s out h = absurd (ground (arith, h))
  loop-Completed (suc fuel) n c s out h =
      let passed = pass_body-Passed read write (passes n) c s in
      elim (turn read write watch deadline passes fuel n c s) [
        | ended r same how ↦
            let left : (
              r,
              (pass_body read write (passes n) c s).1,
              (pass_body read write (passes n) c s).2,
            )
                ≡ out =
              cc in
            last-Completed n c s out (ap (λ o. o.2) left) passed how
        | went_on ran on same ↦
            more-Completed n c s _ out passed ran
              (loop-Completed fuel (suc n) _ _ out (sym same ∙ h))
      ]
