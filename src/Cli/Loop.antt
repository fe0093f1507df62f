-- ===== src/Cli/Loop.antt =====
-- The loop of `run_analyzer` and `run_channel_analyzer`, over what reads a checkpoint and what
-- writes its rows.
use ebpf_udp_tcp_analyzer.Base.{
  ℕ, zero, suc, Bool, true, false, not, ◌||◌, Option, none, some, List, [], ◌∷◌, leb, if◌then◌else◌,
}
use ebpf_udp_tcp_analyzer.Errors.{Result, ok, err, keyboard_interrupt, ◌>>=◌}

-- What one pass of the loop meets. A signal arrives while a checkpoint is read or written, or as
-- an exception of the calls that print and sleep. Times are milliseconds of `time.monotonic()`.
pub record Pass (World A S : Type 0) : Type 0 where
  pub world : World
  pub is_stopped : Bool
  -- `emit_samples`
  pub emitted : Result (Unit {0})
  -- the clock at the test of the deadline
  pub now : ℕ
  -- what a signal in `write_samples`, if one arrives there, leaves of the storage
  pub cut : Option (List A → S → S)
  -- `time.sleep`
  pub slept : Result (Unit {0})

-- `deadline is not None and time.monotonic() >= deadline`
abbrev pub is_late : Option ℕ → ℕ → Bool
is_late none now = false
is_late (some deadline) now = leb deadline now

module _ {World A C S : Type 0} (read : World → C → Result (List A × C))
    (write : List A → S → Result S) where
  -- What is left of a pass: what it raised, if anything, the collector and the storage.
  abbrev pub After : Type 0
  After = Result (Unit {0}) × C × S

  unfoldable pub after_write : Result S → C → S → After
  after_write (err e) c s = (err e, c, s)
  after_write (ok s') c s = (ok tt, c, s')

  -- `write_samples`, with a signal or without.
  unfoldable pub written : Option (List A → S → S) → List A → C → S → After
  unfolding after_write
  written none rows c s = after_write (write rows s) c s
  written (some leave) rows c s = (err keyboard_interrupt, c, leave rows s)

  unfoldable pub after_emit : Pass World A S → Result (Unit {0}) → List A → C → S → After
  unfolding written
  after_emit p (err e) rows c s = (err e, c, s)
  after_emit p (ok done) rows c s = written p.cut rows c s

  unfoldable pub after_read : Pass World A S → Result (List A × C) → C → S → After
  unfolding after_emit
  after_read p (err e) c s = (err e, c, s)
  after_read p (ok (rows, c')) c s = after_emit p p.emitted rows c' s

  -- The body of the loop before its tests. A checkpoint that does not return leaves the
  -- collector as it was: only `close` follows, which reads nothing that a checkpoint sets.
  unfoldable pub pass_body : Pass World A S → C → S → After
  unfolding after_read
  pass_body p c s =
      let done = after_read p (read p.world c) c s in
      if p.is_stopped then (err keyboard_interrupt, c, s) else done

  -- The loop from its n-th pass on, with fuel for its passes. The handler raises when it sets
  -- `stopping`, so the test of that variable never finds it set.
  unfoldable pub loop : Bool → Option ℕ → (ℕ → Pass World A S) → ℕ → ℕ → C → S → Option After
  unfolding pass_body
  loop watch deadline passes zero n c s = none
  loop watch deadline passes (suc fuel) n c s =
      let (raised, c', s') = pass_body (passes n) c s in
      elim raised [
        | err e ↦ some (err e, c', s')
        | ok done ↦ elim (not watch || is_late deadline (passes n).now) [
          | true ↦ some (ok tt, c', s')
          | false ↦ elim (passes n).slept [
            | err e ↦ some (err e, c', s')
            | ok woken ↦ loop watch deadline passes fuel (suc n) c' s'
          ]
        ]
      ]

  -- Checkpoints one after another, with the batch of each.
  unfoldable pub reads : List World → C → Result (List (List A) × C)
  reads [] c = ok ([], c)
  reads (w ∷ ws) c = do
    (rows, c') ← read w c
    (batches, c'') ← reads ws c'
    ok (rows ∷ batches, c'')

  unfoldable pub writes : List (List A) → S → Result S
  writes [] s = ok s
  writes (rows ∷ batches) s = do s' ← write rows s; writes batches s'
