-- ===== src/Cli/Turn.antt =====
-- What one turn of the loop does.
use ebpf_udp_tcp_analyzer.Base.{
  ℕ, suc, ◌≡◌, refl, ◌⊎◌, inl, inr, Bool, true, false, not, ◌||◌, Option, some, List, arith,
  Bool-cases,
}
use ebpf_udp_tcp_analyzer.Errors.{Error, Result, ok, err, Result-cases}
use ebpf_udp_tcp_analyzer.Cli.Loop.{Pass, is_late, pass_body, loop}

-- The loop does not go on after this pass, whatever its checkpoint does.
abbrev pub Ends : {World A S : Type 0} → Bool → Option ℕ → Pass World A S → Type 0
Ends watch deadline p = ((not watch || is_late deadline p.now) ≡ true) ⊎ (p.is_stopped ≡ true)

module _ {World A C S : Type 0} (read : World → C → Result (List A × C))
    (write : List A → S → Result S) (watch : Bool) (deadline : Option ℕ)
    (passes : ℕ → Pass World A S) where
  -- The test after a pass, or the sleep, ends the loop.
  abbrev pub EndsAfter : Pass World A S → Type 0
  EndsAfter p = ((not watch || is_late deadline p.now) ≡ true) ⊎ ((e : Error) × (p.slept ≡ err e))

  -- The loop stops before its m-th pass has done anything: after the pass before, or because the
  -- m-th pass raises, from this collector and storage.
  abbrev pub Stopped : ℕ → C → S → Type 0
  Stopped m c s =
      ((j : ℕ) × (m ≡ suc j) × EndsAfter (passes j))
      ⊎ ((e : Error) × ((pass_body read write (passes m) c s).0 ≡ err e))

  -- The loop ends with what the pass has left, or goes on from it.
  pub data Turn (fuel n : ℕ) (c : C) (s : S) : Type 0 where
    ended :
        (r : Result (Unit {0}))
        → loop read write watch deadline passes (suc fuel) n c s
          ≡ some
              (r, (pass_body read write (passes n) c s).1, (pass_body read write (passes n) c s).2)
        → ((e : Error) × ((pass_body read write (passes n) c s).0 ≡ err e))
          ⊎ (((pass_body read write (passes n) c s).0 ≡ ok tt) × EndsAfter (passes n))
        → Turn fuel n c s
    went_on :
        (pass_body read write (passes n) c s).0 ≡ ok tt
        → (Ends watch deadline (passes n) → ⊥)
        → loop read write watch deadline passes (suc fuel) n c s
          ≡ loop read write watch deadline passes fuel
              (suc n)
              (pass_body read write (passes n) c s).1
              (pass_body read write (passes n) c s).2
        → Turn fuel n c s

  not_ended :
      (n : ℕ) (c : C) (s : S)
      → (pass_body read write (passes n) c s).0 ≡ ok tt
      → (not watch || is_late deadline (passes n).now) ≡ false
      → Ends watch deadline (passes n)
      → ⊥
  unfolding pass_body
  not_ended n c s ran on (inl over) = absurd (ground (arith, over, on))
  not_ended n c s ran on (inr stopped) = absurd (ground (arith, stopped, ran))

  pub turn : (fuel n : ℕ) (c : C) (s : S) → Turn fuel n c s
  unfolding loop
  turn fuel n c s =
      let out = pass_body read write (passes n) c s in
      elim (Result-cases out.0) [
        | inl (e, raised) ↦ ended (err e) (rw (loop, raised) refl) (inl (e, raised))
        | inr (done, ran) ↦ elim (Bool-cases (not watch || is_late deadline (passes n).now)) [
          | inl over ↦ ended (ok tt) (rw (loop, ran, over) refl) (inr (ran, inl over))
          | inr on ↦ elim (Result-cases (passes n).slept) [
            | inl (e, raised) ↦
                ended (err e) (rw (loop, ran, on, raised) refl) (inr (ran, inr (e, raised)))
            | inr (woken, slept) ↦
                went_on ran (not_ended n c s ran on) (rw (loop, ran, on, slept) refl)
          ]
        ]
      ]
