-- ===== src/Cli/Ends.antt =====
-- When the loop ends.
use ebpf_udp_tcp_analyzer.Base.{
  ℕ, zero, suc, ◌+◌, ◌*◌, ◌≤◌, ◌<◌, ◌≡◌, refl, ◌⊎◌, inl, inr, ◌∙◌, Bool, true, false, not, ◌||◌,
  Option, none, some, List, arith,
}
use mathlib.Core.Path.{subst}
use ebpf_udp_tcp_analyzer.Errors.{Result, Result-cases}
use ebpf_udp_tcp_analyzer.Cli.Loop.{Pass, is_late, pass_body, loop}
use ebpf_udp_tcp_analyzer.Cli.Turn.{Ends, ended, went_on, turn}

-- A sleep takes at least the interval that it is asked for, and the clock starts at `start`.
pub record IsPaced {World A S : Type 0} (bucket_ms start : ℕ) (passes : ℕ → Pass World A S)
    : Type 0 where
  pub starts : start ≤ (passes 0).now
  pub sleeps : (n : ℕ) → (passes n).now + bucket_ms ≤ (passes (suc n)).now

clock :
    {World A S : Type 0} (bucket_ms start k : ℕ) (passes : ℕ → Pass World A S)
    → IsPaced bucket_ms start passes
    → start + k * bucket_ms ≤ (passes k).now
clock bucket_ms start zero passes paced = omega (arith, paced.starts)
clock bucket_ms start (suc k) passes paced =
    omega (arith, paced.sleeps k, clock bucket_ms start k passes paced)

late :
    {World A S : Type 0} (bucket_ms start duration k : ℕ) (passes : ℕ → Pass World A S)
    → IsPaced bucket_ms start passes
    → duration ≤ k * bucket_ms
    → (not true || is_late (some (start + duration)) (passes k).now) ≡ true
late bucket_ms start duration k passes paced long =
    ground (arith, clock bucket_ms start k passes paced)

ℕ-cases : (k : ℕ) → (k ≡ 0) ⊎ ((j : ℕ) × (k ≡ suc j))
ℕ-cases zero = inl refl
ℕ-cases (suc j) = inr (j, refl)

same_index : (k n m : ℕ) → k + n ≡ m → k ≡ 0 → m ≡ n
same_index k n m at first = omega arith

module _ {World A C S : Type 0} (read : World → C → Result (List A × C))
    (write : List A → S → Result S) (watch : Bool) (deadline : Option ℕ)
    (passes : ℕ → Pass World A S) where
  -- Fuel for the passes up to one that ends is enough.
  pub loop-Ends :
      (k fuel n m : ℕ) (c : C) (s : S)
      → k + n ≡ m
      → Ends watch deadline (passes m)
      → k < fuel
      → (out : Result (Unit {0}) × C × S) × (loop read write watch deadline passes fuel n c s
          ≡ some out)
  loop-Ends k zero n m c s at e h = absurd (omega arith)
  loop-Ends k (suc fuel) n m c s at e h = elim (turn read write watch deadline passes fuel n c s) [
    | ended r same why ↦ (_, same)
    | went_on ran on same ↦ elim (ℕ-cases k) [
      | inl first ↦
          absurd (on (subst (λ i. Ends watch deadline (passes i)) (same_index k n m at first) e))
      | inr (j, later) ↦
          let (out, rest) = loop-Ends j fuel (suc n) m _ _ (omega arith) e (omega arith) in
          (out, same ∙ rest)
    ]
  ]

one_pass :
    {World A C S : Type 0} (read : World → C → Result (List A × C)) (write : List A → S → Result S)
    (passes : ℕ → Pass World A S) (n : ℕ) (c : C) (s : S)
    → loop read write false none passes 1 n c s
      ≡ some (
        (pass_body read write (passes n) c s).0,
        (pass_body read write (passes n) c s).1,
        (pass_body read write (passes n) c s).2,
      )
unfolding loop
one_pass read write passes n c s = elim (Result-cases (pass_body read write (passes n) c s).0) [
  | inl (e, raised) ↦ rw (loop, raised) refl
  | inr (done, ran) ↦ rw (loop, ran) refl
]

-- Without `--watch` and `--duration` the loop makes one pass. With `--duration`, where a sleep takes
-- at least the interval, it returns within one pass more than there are intervals in the duration;
-- and it returns by the first pass in whose checkpoint a signal arrives.
pub loop_returns :
    {World A C S : Type 0} (read : World → C → Result (List A × C)) (write : List A → S → Result S)
    (passes : ℕ → Pass World A S) (c : C) (s : S) (bucket_ms start duration k : ℕ)
    → IsPaced bucket_ms start passes
    → duration ≤ k * bucket_ms
    → (loop read write false none passes 1 0 c s ≡ some (pass_body read write (passes 0) c s))
      × ((out : Result (Unit {0}) × C × S) × (loop read write true
              (some (start + duration))
              passes
              (suc k)
              0
              c
              s
            ≡ some out))
      × ((deadline : Option ℕ) (j : ℕ)
          → (passes j).is_stopped ≡ true
          → (out : Result (Unit {0}) × C × S) × (loop read write true deadline passes (suc j) 0 c s
              ≡ some out))
loop_returns read write passes c s bucket_ms start duration k paced long = (
  one_pass read write passes 0 c s,
  loop-Ends read write true (some (start + duration)) passes k (suc k) 0 k c s (omega arith)
      (inl (late bucket_ms start duration k passes paced long)) (omega arith),
  λ deadline j stopped.
      loop-Ends read write true deadline passes j (suc j) 0 j c s (omega arith) (inr stopped)
        (omega arith),
)
