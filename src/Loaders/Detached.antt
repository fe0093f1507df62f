-- ===== src/Loaders/Detached.antt =====
-- What `detach` leaves of an attachment, by whether its loader can be stopped.
use ebpf_udp_tcp_analyzer.Base.{◌≡◌, ◌≢◌, ◌⊎◌, refl, inl, inr, true, false, none, Bool-cases, arith}
use ebpf_udp_tcp_analyzer.Errors.{Error, Result, ok, err}
use ebpf_udp_tcp_analyzer.Loaders.Attachment.{
  Child, not_started, running, exited, Signalled, stops, refuses, Attachment, end_child, detach,
  detach_raising,
}

-- No process, no file, and no loader running.
pub record IsReleased {A : Type 0} (a : Attachment A) : Type 0 where
  pub no_process : a.has_process ≡ false
  pub no_stderr : a.has_stderr ≡ false
  pub no_child : a.child ≢ running

-- The loader runs, and the attachment can stop it.
pub record IsHolding {A : Type 0} (a : Attachment A) : Type 0 where
  pub process : a.has_process ≡ true
  pub child : a.child ≡ running

-- The loader runs on, and the attachment has lost it.
pub record IsLost {A : Type 0} (a : Attachment A) : Type 0 where
  pub no_process : a.has_process ≡ false
  pub child : a.child ≡ running

-- The loader has ended, and the attachment has not noticed.
pub record IsStale {A : Type 0} (a : Attachment A) : Type 0 where
  pub process : a.has_process ≡ true
  pub no_child : a.child ≢ running

pub Signalled-cases : (w : Signalled) → (w ≡ stops) ⊎ ((e : Error) × (w ≡ refuses e))
Signalled-cases stops = inl refl
Signalled-cases (refuses e) = inr (e, refl)

pub not_running :
    {A : Type 0} (a : Attachment A) (c : Child) → c ≡ a.child → c ≢ running → a.child ≢ running
not_running a c e other here = other (cc)

end_child-IsReleased :
    {A : Type 0} (c : Child) (w : Signalled) (a : Attachment A)
    → c ≡ a.child
    → w ≡ stops
    → ((end_child c w a).0 ≡ ok tt) × IsReleased (end_child c w a).1
unfolding end_child
end_child-IsReleased running (refuses e) a here can = absurd (ground (arith, can))
end_child-IsReleased running stops a here can =
    (refl, record { no_process = refl; no_stderr = refl; no_child = λ h. ground (arith, h) })
end_child-IsReleased not_started w a here can = (
  refl,
  record {
    no_process = refl;
    no_stderr = refl;
    no_child = not_running a not_started here (λ h. ground (arith, h));
  },
)
end_child-IsReleased exited w a here can = (
  refl,
  record {
    no_process = refl;
    no_stderr = refl;
    no_child = not_running a exited here (λ h. ground (arith, h));
  },
)

end_child_refused :
    {A : Type 0} (c : Child) (w : Signalled) (a : Attachment A) (e : Error)
    → c ≡ running
    → w ≡ refuses e
    → end_child c w a ≡ (err e, record a { has_process = false; status = none })
unfolding end_child
end_child_refused c w a e here cannot = rw (here, cannot) refl

pub detach_refused :
    {A : Type 0} (a : Attachment A) (e : Error)
    → IsHolding a
    → a.signalled ≡ refuses e
    → detach a ≡ (err e, record a { has_process = false; status = none })
unfolding detach
detach_refused a e h cannot =
    simp (h.process, end_child_refused a.child a.signalled a e h.child cannot) refl

-- `detach` of a child that can be stopped.
pub detach-IsReleased :
    {A : Type 0} (a : Attachment A)
    → (a.child ≡ running → a.has_process ≡ true)
    → a.signalled ≡ stops
    → ((detach a).0 ≡ ok tt) × IsReleased (detach a).1
unfolding detach
detach-IsReleased a held can = elim (Bool-cases a.has_process) [
  | inl has ↦ simp has (end_child-IsReleased a.child a.signalled a refl can)
  | inr lacks ↦ simp lacks (
    refl,
    record {
      no_process = refl;
      no_stderr = refl;
      no_child = λ e. absurd (ground (arith, lacks, held e));
    },
  )
]

-- A child that has ended, or was never started, or that is not held, takes no signal.
pub end_child_kept :
    {A : Type 0} (c : Child) (w : Signalled) (a : Attachment A)
    → c ≡ a.child
    → c ≢ running
    → ((end_child c w a).0 ≡ ok tt) × IsReleased (end_child c w a).1
unfolding end_child
end_child_kept running w a same other = absurd (other refl)
end_child_kept not_started w a same other = (
  refl,
  record { no_process = refl; no_stderr = refl; no_child = not_running a not_started same other },
)
end_child_kept exited w a same other = (
  refl,
  record { no_process = refl; no_stderr = refl; no_child = not_running a exited same other },
)

pub Child-cases : (c : Child) → (c ≡ running) ⊎ (c ≢ running)
Child-cases running = inl refl
Child-cases not_started = inr (λ h. ground (arith, h))
Child-cases exited = inr (λ h. ground (arith, h))

-- `detach` of a child that is held and can be stopped, if it runs.
pub detach_held :
    {A : Type 0} (a : Attachment A)
    → (a.child ≡ running → (a.has_process ≡ true) × (a.signalled ≡ stops))
    → ((detach a).0 ≡ ok tt) × IsReleased (detach a).1
unfolding detach
detach_held a held = elim (Child-cases a.child) [
  | inl runs ↦ detach-IsReleased a (λ e. (held e).0) (held runs).1
  | inr other ↦ elim (Bool-cases a.has_process) [
    | inl has ↦ simp has (end_child_kept a.child a.signalled a refl other)
    | inr lacks ↦
        simp lacks (refl, record { no_process = refl; no_stderr = refl; no_child = other })
  ]
]

-- How `detach` of a running child, for an exception `e`, ends.
pub data Detached {A B : Type 0} (e : Error) (before : Attachment A) (r : Result B)
    (a : Attachment A) : Type 0 where
  released : r ≡ err e → IsReleased a → Detached e before r a
  lost :
      (refusal : Error)
      → before.signalled ≡ refuses refusal
      → r ≡ err refusal
      → IsLost a
      → a.signalled ≡ refuses refusal
      → a.has_stderr ≡ before.has_stderr
      → Detached e before r a

pub detach_raising-Detached :
    {A B : Type 0} (e : Error) (a : Attachment A)
    → IsHolding a
    → Detached {B = B} e a (detach_raising {B = B} e a).0 (detach_raising {B = B} e a).1
unfolding detach_raising
detach_raising-Detached e a h = elim (Signalled-cases a.signalled) [
  | inl can ↦
      let (ran, none_left) = detach-IsReleased a (λ c. h.process) can in
      released (rw ran refl) none_left
  | inr (refusal, cannot) ↦
      rw (detach_refused a refusal h cannot)
        (lost refusal cannot refl (record { no_process = refl; child = h.child }) cannot refl)
]
