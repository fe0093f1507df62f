-- ===== src/Collector/Opened.antt =====
-- What a collector leaves attached when its constructor returns or raises, and when it is closed.
use ebpf_udp_tcp_analyzer.Base.{
  ℕ, ◌≡◌, ◌≢◌, ◌⊎◌, refl, sym, ap, ◌∙◌, inl, inr, Bool, true, false, Bool-cases, arith,
}
use mathlib.Core.Path.{subst}
use ebpf_udp_tcp_analyzer.Errors.{Error, Result, ok, err}
use ebpf_udp_tcp_analyzer.Collector.Setup.{Delivery, requested_mode}
use ebpf_udp_tcp_analyzer.Loaders.Status.{ReceiveStatus}
use ebpf_udp_tcp_analyzer.Loaders.Attachment.{Attachment, running, stops, cut_short, Startup}
use ebpf_udp_tcp_analyzer.Loaders.Detached.{IsReleased, detach_held}
use ebpf_udp_tcp_analyzer.Loaders.Received.{
  ReceiveOutcome, attached, failed, not_launched, interrupted, unread, unstopped,
  attach_receive-ReceiveOutcome,
}
use ebpf_udp_tcp_analyzer.Loaders.Tc.{
  Tc, IsPermitted, attach_tc, detach_tc-cleared, attach_tc-attached,
}
use ebpf_udp_tcp_analyzer.Collector.Open.{
  is_exception, Request, Surroundings, Attachments, starts_loader, is_ok, open_delivery,
  after_selection, after_tc, try_open, release_receive, release_tc, then_tc, clean_up, cleaned,
  open_collector, close_collector,
}

-- The receive loader can be stopped, and the wait for its line is not cut short.
pub record IsObedient (s : Startup) : Type 0 where
  pub can : s.signalled ≡ stops
  pub whole : (e : Error) → s.reading ≢ cut_short e

module _ (T : Tc) (law : IsPermitted T) where
  -- A running loader is one that the collector holds, and can stop.
  abbrev pub IsHeld : Attachments T → Type 0
  IsHeld a =
      a.receive.child ≡ running
      → (a.has_receive ≡ true) × (a.receive.has_process ≡ true) × (a.receive.signalled ≡ stops)

  abbrev pub filter_stands : Attachments T → Bool
  filter_stands a = T.has_filter a.tc.kernel

  release_receive-stopped :
      (a : Attachments T)
      → IsHeld a
      → ((release_receive T a).0 ≡ ok tt) × ((release_receive T a).1.receive.child ≢ running)
  unfolding release_receive
  release_receive-stopped a held = elim (Bool-cases a.has_receive) [
    | inl has ↦
        let (ran, released) = detach_held a.receive (λ e. ((held e).1, (held e).2)) in
        rw has (ran, released.no_child)
    | inr lacks ↦ rw lacks (refl, λ e. absurd (ground (arith, lacks, held e)))
  ]

  abbrev attached_by :
      Result ReceiveStatus → Attachment ReceiveStatus → Attachments T → Attachments T
  attached_by status receive a = record a { receive = receive; has_receive = is_ok status }

  outcome-IsHeld :
      (s : Startup) (a : Attachments T) (status : Result ReceiveStatus)
      (receive : Attachment ReceiveStatus)
      → IsObedient s
      → ReceiveOutcome s status receive
      → IsHeld (attached_by status receive a)
  outcome-IsHeld s a status receive obeys (attached got same here h w) e =
      (rw same refl, h.process, w ∙ obeys.can)
  outcome-IsHeld s a status receive obeys (failed same released) e = absurd (released.no_child e)
  outcome-IsHeld s a status receive obeys (not_launched _ _ _ same released) e =
      absurd (released.no_child e)
  outcome-IsHeld s a status receive obeys (interrupted f cut _ _) e = absurd (obeys.whole f cut)
  outcome-IsHeld s a status receive obeys (unread _ _ _ _ h) e = absurd (h.no_child e)
  outcome-IsHeld s a status receive obeys (unstopped f _ refused _ _) e =
      absurd (ground (arith, obeys.can, refused))

  open_delivery-IsHeld :
      (q : Request) (w : Surroundings) (a : Attachments T)
      → IsObedient w.startup
      → IsReleased a.receive
      → IsHeld (open_delivery T q w a).1 × ((open_delivery T q w a).1.tc ≡ a.tc)
  unfolding open_delivery
  open_delivery-IsHeld q w a obeys released =
      elim (Bool-cases (starts_loader (requested_mode q.has_enricher q.mode) q.attach)) [
        | inl starts ↦ rw starts (
          outcome-IsHeld w.startup a _ _ obeys
              (attach_receive-ReceiveOutcome w.startup a.receive released),
          refl,
        )
        | inr rests ↦ rw rests (λ e. absurd (released.no_child e), refl)
      ]

  after_selection-IsHeld :
      (r : Result ℕ) (q : Request) (w : Surroundings) (a : Attachments T)
      → IsObedient w.startup
      → IsReleased a.receive
      → IsHeld (after_selection T r q w a).1 × ((after_selection T r q w a).1.tc ≡ a.tc)
  unfolding after_selection
  after_selection-IsHeld (err e) q w a obeys released = (λ h. absurd (released.no_child h), refl)
  after_selection-IsHeld (ok map_id) q w a obeys released =
      open_delivery-IsHeld q w a obeys released

  after_tc-IsHeld :
      (r : Result (Unit {0})) (q : Request) (w : Surroundings) (a : Attachments T)
      → IsObedient w.startup
      → IsReleased a.receive
      → IsHeld (after_tc T r q w a).1 × ((after_tc T r q w a).1.tc ≡ a.tc)
  unfolding after_tc
  after_tc-IsHeld (err e) q w a obeys released = (λ h. absurd (released.no_child h), refl)
  after_tc-IsHeld (ok done) q w a obeys released =
      after_selection-IsHeld w.selected q w a obeys released

  after_tc-ok :
      (r : Result (Unit {0})) (q : Request) (w : Surroundings) (a : Attachments T) (d : Delivery)
      → (after_tc T r q w a).0 ≡ ok d
      → r ≡ ok tt
  unfolding after_tc
  after_tc-ok (err e) q w a d h = absurd (ground (arith, h))
  after_tc-ok (ok done) q w a d h = refl

  try_open-IsHeld :
      (q : Request) (w : Surroundings) (a : Attachments T)
      → IsObedient w.startup
      → IsReleased a.receive
      → IsHeld (try_open T q w a).1
        × ((d : Delivery)
            → (try_open T q w a).0 ≡ ok d
            → q.attach ≡ true
            → filter_stands (try_open T q w a).1 ≡ true)
  unfolding try_open
  try_open-IsHeld q w a obeys released = elim (Bool-cases q.attach) [
    | inl on ↦
        let r = (attach_tc T w.is_object_there a.tc).0 in
        let tc = (attach_tc T w.is_object_there a.tc).1 in
        let (held, same) = after_tc-IsHeld r q w (record a { tc = tc }) obeys released in
        let branch : try_open T q w a ≡ after_tc T r q w (record a { tc = tc }) = simp on refl in
        rw branch (
          held,
          λ d h asked.
              (ap (λ t. T.has_filter t.kernel) same
                ∙ attach_tc-attached T law w.is_object_there a.tc
                    (after_tc-ok r q w (record a { tc = tc }) d h)),
        )
    | inr off ↦
        let branch : try_open T q w a ≡ after_tc T (ok tt) q w a = simp off refl in
        rw branch (
          (after_tc-IsHeld (ok tt) q w a obeys released).0,
          λ d h asked. absurd (ground (arith, off, asked)),
        )
  ]

  -- No receive loader runs, and where the collector attaches, no filter stands.
  abbrev pub IsClear : Bool → Attachments T → Type 0
  IsClear attach a = (a.receive.child ≢ running) × (attach ≡ true → filter_stands a ≡ false)

  release_tc-cleared :
      (a : Attachments T)
      → ((release_tc T a).0 ≡ ok tt)
        × ((release_tc T a).1.receive ≡ a.receive)
        × (filter_stands (release_tc T a).1 ≡ false)
  unfolding release_tc
  release_tc-cleared a = let (ran, gone) = detach_tc-cleared T law a.tc in (ran, refl, gone)

  then_tc-IsClear :
      (attach : Bool) (r : Result (Unit {0})) (a : Attachments T)
      → r ≡ ok tt
      → a.receive.child ≢ running
      → ((then_tc T attach (r, a)).0 ≡ ok tt) × IsClear attach (then_tc T attach (r, a)).1
  unfolding then_tc
  then_tc-IsClear false r a ran quiet = (ran, (quiet, λ asked. absurd (ground (arith, asked))))
  then_tc-IsClear true (err e) a ran quiet = absurd (ground (arith, ran))
  then_tc-IsClear true (ok done) a ran quiet =
      let (deleted, same, gone) = release_tc-cleared a in
      (
        deleted,
        (λ h. quiet (sym (ap (λ (x : Attachment ReceiveStatus). x.child) same) ∙ h), λ asked. gone),
      )

  both_stopped :
      (attach : Bool) (a : Attachments T)
      → IsHeld a
      → ((then_tc T attach (release_receive T a)).0 ≡ ok tt)
        × IsClear attach (then_tc T attach (release_receive T a)).1
  both_stopped attach a held =
      let (ran, quiet) = release_receive-stopped a held in
      then_tc-IsClear attach (release_receive T a).0 (release_receive T a).1 ran quiet

  clean_up-IsClear :
      (attach : Bool) (e : Error) (a : Attachments T)
      → IsHeld a
      → ((clean_up T attach e a).0 ≡ err e) × IsClear attach (clean_up T attach e a).1
  unfolding clean_up
  clean_up-IsClear attach e a held =
      let (ran, clear) = both_stopped attach a held in (rw ran refl, clear)

  -- A constructor that returns has its filter, one that raises an exception leaves nothing behind,
  -- and a signal leaves everything as it is.
  abbrev pub Opened : Request → Attachments T → Result Delivery → Attachments T → Type 0
  Opened q left (ok d) a = q.attach ≡ true → filter_stands a ≡ true
  Opened q left (err e) a =
      ((is_exception e ≡ true) × IsClear q.attach a) ⊎ ((is_exception e ≡ false) × (a ≡ left))

  cleaned-Opened :
      (q : Request) (r : Result Delivery) (a : Attachments T)
      → IsHeld a
      → ((d : Delivery) → r ≡ ok d → q.attach ≡ true → filter_stands a ≡ true)
      → Opened q a (cleaned T q.attach (r, a)).0 (cleaned T q.attach (r, a)).1
        × IsHeld (cleaned T q.attach (r, a)).1
  unfolding cleaned
  cleaned-Opened q (ok d) a held has = (has d refl, held)
  cleaned-Opened q (err e) a held has = elim (Bool-cases (is_exception e)) [
    | inr signal ↦ simp signal (inr (refl, refl), held)
    | inl caught ↦
        let (raised, clear) = clean_up-IsClear q.attach e a held in
        simp caught (
          subst (λ r. Opened q a r (clean_up T q.attach e a).1) (sym raised) (inl (caught, clear)),
          λ h. absurd (clear.0 h),
        )
  ]

  close_collector-IsClear :
      (q : Request) (a : Attachments T)
      → IsHeld a
      → q.detach_on_close ≡ true
      → ((close_collector T q a).0 ≡ ok tt) × IsClear true (close_collector T q a).1
  unfolding close_collector
  close_collector-IsClear q a held asked = simp asked (both_stopped true a held)

-- Where the commands of `tc` have the rights they need, and the receive loader can be stopped and
-- the wait for its line is not cut short: a collector whose constructor returns has its filter, if it
-- attaches; one whose constructor raises an exception has left no receive loader running, and no
-- filter, if it attaches; one whose constructor raises a signal or an exit, which `except Exception`
-- does not catch, leaves what it had attached as it was; and closing any of these, where it is to
-- detach, raises nothing and leaves neither a running receive loader nor a filter, whether this
-- collector has attached it or not.
pub open_collector-Opened :
    (T : Tc) (law : IsPermitted T) (q : Request) (w : Surroundings) (a : Attachments T)
    → IsObedient w.startup
    → IsReleased a.receive
    → Opened T law q (try_open T q w a).1 (open_collector T q w a).0 (open_collector T q w a).1
      × (q.detach_on_close ≡ true
          → ((close_collector T q (open_collector T q w a).1).0 ≡ ok tt)
            × IsClear T law true (close_collector T q (open_collector T q w a).1).1)
unfolding open_collector
open_collector-Opened T law q w a obeys released =
    let (held, has) = try_open-IsHeld T law q w a obeys released in
    let (opened, still) =
      cleaned-Opened T law q (try_open T q w a).0 (try_open T q w a).1 held has in
    (opened, close_collector-IsClear T law q (open_collector T q w a).1 still)
