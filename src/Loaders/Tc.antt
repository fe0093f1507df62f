-- ===== src/Loaders/Tc.antt =====
-- `TcBpfAttachment` of src/udp_analyzer/ebpf.py. The kernel, as `tc` changes it, is a parameter.
use ebpf_udp_tcp_analyzer.Base.{
  ℕ, ◌≡◌, refl, Bool, true, false, not, ◌&&◌, ◌==◌, nat_eq, if◌then◌else◌, Bool-cases, inl, inr,
  arith, sym, ap, ◌∙◌,
}
use ebpf_udp_tcp_analyzer.Errors.{Result, ok, err, runtime_error}

-- What `subprocess.run` reports of a command.
pub record Report : Type 0 where
  pub returncode : ℕ
  -- its standard error has "File exists" or "Exclusivity flag on"
  pub says_exists : Bool

-- The three `tc` commands on the interface of an attachment; `err` is a command that cannot be
-- started. `has_filter`: a filter stands at the preference of the attachment.
pub record Tc : Type 1 where
  pub State : Type 0
  pub qdisc_add : State → Result Report × State
  pub filter_add : State → Result Report × State
  pub filter_del : State → Result Report × State
  pub has_filter : State → Bool

-- Commands that run with the rights they need: a deletion leaves no filter, whether there was one or
-- not, an addition that reports success leaves one, and one that does not changes nothing.
pub record IsPermitted (T : Tc) : Type 0 where
  pub adds :
      (s : T.State)
      → (r : Report) × ((T.filter_add s).0 ≡ ok r)
        × ((r.returncode == 0) ≡ true → T.has_filter (T.filter_add s).1 ≡ true)
        × ((r.returncode == 0) ≡ false → T.has_filter (T.filter_add s).1 ≡ T.has_filter s)
  pub deletes :
      (s : T.State)
      → (r : Report) × ((T.filter_del s).0 ≡ ok r) × (T.has_filter (T.filter_del s).1 ≡ false)

module _ (T : Tc) where
  -- `self.attached`, and the kernel.
  pub record TcAttachment : Type 0 where
    pub attached : Bool
    pub kernel : T.State

  -- `detach`, by what the command reports.
  unfoldable pub deleted : Result Report → Bool → TcAttachment → Result (Unit {0}) × TcAttachment
  deleted (err e) ignore_missing a = (err e, a)
  deleted (ok r) ignore_missing a =
      if r.returncode == 0
      then (ok tt, record a { attached = false })
      else if ignore_missing
      then (ok tt, a)
      else (err runtime_error, a)

  unfoldable pub detach_tc : Bool → TcAttachment → Result (Unit {0}) × TcAttachment
  unfolding deleted
  detach_tc ignore_missing a =
      let (r, kernel) = T.filter_del a.kernel in
      deleted r ignore_missing (record a { kernel = kernel })

  -- `attach` after the filter has been added, with `check`.
  unfoldable pub filter_added : Result Report → TcAttachment → Result (Unit {0}) × TcAttachment
  filter_added (err e) a = (err e, a)
  filter_added (ok r) a =
      if r.returncode == 0 then (ok tt, record a { attached = true }) else (err runtime_error, a)

  -- `attach` after what stood at the preference has been deleted.
  unfoldable pub filter_cleared :
      Result (Unit {0}) → TcAttachment → Result (Unit {0}) × TcAttachment
  unfolding filter_added
  filter_cleared (err e) a = (err e, a)
  filter_cleared (ok done) a =
      let (r, kernel) = T.filter_add a.kernel in filter_added r (record a { kernel = kernel })

  -- `attach` after `tc qdisc add`: a qdisc that is there already is fine.
  unfoldable pub qdisc_added : Result Report → TcAttachment → Result (Unit {0}) × TcAttachment
  unfolding filter_cleared detach_tc
  qdisc_added (err e) a = (err e, a)
  qdisc_added (ok r) a =
      let (cleared, a') = detach_tc true a in
      if not (r.returncode == 0) && not r.says_exists
      then (err runtime_error, a)
      else filter_cleared cleared a'

  unfoldable pub attach_tc : Bool → TcAttachment → Result (Unit {0}) × TcAttachment
  unfolding qdisc_added
  attach_tc is_object_there a =
      let (r, kernel) = T.qdisc_add a.kernel in
      if not is_object_there
      then (err runtime_error, a)
      else qdisc_added r (record a { kernel = kernel })

  module _ (law : IsPermitted T) where
    -- Deleting without `ignore_missing` may raise, but either way leaves no filter.
    pub detach_tc-cleared :
        (a : TcAttachment)
        → ((detach_tc true a).0 ≡ ok tt) × (T.has_filter (detach_tc true a).1.kernel ≡ false)
    unfolding detach_tc
    detach_tc-cleared a =
        let (r, ran, gone) = law.deletes a.kernel in
        elim (Bool-cases (r.returncode == 0)) [
          | inl done ↦ (rw (ran, done) refl, rw (ran, done) gone)
          | inr missing ↦ (rw (ran, missing) refl, rw (ran, missing) gone)
        ]

    filter_cleared-attached :
        (r : Result (Unit {0})) (a : TcAttachment)
        → (filter_cleared r a).0 ≡ ok tt
        → T.has_filter (filter_cleared r a).1.kernel ≡ true
    unfolding filter_cleared
    filter_cleared-attached (err e) a h = absurd (ground (arith, h))
    filter_cleared-attached (ok done) a h =
        let (r, ran, there, not_there) = law.adds a.kernel in
        elim (Bool-cases (r.returncode == 0)) [
          | inl added ↦ rw (ran, added) (there added)
          | inr failed ↦
              let raises : (filter_cleared (ok done) a).0 ≡ err runtime_error =
                rw (ran, failed) refl in
              absurd (ground (arith, raises, h))
        ]

    qdisc_added-attached :
        (r : Result Report) (a : TcAttachment)
        → (qdisc_added r a).0 ≡ ok tt
        → T.has_filter (qdisc_added r a).1.kernel ≡ true
    unfolding qdisc_added
    qdisc_added-attached (err e) a h = absurd (ground (arith, h))
    qdisc_added-attached (ok r) a h =
        elim (Bool-cases (not (r.returncode == 0) && not r.says_exists)) [
          | inl refused ↦ absurd (ground (arith, refused, h))
          | inr fine ↦
              let cleared = detach_tc true a in
              let branch : qdisc_added (ok r) a ≡ filter_cleared cleared.0 cleared.1 =
                rw fine refl in
              rw branch
                (filter_cleared-attached cleared.0 cleared.1 (sym (ap (λ o. o.0) branch) ∙ h))
        ]

    -- An attachment that returns has a filter.
    pub attach_tc-attached :
        (there : Bool) (a : TcAttachment)
        → (attach_tc there a).0 ≡ ok tt
        → T.has_filter (attach_tc there a).1.kernel ≡ true
    unfolding attach_tc
    attach_tc-attached false a h = absurd (ground (arith, h))
    attach_tc-attached true a h =
        qdisc_added-attached (T.qdisc_add a.kernel).0
          (record a { kernel = (T.qdisc_add a.kernel).1 }) h
