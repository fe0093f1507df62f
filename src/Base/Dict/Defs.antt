-- ===== src/Base/Dict/Defs.antt =====
-- The operations of a Python `dict`.
use mathlib.Core.Path.{◌≡◌}
use mathlib.Core.Bool.{Bool, true, false}
use mathlib.Core.Option.{Option, none, some}
use mathlib.Core.List.{List, [], ◌∷◌}
use ebpf_udp_tcp_analyzer.Base.Tests.{if◌then◌else◌}
use ebpf_udp_tcp_analyzer.Base.Classes.{Eq, ◌==◌}

abbrev pub Dict {ℓ} : Type ℓ → Type ℓ → Type ℓ
Dict K V = List (K × V)

abbrev pub is_some {ℓ} : {V : Type ℓ} → Option V → Bool
is_some none = false
is_some (some v) = true

module _ {ℓ} {K V : Type ℓ} ⦃e : Eq K⦄ where
  -- `d.get(k)`
  unfoldable pub get : K → Dict K V → Option V
  get k [] = none
  get k ((j, v) ∷ d) = if j == k then some v else get k d

  -- `d[k] = v`
  unfoldable pub put : K → V → Dict K V → Dict K V
  put k v [] = (k, v) ∷ []
  put k v ((j, w) ∷ d) = if j == k then (j, v) ∷ d else (j, w) ∷ put k v d

  -- `d.setdefault(k, v)`
  unfoldable pub set_default : K → V → Dict K V → Dict K V
  set_default k v [] = (k, v) ∷ []
  set_default k v ((j, w) ∷ d) = if j == k then (j, w) ∷ d else (j, w) ∷ set_default k v d

  -- `k in d`
  abbrev pub has : K → Dict K V → Bool
  has k d = is_some (get k d)

  -- No key stands twice.
  abbrev pub Distinct : Dict K V → Type ℓ
  Distinct [] = Unit
  Distinct ((k, v) ∷ d) = (get k d ≡ none) × Distinct d

  -- `d` without `k`
  unfoldable pub without : K → Dict K V → Dict K V
  without k [] = []
  without k ((j, v) ∷ d) = let rest = without k d in if j == k then rest else (j, v) ∷ rest

module _ {ℓ} {K V W : Type ℓ} ⦃e : Eq K⦄ where
  -- `for stale in set(d) - set(t): del d[stale]`
  unfoldable pub restrict : Dict K V → Dict K W → Dict K V
  restrict [] t = []
  restrict ((k, v) ∷ d) t = let rest = restrict d t in if has k t then (k, v) ∷ rest else rest
