-- ===== src/Base/Dict/Laws.antt =====
-- What a lookup returns after each operation, and that no operation repeats a key.
use Prim.Native.Nat.{ℕ, ◌+◌}
use mathlib.Core.Path.{◌≡◌, refl}
use mathlib.Core.Option.{Option, none, some}
use mathlib.Core.List.{[], ◌∷◌}
use native.Mathlib.Omega.{arith}
use ebpf_udp_tcp_analyzer.Base.Tests.{if◌then◌else◌}
use ebpf_udp_tcp_analyzer.Base.Lists.{sum_by}
use ebpf_udp_tcp_analyzer.Base.Classes.{Eq, ◌==◌}
use ebpf_udp_tcp_analyzer.Base.Dict.Defs.{
  Dict, get, put, set_default, has, Distinct, without, restrict,
}

abbrev pub or_default {ℓ} : {V : Type ℓ} → Option V → Option V → Option V
or_default none o = o
or_default (some v) o = some v

module _ {ℓ} {K V : Type ℓ} ⦃e : Eq K⦄ where
  pub get-put :
      (k j : K) (v : V) (d : Dict K V) → get j (put k v d) ≡ (if k == j then some v else get j d)
  unfolding get put
  get-put k j v [] = refl
  get-put k j v ((i, w) ∷ d) =
      ground (arith, e.eqb_iff k j, e.eqb_iff i k, e.eqb_iff i j, get-put k j v d)

  pub get-set_default :
      (k j : K) (v : V) (d : Dict K V)
      → get j (set_default k v d) ≡ or_default (get j d) (if k == j then some v else none)
  unfolding get set_default
  get-set_default k j v [] = refl
  get-set_default k j v ((i, w) ∷ d) =
      ground (arith, e.eqb_iff k j, e.eqb_iff i k, e.eqb_iff i j, get-set_default k j v d)

  pub get-without :
      (k j : K) (d : Dict K V) → get j (without k d) ≡ (if k == j then none else get j d)
  unfolding get without
  get-without k j [] = ground arith
  get-without k j ((i, w) ∷ d) =
      ground (arith, e.eqb_iff k j, e.eqb_iff i k, e.eqb_iff i j, get-without k j d)

  pub put-Distinct : (k : K) (v : V) (d : Dict K V) → Distinct d → Distinct (put k v d)
  unfolding get put
  put-Distinct k v [] h = (refl, tt)
  put-Distinct k v ((i, w) ∷ d) h =
      ground (arith, e.eqb_iff i k, e.eqb_iff k i, get-put k i v d, put-Distinct k v d h.1)

  pub without-Distinct : (k : K) (d : Dict K V) → Distinct d → Distinct (without k d)
  unfolding get without
  without-Distinct k [] h = tt
  without-Distinct k ((i, w) ∷ d) h =
      ground (arith, e.eqb_iff k i, get-without k i d, without-Distinct k d h.1)

  -- A dictionary with no repeated key gives each of its entries by lookup.
  pub without_absent : (k : K) (d : Dict K V) → get k d ≡ none → without k d ≡ d
  unfolding get without
  without_absent k [] h = refl
  without_absent k ((i, w) ∷ d) h = ground (arith, without_absent k d)

  -- One entry taken out takes its value out of a sum.
  pub sum_by-without :
      (f : K × V → ℕ) (k : K) (v : V) (d : Dict K V)
      → Distinct d
      → get k d ≡ some v
      → sum_by f d ≡ f (k, v) + sum_by f (without k d)
  unfolding get without
  sum_by-without f k v [] u h = cc
  sum_by-without f k v ((i, w) ∷ d) u h =
      ground (arith, e.eqb_iff i k, without_absent k d, sum_by-without f k v d u.1)

module _ {ℓ} {K V W : Type ℓ} ⦃e : Eq K⦄ where
  pub get-restrict :
      (j : K) (d : Dict K V) (t : Dict K W)
      → get j (restrict d t) ≡ (if has j t then get j d else none)
  unfolding get restrict
  get-restrict j [] t = ground arith
  get-restrict j ((i, w) ∷ d) t = ground (arith, e.eqb_iff i j, get-restrict j d t)
