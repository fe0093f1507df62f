-- ===== src/Base/Classes.antt =====
-- Equality tests as an interface, with the instances for numbers and texts.
use Prim.Native.Nat.{ℕ}
use Prim.Native.String.{String}
use mathlib.Core.Path.{◌≡◌}
use mathlib.Core.Logic.{◌↔◌}
use mathlib.Core.Bool.{Bool, true}
use text.Mathlib.Text.{◌==◌ as str_eq}
use text.Mathlib.TextEquality.{eq_iff}
use ebpf_udp_tcp_analyzer.Base.Tests.{nat_beq, nat_beq_iff}

-- Keys of dictionaries: Python compares them by value.
pub record Eq {ℓ} (K : Type ℓ) : Type ℓ where
  pub eqb : K → K → Bool
  pub eqb_iff : (k j : K) → (eqb k j ≡ true) ↔ (k ≡ j)

instance abbrev pub string_eq : Eq String
string_eq = record { eqb = str_eq; eqb_iff = eq_iff }

instance abbrev pub nat_eq : Eq ℕ
nat_eq = record { eqb = nat_beq; eqb_iff = nat_beq_iff }

-- Python's `==` on such keys.
abbrev pub ◌==◌ {ℓ} : {K : Type ℓ} ⦃keys : Eq K⦄ → K → K → Bool
◌==◌ ⦃keys⦄ k j = keys.eqb k j

infix 50 ◌==◌
