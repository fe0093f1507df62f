-- ===== src/Base/Int.antt =====
-- Python's `a - b` on two counters: an integer, `negsuc n` for -(n + 1).
use Prim.Native.Nat.{ℕ, ◌-◌, ◌≤◌}
use mathlib.Core.Path.{◌≡◌}
use mathlib.Core.Logic.{◌↔◌}
use mathlib.Core.Bool.{Bool, true}
use native.Mathlib.Omega.{arith}
use ebpf_udp_tcp_analyzer.Base.Tests.{leb, if◌then◌else◌, nat_beq}

pub data ℤ : Type 0 where
  pos : ℕ → ℤ
  negsuc : ℕ → ℤ

-- a - b
abbrev pub sub_ℕ : ℕ → ℕ → ℤ
sub_ℕ a b = if leb b a then pos (a - b) else negsuc (b - a - 1)

-- max(d, 0)
abbrev pub pos_part : ℤ → ℕ
pos_part (pos n) = n
pos_part (negsuc n) = 0

-- d <= 0
abbrev pub is_le_zero : ℤ → Bool
is_le_zero (pos n) = nat_beq n 0
is_le_zero (negsuc n) = true

pub pos_part-sub_ℕ : (a b : ℕ) → pos_part (sub_ℕ a b) ≡ a - b
pos_part-sub_ℕ a b = ground arith

pub is_le_zero-sub_ℕ : (a b : ℕ) → (is_le_zero (sub_ℕ a b) ≡ true) ↔ (a ≤ b)
is_le_zero-sub_ℕ a b = ground arith
