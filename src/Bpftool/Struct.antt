-- ===== src/Bpftool/Struct.antt =====
-- `struct.unpack` for the little-endian formats of the program: unsigned fields and padding.
use native.Mathlib.Nat.{pow-succ'}
use ebpf_udp_tcp_analyzer.Base.{
  ℕ, zero, suc, ◌+◌, ◌*◌, ◌/◌, ◌%◌, ◌^◌, ◌<◌, ◌≡◌, refl, ap, List, [], ◌∷◌, ◌++◌, arith, All,
  All-append,
}

-- `B`, `H`, `I` and `Q` are 1, 2, 4 and 8 bytes; `2x` is padding.
pub data Field : Type 0 where
  uint : ℕ → Field
  pad : ℕ → Field

abbrev pub take {ℓ} : {A : Type ℓ} → ℕ → List A → List A
take zero xs = []
take (suc n) [] = []
take (suc n) (x ∷ xs) = x ∷ take n xs

abbrev pub drop {ℓ} : {A : Type ℓ} → ℕ → List A → List A
drop zero xs = xs
drop (suc n) [] = []
drop (suc n) (x ∷ xs) = drop n xs

unfoldable pub little_endian : List ℕ → ℕ
little_endian [] = 0
little_endian (b ∷ bs) = b + 256 * little_endian bs

unfoldable pub unpack : List Field → List ℕ → List ℕ
unfolding little_endian
unpack [] bytes = []
unpack (uint n ∷ fmt) bytes = little_endian (take n bytes) ∷ unpack fmt (drop n bytes)
unpack (pad n ∷ fmt) bytes = unpack fmt (drop n bytes)

-- `struct.pack`: what the kernel side writes.
unfoldable pub bytes_le : ℕ → ℕ → List ℕ
bytes_le zero v = []
bytes_le (suc n) v = (v % 256) ∷ bytes_le n (v / 256)

abbrev zeros : ℕ → List ℕ
zeros zero = []
zeros (suc n) = 0 ∷ zeros n

unfoldable pub pack : List Field → List ℕ → List ℕ
unfolding bytes_le
pack [] vs = []
pack (pad n ∷ fmt) vs = zeros n ++ pack fmt vs
pack (uint n ∷ fmt) [] = []
pack (uint n ∷ fmt) (v ∷ vs) = bytes_le n v ++ pack fmt vs

-- One value for each field, each within its width.
abbrev pub Fits : List Field → List ℕ → Type 0
Fits [] [] = Unit
Fits [] (v ∷ vs) = ⊥
Fits (pad n ∷ fmt) vs = Fits fmt vs
Fits (uint n ∷ fmt) [] = ⊥
Fits (uint n ∷ fmt) (v ∷ vs) = (v < 256 ^ n) × Fits fmt vs

little_endian-bytes_le : (n v : ℕ) → v < 256 ^ n → little_endian (bytes_le n v) ≡ v
unfolding little_endian bytes_le
little_endian-bytes_le zero v h = omega arith
little_endian-bytes_le (suc n) v h =
    let small : v / 256 < 256 ^ n =
      (let e : 256 ^ suc n ≡ 256 * 256 ^ n = pow-succ' 256 n in omega (arith, e)) in
    omega (arith, little_endian-bytes_le n (v / 256) small)

take-bytes_le : (n v : ℕ) (rest : List ℕ) → take n (bytes_le n v ++ rest) ≡ bytes_le n v
unfolding bytes_le
take-bytes_le zero v rest = refl
take-bytes_le (suc n) v rest = ap (◌∷◌ (v % 256)) (take-bytes_le n (v / 256) rest)

drop-bytes_le : (n v : ℕ) (rest : List ℕ) → drop n (bytes_le n v ++ rest) ≡ rest
unfolding bytes_le
drop-bytes_le zero v rest = refl
drop-bytes_le (suc n) v rest = drop-bytes_le n (v / 256) rest

drop-zeros : (n : ℕ) (rest : List ℕ) → drop n (zeros n ++ rest) ≡ rest
drop-zeros zero rest = refl
drop-zeros (suc n) rest = drop-zeros n rest

-- Reading a packed record gives back its fields.
pub unpack-pack : (fmt : List Field) (vs : List ℕ) → Fits fmt vs → unpack fmt (pack fmt vs) ≡ vs
unfolding unpack pack
unpack-pack [] [] h = refl
unpack-pack [] (v ∷ vs) h = elim h [ ]
unpack-pack (pad n ∷ fmt) vs h = rw drop-zeros (unpack-pack fmt vs h)
unpack-pack (uint n ∷ fmt) [] h = elim h [ ]
unpack-pack (uint n ∷ fmt) (v ∷ vs) h =
    rw
      (
        take-bytes_le n v (pack fmt vs),
        drop-bytes_le n v (pack fmt vs),
        little_endian-bytes_le n v h.0,
      )
      (ap (◌∷◌ v) (unpack-pack fmt vs h.1))

bytes_le-All : (n v : ℕ) → All (λ b. b < 256) (bytes_le n v)
unfolding bytes_le
bytes_le-All zero v = tt
bytes_le-All (suc n) v = (omega arith, bytes_le-All n (v / 256))

zeros-All : (n : ℕ) → All (λ b. b < 256) (zeros n)
zeros-All zero = tt
zeros-All (suc n) = (omega arith, zeros-All n)

pub pack-All : (fmt : List Field) (vs : List ℕ) → All (λ b. b < 256) (pack fmt vs)
unfolding pack
pack-All [] vs = tt
pack-All (pad n ∷ fmt) vs =
    All-append (λ b. b < 256) (zeros n) (pack fmt vs) (zeros-All n) (pack-All fmt vs)
pack-All (uint n ∷ fmt) [] = tt
pack-All (uint n ∷ fmt) (v ∷ vs) =
    All-append (λ b. b < 256) (bytes_le n v) (pack fmt vs) (bytes_le-All n v) (pack-All fmt vs)
