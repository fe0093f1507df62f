-- ===== src/Bpftool/Print.antt =====
-- What bpftool prints for the bytes of a key or a value: a list of numbers or of hexadecimal texts.
use Prim.Native.String.{◌++◌}
use ebpf_udp_tcp_analyzer.Base.{
  ℕ, zero, suc, ◌/◌, ◌%◌, ◌<◌, ◌≡◌, refl, ap, inl, inr, Bool-cases, ◌≤◌, and-eq-true, Bool, true,
  false, ◌&&◌, String, List, [], ◌∷◌, map, arith, All, ◌==◌, nat_eq, nat_beq_iff, if◌then◌else◌,
}
use ebpf_udp_tcp_analyzer.Errors.{Result, ok, err}
use ebpf_udp_tcp_analyzer.Bpftool.Json.{
  Json, num, str, arr, items_of, list_of, byte_of, bytes_of, raw_bytes,
}

abbrev hex_digit : ℕ → String
hex_digit d =
    if d == 10
    then "a"
    else if d == 11
    then "b"
    else if d == 12
    then "c"
    else if d == 13
    then "d"
    else if d == 14
    then "e"
    else if d == 15
    then "f"
    else if d == 0
    then "0"
    else if d == 1
    then "1"
    else if d == 2
    then "2"
    else if d == 3
    then "3"
    else if d == 4
    then "4"
    else if d == 5
    then "5"
    else if d == 6
    then "6"
    else if d == 7
    then "7"
    else if d == 8
    then "8"
    else "9"

-- "0x0a" for 10
abbrev pub hex_byte : ℕ → String
hex_byte b = "0x" ++ (hex_digit (b / 16) ++ hex_digit (b % 16))

-- One of the two ways to print a byte.
pub data Style : Type 0 where
  decimal hexadecimal : Style

abbrev pub print_byte : Style → ℕ → Json
print_byte decimal b = num b
print_byte hexadecimal b = str (hex_byte b)

abbrev pub print_bytes : Style → List ℕ → Json
print_bytes style bytes = arr (items_of (map (print_byte style) bytes))

is_byte : Result ℕ → ℕ → Bool
is_byte (ok n) b = n == b
is_byte (err e) b = false

is_byte-true : (r : Result ℕ) (b : ℕ) → is_byte r b ≡ true → r ≡ ok b
unfolding is_byte
is_byte-true (ok n) b h = ap ok ((nat_beq_iff n b).0 h)
is_byte-true (err e) b h = cc

-- Every byte up to `n` is read back from its hexadecimal text.
reads_hex : ℕ → Bool
reads_hex n = is_byte (byte_of (str (hex_byte n))) n

reads_all : ℕ → Bool
reads_all zero = reads_hex 0
reads_all (suc n) = reads_all n && reads_hex (suc n)

reads_hex-of_reads_all : (n b : ℕ) → reads_all n ≡ true → b ≤ n → reads_hex b ≡ true
unfolding reads_all
reads_hex-of_reads_all zero b h le = let e : b ≡ 0 = omega arith in rw e h
reads_hex-of_reads_all (suc n) b h le = elim (Bool-cases (b == suc n)) [
  | inl last ↦ rw ((nat_beq_iff b (suc n)).0 last) ((and-eq-true (reads_all n) _ h).1)
  | inr below ↦ reads_hex-of_reads_all n b ((and-eq-true (reads_all n) _ h).0) (ground arith)
]

hex_bytes : reads_all 255 ≡ true
unfolding reads_all reads_hex is_byte byte_of
hex_bytes = refl

byte_of-print_byte : (style : Style) (b : ℕ) → b < 256 → byte_of (print_byte style b) ≡ ok b
byte_of-print_byte decimal b h = unfold byte_of in ground arith
byte_of-print_byte hexadecimal b h =
    is_byte-true (byte_of (str (hex_byte b))) b
      (unfold reads_hex in reads_hex-of_reads_all 255 b hex_bytes (omega arith))

bytes_of-print :
    (style : Style) (bytes : List ℕ)
    → All (λ b. b < 256) bytes
    → bytes_of (list_of (items_of (map (print_byte style) bytes))) ≡ ok bytes
unfolding bytes_of
bytes_of-print style [] h = refl
bytes_of-print style (b ∷ bytes) h =
    rw (byte_of-print_byte style b h.0, bytes_of-print style bytes h.1)

-- `raw_bytes` reads back the bytes that were printed.
pub raw_bytes-print_bytes :
    (style : Style) (bytes : List ℕ)
    → All (λ b. b < 256) bytes
    → raw_bytes (print_bytes style bytes) ≡ ok bytes
unfolding raw_bytes
raw_bytes-print_bytes style bytes h = bytes_of-print style bytes h
