-- ===== src/Bpftool/Address.antt =====
-- `ipv4_from_bpf_int` of src/udp_analyzer/ebpf.py: a map's 32-bit address as dotted text.
use Prim.Native.String.{◌++◌}
use ebpf_udp_tcp_analyzer.Base.{
  ℕ, ◌/◌, ◌%◌, ◌^◌, String, ◌==◌, nat_eq, ltb, if◌then◌else◌, List, [], ◌∷◌,
}
use ebpf_udp_tcp_analyzer.Errors.{Result, ok, err, struct_error}
use ebpf_udp_tcp_analyzer.Bpftool.Struct.{bytes_le}

abbrev digit_text : ℕ → String
digit_text d =
    if d == 0
    then "0"
    else if d == 1
    then "1"
    else if d == 2
    then "2"
    else if d == 3
    then "3"
    else if d == 4
    then "4"
    else if d == 5
    then "5"
    else if d == 6
    then "6"
    else if d == 7
    then "7"
    else if d == 8
    then "8"
    else "9"

-- A byte in decimal, with no leading zeros.
unfoldable pub byte_text : ℕ → String
byte_text b =
    if ltb b 10
    then digit_text b
    else if ltb b 100
    then digit_text (b / 10) ++ digit_text (b % 10)
    else digit_text (b / 100) ++ (digit_text (b / 10 % 10) ++ digit_text (b % 10))

unfoldable pub dotted : List ℕ → String
unfolding byte_text
dotted [] = ""
dotted (b ∷ []) = byte_text b
dotted (b ∷ c ∷ bs) = byte_text b ++ ("." ++ dotted (c ∷ bs))

-- The four bytes in memory order, which is the order of the packet.
unfoldable pub ipv4_from_bpf_int : ℕ → Result String
unfolding dotted bytes_le
ipv4_from_bpf_int value =
    if ltb value (2 ^ 32) then ok (dotted (bytes_le 4 value)) else err struct_error
