-- ===== src/Bpftool/Json.antt =====
-- Values that `json.loads` returns, and Python's operations on them. The numbers are those of BPF
-- maps and of bpftool's ids, which are whole and not negative.
use Prim.Native.Char.{code}
use ebpf_udp_tcp_analyzer.Base.{
  ℕ, ◌+◌, ◌-◌, ◌*◌, ◌≡◌, refl, ap, Bool, true, false, ◌&&◌, ◌||◌, String, Option, none, some, List,
  [], ◌∷◌, ◌==◌, nat_eq, string_eq, leb, ltb, if◌then◌else◌,
}
use ebpf_udp_tcp_analyzer.Errors.{
  Result, ok, err, runtime_error, key_error, type_error, value_error, attribute_error, require,
  ◌>>=◌,
}

mutual
  pub data Json : Type 0 where
    null : Json
    bool : Bool → Json
    num : ℕ → Json
    str : String → Json
    arr : Items → Json
    obj : Fields → Json

  pub data Items : Type 0 where
    nil : Items
    cons : Json → Items → Items

  pub data Fields : Type 0 where
    end : Fields
    field : String → Json → Fields → Fields

abbrev pub list_of : Items → List Json
list_of nil = []
list_of (cons x xs) = x ∷ list_of xs

abbrev pub items_of : List Json → Items
items_of [] = nil
items_of (x ∷ xs) = cons x (items_of xs)

pub list_of-items_of : (xs : List Json) → list_of (items_of xs) ≡ xs
list_of-items_of [] = refl
list_of-items_of (x ∷ xs) = ap (◌∷◌ x) (list_of-items_of xs)

-- A name that stands twice: `json.loads` keeps the last value.
abbrev pub find : String → Fields → Option Json
find k end = none
find k (field j v fs) =
    let later = find k fs in elim later [ none ↦ if j == k then some v else none | some w ↦ some w ]

-- The value of a digit in a base up to 16.
unfoldable pub digit : ℕ → ℕ → Option ℕ
digit base c =
    let d =
      if leb 48 c && leb c 57
      then c - 48
      else if leb 97 c && leb c 102
      then c - 87
      else if leb 65 c && leb c 70
      then c - 55
      else 16 in
    if ltb d base then some d else none

unfoldable pub digits_from : ℕ → ℕ → String → Result ℕ
unfolding digit
digits_from base acc String.[] = ok acc
digits_from base acc (String.◌∷◌ c s) = do
  d ← require (digit base (code c)) value_error
  digits_from base (acc * base + d) s

-- `int(s)` and `int(s, 16)` on the texts that bpftool prints: digits, after `0x` in base 16. A
-- sign, spaces and underscores, which Python also takes, are `ValueError`s here.
unfoldable pub int_of_digits : ℕ → String → Result ℕ
unfolding digits_from
int_of_digits base String.[] = err value_error
int_of_digits base (String.◌∷◌ c s) = digits_from base 0 (String.◌∷◌ c s)

unfoldable pub strip_0x : String → String
strip_0x (String.◌∷◌ a (String.◌∷◌ b s)) =
    if (code a == 48) && ((code b == 120) || (code b == 88))
    then s
    else String.◌∷◌ a (String.◌∷◌ b s)
strip_0x s = s

unfoldable pub int_base16 : String → Result ℕ
unfolding strip_0x int_of_digits
int_base16 s = int_of_digits 16 (strip_0x s)

-- `int(v)`
unfoldable pub int_of : Json → Result ℕ
unfolding int_of_digits
int_of (num n) = ok n
int_of (bool true) = ok 1
int_of (bool false) = ok 0
int_of (str s) = int_of_digits 10 s
int_of null = err type_error
int_of (arr xs) = err type_error
int_of (obj fs) = err type_error

-- `int(d[k])` and `int(d.get(k, 0))` on a dictionary.
unfoldable pub int_field : String → Fields → Result ℕ
unfolding int_of
int_field k fs = do v ← require (find k fs) key_error; int_of v

unfoldable pub int_field_or_zero : String → Fields → Result ℕ
unfolding int_of
int_field_or_zero k fs = elim (find k fs) [ none ↦ ok 0 | some v ↦ int_of v ]

-- `v.get(k)`, which is `None` where `k` is missing.
abbrev pub or_null : Option Json → Json
or_null none = null
or_null (some v) = v

unfoldable pub get_field : String → Json → Result Json
get_field k (obj fs) = ok (or_null (find k fs))
get_field k null = err attribute_error
get_field k (bool b) = err attribute_error
get_field k (num n) = err attribute_error
get_field k (str s) = err attribute_error
get_field k (arr xs) = err attribute_error

abbrev chars_of : String → List Json
chars_of String.[] = []
chars_of (String.◌∷◌ c s) = str (String.◌∷◌ c String.[]) ∷ chars_of s

abbrev names_of : Fields → List Json
names_of end = []
names_of (field k v fs) = str k ∷ names_of fs

-- `for x in v`
unfoldable pub iterate : Json → Result (List Json)
iterate (arr xs) = ok (list_of xs)
iterate (obj fs) = ok (names_of fs)
iterate (str s) = ok (chars_of s)
iterate null = err type_error
iterate (bool b) = err type_error
iterate (num n) = err type_error

-- `int(part, 16) if isinstance(part, str) else int(part)`
unfoldable pub int_of_part : Json → Result ℕ
unfolding int_base16 int_of
int_of_part (str s) = int_base16 s
int_of_part v = int_of v

-- One element of `raw_bytes`: `bytes` takes 0 to 255 only.
unfoldable pub byte_of : Json → Result ℕ
unfolding int_of_part
byte_of v = do n ← int_of_part v; if ltb n 256 then ok n else err value_error

unfoldable pub bytes_of : List Json → Result (List ℕ)
unfolding byte_of
bytes_of [] = ok []
bytes_of (v ∷ vs) = do b ← byte_of v; bs ← bytes_of vs; ok (b ∷ bs)

unfoldable pub raw_bytes : Json → Result (List ℕ)
unfolding bytes_of
raw_bytes (arr xs) = bytes_of (list_of xs)
raw_bytes null = err runtime_error
raw_bytes (bool b) = err runtime_error
raw_bytes (num n) = err runtime_error
raw_bytes (str s) = err runtime_error
raw_bytes (obj fs) = err runtime_error
