-- ===== src/Base/Text.antt =====
-- Python's operations on `str`.
use Prim.Native.Char.{Char, code}
use Prim.Native.String.{String, [], ◌∷◌, ◌++◌}
use Prim.Native.Nat.{ℕ, zero, suc}
use mathlib.Core.Bool.{Bool, true, false, ◌&&◌, ◌||◌}
use mathlib.Core.Option.{Option, none, some}
use mathlib.Core.List.{List}
use ebpf_udp_tcp_analyzer.Base.Tests.{leb, if◌then◌else◌}
use ebpf_udp_tcp_analyzer.Base.Classes.{◌==◌, nat_eq, string_eq}

-- One character in front of the first piece.
abbrev pub prepend : Char → List String → List String
prepend c List.[] = List.◌∷◌ (c ∷ []) List.[]
prepend c (List.◌∷◌ x xs) = List.◌∷◌ (c ∷ x) xs

-- `s.split(sep)` for one character
unfoldable pub split_on : ℕ → String → List String
split_on sep [] = List.◌∷◌ [] List.[]
split_on sep (c ∷ s) =
    let rest = split_on sep s in if code c == sep then List.◌∷◌ [] rest else prepend c rest

-- The characters at which `splitlines` cuts.
abbrev is_line_break : ℕ → Bool
is_line_break c =
    (leb 10 c && leb c 13)
    || (leb 28 c && leb c 30)
    || (c == 0x85)
    || (leb 0x2028 c && leb c 0x2029)

abbrev starts_with_lf : String → Bool
starts_with_lf [] = false
starts_with_lf (c ∷ s) = code c == 10

-- `s.splitlines()`: a carriage return before a line feed makes no line of its own.
unfoldable pub split_lines : String → List String
split_lines [] = List.[]
split_lines (c ∷ s) =
    let rest = split_lines s in
    if (code c == 13) && starts_with_lf s
    then rest
    else if is_line_break (code c)
    then List.◌∷◌ [] rest
    else prepend c rest

-- `s.rsplit(sep, 1)[1]`, `none` for its `IndexError`
unfoldable pub after_last : ℕ → String → Option String
after_last sep [] = none
after_last sep (c ∷ s) = elim (after_last sep s) [
  | some rest ↦ some rest
  | none ↦ if code c == sep then some s else none
]

-- `s.startswith(prefix)`
unfoldable pub starts_with : String → String → Bool
starts_with s [] = true
starts_with [] (d ∷ t) = false
starts_with (c ∷ s) (d ∷ t) = (code c == code d) && starts_with s t

-- `s.endswith(suffix)`
unfoldable pub ends_with : String → String → Bool
ends_with [] t = [] == t
ends_with (c ∷ s) t = ((c ∷ s) == t) || ends_with s t

-- `str.isspace` of one character
abbrev pub is_space : ℕ → Bool
is_space c =
    (leb 9 c && leb c 13)
    || (leb 28 c && leb c 32)
    || (c == 0x85)
    || (c == 0xA0)
    || (c == 0x1680)
    || (leb 0x2000 c && leb c 0x200A)
    || (leb 0x2028 c && leb c 0x2029)
    || (c == 0x202F)
    || (c == 0x205F)
    || (c == 0x3000)

-- `s.lstrip()`
unfoldable pub lstrip : String → String
lstrip [] = []
lstrip (c ∷ s) = let rest = lstrip s in if is_space (code c) then rest else c ∷ s

abbrev unless_space : Char → String → String
unless_space c [] = if is_space (code c) then [] else c ∷ []
unless_space c (d ∷ s) = c ∷ d ∷ s

-- `s.rstrip()`
unfoldable pub rstrip : String → String
rstrip [] = []
rstrip (c ∷ s) = unless_space c (rstrip s)

-- `s.strip()`
unfoldable pub strip : String → String
unfolding lstrip rstrip
strip s = rstrip (lstrip s)

abbrev add_word : String → List String → List String
add_word [] words = words
add_word (c ∷ s) words = List.◌∷◌ (c ∷ s) words

-- The first word, and the words after it.
unfoldable pub split_words_from : String → String × List String
split_words_from [] = ([], List.[])
split_words_from (c ∷ s) =
    let (word, words) = split_words_from s in
    if is_space (code c) then ([], add_word word words) else (c ∷ word, words)

-- `s.split()`
unfoldable pub split_words : String → List String
unfolding split_words_from
split_words s = let (word, words) = split_words_from s in add_word word words

-- `s.split(sep, 1)`, `none` where there is no `sep`
unfoldable pub split_once : ℕ → String → Option (String × String)
split_once sep [] = none
split_once sep (c ∷ s) = elim (split_once sep s) [
  | none ↦ if code c == sep then some ([], s) else none
  | some (before, after) ↦ if code c == sep then some ([], s) else some (c ∷ before, after)
]

-- `s[:n]`
unfoldable pub take_text : ℕ → String → String
take_text zero s = []
take_text (suc n) [] = []
take_text (suc n) (c ∷ s) = c ∷ take_text n s

-- `s[n:]`
unfoldable pub drop_text : ℕ → String → String
drop_text zero s = s
drop_text (suc n) [] = []
drop_text (suc n) (c ∷ s) = drop_text n s

-- `s[:-1]`
unfoldable pub drop_last : String → String
drop_last [] = []
drop_last (c ∷ []) = []
drop_last (c ∷ d ∷ s) = c ∷ drop_last (d ∷ s)

-- `len(s)`
unfoldable pub text_length : String → ℕ
text_length [] = 0
text_length (c ∷ s) = suc (text_length s)

-- `sep.join(parts)`
unfoldable pub join : String → List String → String
join sep List.[] = []
join sep (List.◌∷◌ s List.[]) = s
join sep (List.◌∷◌ s (List.◌∷◌ t ss)) = s ++ (sep ++ join sep (List.◌∷◌ t ss))
