-- ===== src/Channels/Urls.antt =====
-- The URLs that a unit file or an environment file names (src/udp_analyzer/channels.py). `shlex`
-- is a parameter; `URL_RE.findall` is a walk over the text.
use Prim.Native.Char.{Char, code}
use Prim.Native.String.{◌++◌}
use mathlib.Core.List.{◌++◌ as ◌++ˡ◌}
use ebpf_udp_tcp_analyzer.Base.{
  ℕ, zero, suc, ◌-◌, Bool, false, not, ◌&&◌, ◌||◌, String, Option, none, some, List, [], ◌∷◌, map,
  ◌==◌, nat_eq, string_eq, if◌then◌else◌,
}
use ebpf_udp_tcp_analyzer.Base.Text.{
  strip, rstrip, split_lines, split_words, split_once, drop_text, drop_last, starts_with, ends_with,
  join, is_space,
}

-- `[^\s"'<>]`
abbrev pub is_url_char : ℕ → Bool
is_url_char c = not (is_space c || (c == 34) || (c == 39) || (c == 60) || (c == 62))

abbrev begins_with_url_char : String → Bool
begins_with_url_char String.[] = false
begins_with_url_char (String.◌∷◌ c s) = is_url_char (code c)

-- The length of `https://` and so on at the start of a text, where a character of a URL follows; 0
-- where no URL starts.
unfoldable pub scheme_length : String → ℕ
unfolding starts_with drop_text
scheme_length s =
    if starts_with s "https://" && begins_with_url_char (drop_text 8 s)
    then 8
    else if starts_with s "http://" && begins_with_url_char (drop_text 7 s)
    then 7
    else if (starts_with s "udp://" || starts_with s "rtp://")
        && begins_with_url_char (drop_text 6 s)
    then 6
    else 0

-- What is left of the URL at hand, of which `n` characters are the scheme, and the URLs after it.
unfoldable mutual
  unfolding scheme_length

  pub rest_of_url : ℕ → String → String × List String
  rest_of_url n String.[] = ("", [])
  rest_of_url zero (String.◌∷◌ c s) =
      let within = rest_of_url zero s in
      let after = find_urls s in
      if is_url_char (code c) then (String.◌∷◌ c within.0, within.1) else ("", after)
  rest_of_url (suc n) (String.◌∷◌ c s) =
      let (url, urls) = rest_of_url n s in (String.◌∷◌ c url, urls)

  -- `URL_RE.findall(s)`
  pub find_urls : String → List String
  find_urls String.[] = []
  find_urls (String.◌∷◌ c s) =
      let n = scheme_length (String.◌∷◌ c s) in
      let found = rest_of_url (n - 1) s in
      let after = find_urls s in if n == 0 then after else String.◌∷◌ c found.0 ∷ found.1

abbrev is_closing : ℕ → Bool
is_closing c = (c == 41) || (c == 44) || (c == 59) || (c == 93)

abbrev unless_closing : Char → String → String
unless_closing c String.[] = if is_closing (code c) then "" else String.◌∷◌ c ""
unless_closing c (String.◌∷◌ d s) = String.◌∷◌ c (String.◌∷◌ d s)

-- `url.rstrip("),;]")`
unfoldable pub cleanup_url : String → String
cleanup_url String.[] = ""
cleanup_url (String.◌∷◌ c s) = unless_closing c (cleanup_url s)

abbrev pending_line : String → List String
pending_line pending = if pending == "" then [] else pending ∷ []

unfoldable pub joined_lines : String → List String → List String
unfolding rstrip ends_with drop_last
joined_lines pending [] = pending_line pending
joined_lines pending (raw_line ∷ lines) =
    let line = rstrip raw_line in
    let continued = joined_lines (pending ++ (drop_last line ++ " ")) lines in
    let ended = joined_lines "" lines in
    if ends_with line "\\" then continued else (pending ++ line) ∷ ended

unfoldable pub join_systemd_continuations : String → String
unfolding joined_lines split_lines join
join_systemd_continuations text = join "\n" (joined_lines "" (split_lines text))

-- `part.split("=", 1)[-1]`
abbrev after_equals : String → Option (String × String) → String
after_equals part none = part
after_equals part (some (before, after)) = after

unfoldable pub urls_of_parts : List String → List String
unfolding find_urls split_once
urls_of_parts [] = []
urls_of_parts (part ∷ parts) =
    find_urls (after_equals part (split_once b'=' part)) ++ˡ urls_of_parts parts

abbrev or_words : Option (List String) → String → List String
or_words none value = split_words value
or_words (some parts) value = parts

-- `shlex.split` is `none` for its `ValueError`.
module _ (shlex_split : String → Option (List String)) where
  unfoldable pub extract_urls_from_environment : String → List String
  unfolding urls_of_parts split_words
  extract_urls_from_environment value = urls_of_parts (or_words (shlex_split value) value)

  unfoldable pub urls_of_unit_line : String → List String
  unfolding extract_urls_from_environment find_urls
  urls_of_unit_line line =
      if (line == "") || starts_with line "#"
      then []
      else if starts_with line "Environment="
      then extract_urls_from_environment (drop_text 12 line)
      else find_urls line

  unfoldable pub urls_of_unit_lines : List String → List String
  unfolding urls_of_unit_line strip
  urls_of_unit_lines [] = []
  urls_of_unit_lines (line ∷ lines) = urls_of_unit_line (strip line) ++ˡ urls_of_unit_lines lines

  unfoldable pub extract_urls_from_unit : String → List String
  unfolding urls_of_unit_lines join_systemd_continuations cleanup_url
  extract_urls_from_unit text =
      map cleanup_url (urls_of_unit_lines (split_lines (join_systemd_continuations text)))

-- The part of a line of an environment file after `=`; a comment has none.
unfoldable pub urls_of_env_line : String → List String
unfolding find_urls split_once starts_with
urls_of_env_line line =
    if (line == "") || starts_with line "#"
    then []
    else elim (split_once b'=' line) [ none ↦ [] | some (name, value) ↦ find_urls value ]

unfoldable pub urls_of_env_lines : List String → List String
unfolding urls_of_env_line strip
urls_of_env_lines [] = []
urls_of_env_lines (line ∷ lines) = urls_of_env_line (strip line) ++ˡ urls_of_env_lines lines

-- `urls_from_env_file`, on the text of the file, `none` where it cannot be read.
unfoldable pub urls_from_env_file : Option String → List String
unfolding urls_of_env_lines split_lines cleanup_url
urls_from_env_file none = []
urls_from_env_file (some text) = map cleanup_url (urls_of_env_lines (split_lines text))
