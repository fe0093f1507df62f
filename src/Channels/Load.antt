-- ===== src/Channels/Load.antt =====
-- The targets that unit files name, and their addresses (src/udp_analyzer/channels.py). The files,
-- `urllib.parse`, `shlex`, `pathlib`, sorted globbing and the resolver are parameters.
use Prim.Native.Char.{code}
use Prim.Native.String.{◌++◌}
use ebpf_udp_tcp_analyzer.Base.{
  ℕ, ◌-◌, Bool, true, false, ◌||◌, String, Option, none, some, List, [], ◌∷◌, ◌==◌, nat_eq,
  string_eq, ltb, if◌then◌else◌,
}
use ebpf_udp_tcp_analyzer.Base.Text.{
  strip, split_lines, starts_with, ends_with, drop_text, take_text, text_length,
}
use ebpf_udp_tcp_analyzer.Errors.{Result, ok, err, runtime_error, ◌>>=◌, ◌>>◌, guard}
use ebpf_udp_tcp_analyzer.Channels.{ChannelTarget}

-- The order of `sorted` on texts: by code points.
unfoldable pub text_less : String → String → Bool
text_less s String.[] = false
text_less String.[] (String.◌∷◌ d t) = true
text_less (String.◌∷◌ c s) (String.◌∷◌ d t) =
    let rest = text_less s t in if code c == code d then rest else ltb (code c) (code d)

unfoldable pub insert_text : String → List String → List String
unfolding text_less
insert_text s [] = s ∷ []
insert_text s (t ∷ ts) =
    let rest = insert_text s ts in
    if s == t then t ∷ ts else if text_less s t then s ∷ t ∷ ts else t ∷ rest

-- `sorted(set(texts))`
unfoldable pub sorted_set : List String → List String
unfolding insert_text
sorted_set [] = []
sorted_set (s ∷ ss) = insert_text s (sorted_set ss)

-- What `urlparse` reads; `port` raises a ValueError where it is no port number.
pub record ParsedUrl : Type 0 where
  pub scheme : String
  pub hostname : Option String
  pub port : Result (Option ℕ)
  pub path : String
  pub query : String

-- `pathlib.Path`: the text of the parent, and the name.
pub record FilePath : Type 0 where
  pub parent : String
  pub name : String

-- What the catalog is loaded from.
pub record Sources : Type 0 where
  -- `read_text`, `none` for its `OSError`
  pub read : FilePath → Option String
  -- `Path(text)`
  pub to_path : String → FilePath
  -- `sorted(parent.glob(head + "*" + tail))`
  pub glob : String → String → String → List FilePath
  -- `expand_home_specifier`'s home of the user
  pub home : String
  pub urlparse : String → ParsedUrl
  pub shlex_split : String → Option (List String)
  -- `str.lower`
  pub lower : String → String

abbrev pub is_scheme : String → Bool
is_scheme s = (s == "http") || (s == "https") || (s == "udp") || (s == "rtp")

-- `not parsed.hostname`
abbrev pub given_host : Option String → Result String
given_host none = err runtime_error
given_host (some host) = if host == "" then err runtime_error else ok host

abbrev pub port_or_default : Option ℕ → String → Result ℕ
port_or_default (some port) scheme = ok port
port_or_default none scheme =
    if (scheme == "udp") || (scheme == "rtp")
    then err runtime_error
    else ok (if scheme == "https" then 443 else 80)

abbrev pub or_slash : String → String
or_slash path = if path == "" then "/" else path

-- `unit.removesuffix(".service")`
abbrev pub without_service : String → String
without_service unit =
    if ends_with unit ".service" then take_text (text_length unit - 8) unit else unit

unfoldable pub target_of_url :
    (String → String) → ParsedUrl → String → String → Result ChannelTarget
unfolding ends_with take_text text_length
target_of_url lower parsed unit url = do
  guard (is_scheme parsed.scheme) runtime_error
  host ← given_host parsed.hostname
  given_port ← parsed.port
  port ← port_or_default given_port parsed.scheme
  let path = or_slash parsed.path
  ok (record {
    channel = without_service unit;
    unit = unit;
    url = url;
    scheme = parsed.scheme;
    host = lower host;
    port = port;
    path = if parsed.query == "" then path else path ++ ("?" ++ parsed.query);
    addresses = [];
  })

-- The text before the first `part` in a text, and the text after it; `part` has `n` characters.
unfoldable pub partition : ℕ → String → String → Option (String × String)
unfolding starts_with drop_text
partition n part String.[] = none
partition n part (String.◌∷◌ c s) =
    let later = partition n part s in
    if starts_with (String.◌∷◌ c s) part
    then some ("", drop_text n (String.◌∷◌ c s))
    else elim later [ none ↦ none | some (before, after) ↦ some (String.◌∷◌ c before, after) ]

-- `part in s`
abbrev pub has_part : ℕ → String → String → Bool
has_part n part s = elim (partition n part s) [ none ↦ false | some found ↦ true ]

-- `spec.replace("%h", home)`, where `skip` is set behind a `%h`.
unfoldable pub replace_home : Bool → String → String → String
unfolding starts_with
replace_home skip home String.[] = ""
replace_home true home (String.◌∷◌ c s) = replace_home false home s
replace_home false home (String.◌∷◌ c s) =
    let found = replace_home true home s in
    let kept = replace_home false home s in
    if starts_with (String.◌∷◌ c s) "%h" then home ++ found else String.◌∷◌ c kept

-- `spec.lstrip("-")`
unfoldable pub strip_dashes : String → String
strip_dashes String.[] = ""
strip_dashes (String.◌∷◌ c s) =
    let rest = strip_dashes s in if code c == 45 then rest else String.◌∷◌ c s

-- The home that a unit directory lies in, else the one of the user.
abbrev pub home_of : Option (String × String) → String → String
home_of none home = home
home_of (some (before, after)) home =
    if text_length before == 0 then home else take_text (text_length before - 1) before

module _ (sources : Sources) where
  unfoldable pub expand_home_specifier : String → FilePath → String
  unfolding partition replace_home text_length take_text
  expand_home_specifier spec unit_path =
      if has_part 2 "%h" spec
      then replace_home false
          (home_of (partition 20 ".config/systemd/user" unit_path.parent) sources.home) spec
      else spec

  -- The `EnvironmentFile=` lines, without `-`.
  unfoldable pub environment_specs : List String → List String
  unfolding strip strip_dashes starts_with drop_text
  environment_specs [] = []
  environment_specs (raw_line ∷ lines) =
      let line = strip raw_line in
      let rest = environment_specs lines in
      if starts_with line "EnvironmentFile="
      then strip_dashes (strip (drop_text 16 line)) ∷ rest
      else rest

  unfoldable pub paths_of_specs : List String → FilePath → List FilePath
  unfolding expand_home_specifier
  paths_of_specs [] unit_path = []
  paths_of_specs (spec ∷ specs) unit_path =
      let rest = paths_of_specs specs unit_path in
      if (spec == "") || has_part 2 "%i" spec
      then rest
      else sources.to_path (expand_home_specifier spec unit_path) ∷ rest

  unfoldable pub environment_file_paths : String → FilePath → List FilePath
  unfolding environment_specs paths_of_specs split_lines
  environment_file_paths joined_text unit_path =
      paths_of_specs (environment_specs (split_lines joined_text)) unit_path

  -- `channel_target_from_url`
  unfoldable pub channel_target_from_url : String → String → Result ChannelTarget
  unfolding target_of_url
  channel_target_from_url unit url = target_of_url sources.lower (sources.urlparse url) unit url
