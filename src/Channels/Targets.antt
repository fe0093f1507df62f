-- ===== src/Channels/Targets.antt =====
-- `load_channel_targets`, `template_instance_targets` and `resolve_channel_targets` of
-- src/udp_analyzer/channels.py.
use Prim.Native.String.{◌++◌}
use mathlib.Core.List.{◌++◌ as ◌++ˡ◌}
use ebpf_udp_tcp_analyzer.Base.{
  ◌-◌, not, ◌&&◌, String, Option, none, some, List, [], ◌∷◌, ◌==◌, nat_eq, string_eq, if◌then◌else◌,
}
use ebpf_udp_tcp_analyzer.Base.Text.{
  split_lines, starts_with, ends_with, drop_text, take_text, text_length,
}
use ebpf_udp_tcp_analyzer.Errors.{Result, ok, ◌>>=◌}
use ebpf_udp_tcp_analyzer.Channels.{ChannelTarget}
use ebpf_udp_tcp_analyzer.Channels.Urls.{
  join_systemd_continuations, extract_urls_from_unit, urls_from_env_file,
}
use ebpf_udp_tcp_analyzer.Channels.Load.{
  Sources, FilePath, sorted_set, partition, has_part, expand_home_specifier, environment_specs,
  environment_file_paths, channel_target_from_url,
}

-- `f"{prefix}@{instance}.service"`, where the template is `prefix@.service`.
abbrev pub instance_unit : String → String → String
instance_unit template_name instance_name =
    take_text (text_length template_name - 9) template_name
    ++ ("@" ++ (instance_name ++ ".service"))

-- `name[len(head): len(name) - len(tail)]`
abbrev pub between : String → String → String → String
between head tail name =
    take_text (text_length name - text_length tail - text_length head)
      (drop_text (text_length head) name)

module _ (sources : Sources) where
  -- The single URL makes a target; none, or more with a warning, make none.
  unfoldable pub target_of_urls : String → List String → Result (List ChannelTarget)
  unfolding channel_target_from_url
  target_of_urls unit (url ∷ []) = do
    target ← channel_target_from_url sources unit url
    ok (target ∷ [])
  target_of_urls unit _ = ok []

  unfoldable pub urls_of_files : List FilePath → List String
  unfolding urls_from_env_file
  urls_of_files [] = []
  urls_of_files (path ∷ paths) = urls_from_env_file (sources.read path) ++ˡ urls_of_files paths

  -- The URLs of a unit that is no template.
  unfoldable pub unit_urls : FilePath → String → List String
  unfolding sorted_set extract_urls_from_unit urls_of_files environment_file_paths
      join_systemd_continuations
  unit_urls path text = sorted_set (
      extract_urls_from_unit sources.shlex_split text
      ++ˡ urls_of_files (environment_file_paths sources (join_systemd_continuations text) path))

  unfoldable pub instance_of_urls : String → String → List String → Result (List ChannelTarget)
  unfolding channel_target_from_url take_text text_length
  instance_of_urls template_name instance_name (url ∷ []) = do
    target ← channel_target_from_url sources (instance_unit template_name instance_name) url
    ok (record target { channel = instance_name } ∷ [])
  instance_of_urls template_name instance_name _ = ok []

  -- The URLs of an environment file.
  unfoldable pub env_urls : FilePath → List String
  unfolding sorted_set urls_from_env_file
  env_urls env_path = sorted_set (urls_from_env_file (sources.read env_path))

  -- The body of the loop over the files that the pattern names.
  unfoldable pub instance_targets :
      String → String → String → FilePath → Result (List ChannelTarget)
  unfolding instance_of_urls env_urls starts_with ends_with drop_text take_text text_length
  instance_targets template_name head tail env_path =
      let name = env_path.name in
      let instance_name = between head tail name in
      let made = instance_of_urls template_name instance_name (env_urls env_path) in
      if not (starts_with name head && ends_with name tail)
      then ok []
      else if instance_name == ""
      then ok []
      else made

  unfoldable pub instances_targets :
      String → String → String → List FilePath → Result (List ChannelTarget)
  unfolding instance_targets
  instances_targets template_name head tail [] = ok []
  instances_targets template_name head tail (env_path ∷ env_paths) = do
    targets ← instance_targets template_name head tail env_path
    more ← instances_targets template_name head tail env_paths
    ok (targets ++ˡ more)

  -- `%i` in the name of the file only.
  unfoldable pub pattern_targets : String → FilePath → Result (List ChannelTarget)
  unfolding instances_targets partition
  pattern_targets template_name spec_path =
      if has_part 2 "%i" spec_path.parent then ok [] else elim (partition 2 "%i" spec_path.name) [
        | none ↦ ok []
        | some (head, tail) ↦
            instances_targets template_name head tail (sources.glob spec_path.parent head tail)
      ]

  unfoldable pub specs_targets : FilePath → List String → Result (List ChannelTarget)
  unfolding pattern_targets expand_home_specifier
  specs_targets template_path [] = ok []
  specs_targets template_path (spec ∷ specs) =
      let rest = specs_targets template_path specs in
      if not (has_part 2 "%i" spec) then rest else (do
        targets ←
            pattern_targets template_path.name
              (sources.to_path (expand_home_specifier sources spec template_path))
        more ← rest
        ok (targets ++ˡ more))

  unfoldable pub template_instance_targets : FilePath → String → Result (List ChannelTarget)
  unfolding specs_targets environment_specs split_lines
  template_instance_targets template_path joined_text =
      specs_targets template_path (environment_specs sources (split_lines joined_text))

  -- The targets of one unit file.
  unfoldable pub unit_targets : FilePath → Option String → Result (List ChannelTarget)
  unfolding template_instance_targets target_of_urls unit_urls
  unit_targets path none = ok []
  unit_targets path (some text) =
      let instances = template_instance_targets path (join_systemd_continuations text) in
      let single = target_of_urls path.name (unit_urls path text) in
      if ends_with path.name "@.service" then instances else single

  unfoldable pub load_channel_targets : List FilePath → Result (List ChannelTarget)
  unfolding unit_targets
  load_channel_targets [] = ok []
  load_channel_targets (path ∷ paths) = do
    targets ← unit_targets path (sources.read path)
    more ← load_channel_targets paths
    ok (targets ++ˡ more)
