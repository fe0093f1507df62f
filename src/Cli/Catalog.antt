-- ===== src/Cli/Catalog.antt =====
-- `load_channel_catalog` of src/udp_analyzer/cli.py, `default_user_unit_paths` and
-- `ChannelCatalog.resolve` of channels.py.
use mathlib.Core.List.{◌++◌, map}
use ebpf_udp_tcp_analyzer.Base.{
  ℕ, Bool, String, Option, none, some, List, [], ◌∷◌, keep, if◌then◌else◌,
}
use ebpf_udp_tcp_analyzer.Base.Text.{ends_with}
use ebpf_udp_tcp_analyzer.Errors.{Result, ok, ◌>>=◌}
use ebpf_udp_tcp_analyzer.Channels.{ChannelCatalog, catalog_of}
use ebpf_udp_tcp_analyzer.Channels.Load.{Sources, FilePath}
use ebpf_udp_tcp_analyzer.Channels.Targets.{load_channel_targets}
use ebpf_udp_tcp_analyzer.Channels.Resolve.{AddressRow, resolve_channel_targets}

-- The directories, and the order of `sorted` on paths.
pub record Directories : Type 0 where
  -- `iterdir`, `none` for its `OSError`
  pub iterdir : String → Option (List FilePath)
  pub sorted : List FilePath → List FilePath
  -- `DEFAULT_USER_UNIT_DIRS`
  pub default_dirs : List String

-- The arguments that are read.
pub record CatalogArgs : Type 0 where
  pub unit_file : List String
  pub unit_dir : List String
  pub no_default_unit_dirs : Bool
  pub no_resolve_dns : Bool

abbrev pub services : List FilePath → List FilePath
services = keep (λ (child : FilePath). ends_with child.name ".service")

module _ (dirs : Directories) where
  -- The units of each directory that can be listed, sorted.
  unfoldable pub paths_of_dirs : List String → List FilePath
  unfolding ends_with
  paths_of_dirs [] = []
  paths_of_dirs (directory ∷ rest) = elim (dirs.iterdir directory) [
    | none ↦ paths_of_dirs rest
    | some children ↦ dirs.sorted (services children) ++ paths_of_dirs rest
  ]

  unfoldable pub default_children : List String → List FilePath
  unfolding ends_with
  default_children [] = []
  default_children (directory ∷ rest) = elim (dirs.iterdir directory) [
    | none ↦ default_children rest
    | some children ↦ services children ++ default_children rest
  ]

  -- All units of the default directories, sorted together.
  unfoldable pub default_user_unit_paths : List FilePath
  unfolding default_children
  default_user_unit_paths = dirs.sorted (default_children dirs.default_dirs)

  unfoldable pub catalog_paths : Sources → CatalogArgs → List FilePath
  unfolding paths_of_dirs default_user_unit_paths
  catalog_paths sources a =
      map sources.to_path a.unit_file
      ++ (paths_of_dirs a.unit_dir
          ++ (if a.no_default_unit_dirs then [] else default_user_unit_paths))

  unfoldable pub load_channel_catalog :
      Sources → (String → ℕ → Option (List AddressRow)) → CatalogArgs → Result ChannelCatalog
  unfolding catalog_paths load_channel_targets resolve_channel_targets catalog_of
  load_channel_catalog sources resolver a = do
    targets ← load_channel_targets sources (catalog_paths sources a)
    let resolved = catalog_of (resolve_channel_targets resolver targets)
    if a.no_resolve_dns then ok (catalog_of targets) else ok resolved
