-- ===== src/Services/Initializer.antt =====
-- cmd-drivers/services/initializer.go
pub mod Raw
pub mod Keeping
pub mod Formats
use kubernetes_external_prov.Base.{
  Bool, List, Result, String, [], err, false, if◌then◌else◌, is_empty, ltb, none, not, ok, true,
  wrapf, ℕ, ◌==◌, ◌||◌, ◌∷◌,
}
use kubernetes_external_prov.Exec.{Exec, pure, wrapped, ◌>>◌}
use kubernetes_external_prov.Fsutils.Device.{BlockDevice, children, properties, to_uint64}
use kubernetes_external_prov.Providers.{FormatOptions, FormatProvider, Lsblk}
use kubernetes_external_prov.Services.Interfaces.{DiskInitializer}

pub record InitConfig : Type 0 where
  pub fs_type : String
  pub label : String
  pub min_size : ℕ
  pub dry_run : Bool

-- The tests of the first loop of `Init`: each of them that holds skips the device.
unfoldable pub is_target : InitConfig → BlockDevice → Bool
is_target config bd =
    if not (is_empty (children bd))
    then false
    else if not ((properties bd).fstype == "") || not ((properties bd).uuid == "")
    then false
    else if not ((properties bd).mountpoint == "")
    then false
    else if ltb (to_uint64 (properties bd).size) config.min_size
    then false
    else true

-- The first loop of `Init`.
unfoldable pub init_targets : InitConfig → List BlockDevice → List String
unfolding is_target
init_targets config [] = []
init_targets config (bd ∷ bds) =
    let rest = init_targets config bds in
    if is_target config bd then (properties bd).name ∷ rest else rest

-- The options of each format.
abbrev pub format_options : InitConfig → FormatOptions
format_options config = record { fs_type = config.fs_type; label = config.label }

module _ {W : Type 0} (config : InitConfig) (format : FormatProvider W) where
  -- The second loop of `Init`: nothing on a dry run, and the first error ends it.
  unfoldable pub format_targets : List String → Exec W (Unit {0})
  format_targets [] = pure tt
  format_targets (dev ∷ devs) =
      let rest = format_targets devs in
      if config.dry_run
      then rest
      else do wrapped "format %q: %w" (dev ∷ []) (format.format dev (format_options config)); rest

  -- What `Init` gives: a list of targets, and an error or none.
  abbrev pub Outcome : Type 0
  Outcome = List String × Result (Unit {0})

  unfoldable pub init : Lsblk W → W → Outcome × W
  unfolding format_targets init_targets
  init lsblk w = elim (lsblk.get_block_devices none w) [
    | err e ↦ (([], err (wrapf "enumerate block devices: %w" [] e)), w)
    | ok devices ↦
        let targets = init_targets config devices in
        let run = format_targets targets w in ((targets, run.0), run.1)
  ]

-- The struct `diskInitializer`; `formatter` is its field `format`.
pub record Initializer (W : Type 0) : Type 0 where
  pub config : InitConfig
  pub lsblk : Lsblk W
  pub formatter : FormatProvider W

-- The method of `diskInitializer`.
abbrev pub as_disk_initializer : {W : Type 0} → Initializer W → DiskInitializer W
as_disk_initializer d = record { init = init d.config d.formatter d.lsblk }

-- `NewDiskInitializer`
abbrev pub new_disk_initializer :
    {W : Type 0} (config : InitConfig) (lsblk : Lsblk W) (format : FormatProvider W)
    → DiskInitializer W
new_disk_initializer config lsblk format =
    as_disk_initializer (record { config = config; lsblk = lsblk; formatter = format })
