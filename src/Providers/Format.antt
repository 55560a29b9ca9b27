-- ===== src/Providers/Format.antt =====
-- cmd-drivers/providers/format_provider.go. The mkfs command, `syscall.Sync` and `udevadm settle` are
-- the operations of `Mkfs`; what settle answers is only logged.
pub mod Laws
use kubernetes_external_prov.Base.{List, String, [], errorf, if◌then◌else◌, ok, ◌==◌, ◌^^◌, ◌∷◌}
use kubernetes_external_prov.Exec.{Exec, raise, wrapped, ◌>>◌}
use kubernetes_external_prov.Fsutils.FsType.{is_valid_fs_type}
use kubernetes_external_prov.Providers.{FormatOptions, FormatProvider}

pub record Mkfs (W : Type 0) : Type 0 where
  -- the name of the command, and its arguments
  pub run : String → List String → Exec W (Unit {0})
  pub sync : W → W
  pub settle : W → W

-- The arguments of mkfs: VFAT takes its label by `-n`, all others by `-L`.
unfoldable pub mkfs_args : String → FormatOptions → List String
mkfs_args device' opts =
    if opts.label == ""
    then device' ∷ []
    else if opts.fs_type == "vfat"
    then "-n" ∷ opts.label ∷ device' ∷ []
    else "-L" ∷ opts.label ∷ device' ∷ []

module _ {W : Type 0} (mkfs : Mkfs W) where
  -- `Format`
  unfoldable pub format : String → FormatOptions → Exec W (Unit {0})
  unfolding mkfs_args is_valid_fs_type
  format device' opts =
      if is_valid_fs_type opts.fs_type
      then (do
        wrapped "mkfs.%s %q failed: %w" (opts.fs_type ∷ device' ∷ [])
            (mkfs.run ("mkfs." ^^ opts.fs_type) (mkfs_args device' opts))
        λ w. (ok tt, mkfs.settle (mkfs.sync w)))
      else raise (errorf "unsupported filesystem type %q" (opts.fs_type ∷ []))

  abbrev pub real_format : FormatProvider W
  real_format = record { format = format }
