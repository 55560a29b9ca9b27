-- ===== src/Providers.antt =====
-- cmd-drivers/providers: the interfaces by which the services see the node, over the states `W` of a
-- node. Reading does not change the state; the actions give a new one.
pub mod Resolver
pub mod Format
pub mod MountInfo
pub mod Statfs
pub mod K8sMount
use kubernetes_external_prov.Fsutils.Lsblk as Command
use kubernetes_external_prov.Base.{Bool, List, Option, Result, String}
use kubernetes_external_prov.Exec.{Exec}
use kubernetes_external_prov.Fsutils.Device.{BlockDevice}
use kubernetes_external_prov.Fsutils.Lsblk.{FilterFunc}
use kubernetes_external_prov.Models.{MountEntry, StatfsResult}

-- `fsutils.LSBLK`
pub record Lsblk (W : Type 0) : Type 0 where
  pub get_block_devices : Option FilterFunc → W → Result (List BlockDevice)
  pub get_block_device : String → W → Result BlockDevice
  pub get_uuid : String → W → Result String

pub record DeviceResolver (W : Type 0) : Type 0 where
  pub resolve_uuid : String → W → Result String

pub record MountInfoProvider (W : Type 0) : Type 0 where
  pub get_mounts : W → Result (List MountEntry)

pub record StatfsProvider (W : Type 0) : Type 0 where
  pub statfs : String → W → Result StatfsResult

-- `K8sMountProvider`: source, target, filesystem type and options of a mount.
pub record MountProvider (W : Type 0) : Type 0 where
  pub mount : String → String → String → List String → Exec W (Unit {0})
  pub unmount : String → Exec W (Unit {0})
  pub is_likely_not_mount_point : String → W → Result Bool

pub record FormatOptions : Type 0 where
  pub fs_type : String
  pub label : String

pub record FormatProvider (W : Type 0) : Type 0 where
  pub format : String → FormatOptions → Exec W (Unit {0})

-- `NewLSBLK`: each call runs the lsblk command once, `GetUUID` once or twice.
abbrev pub real_lsblk : {W : Type 0} → (W → Result (List BlockDevice)) → Lsblk W
real_lsblk output = record {
  get_block_devices = λ f w. Command.get_block_devices (output w) f;
  get_block_device = λ wanted w. Command.get_block_device (output w) wanted;
  get_uuid = λ wanted w. Command.get_uuid (output w) (output w) wanted;
}
