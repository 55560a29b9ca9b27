-- ===== src/TestSupport/Mocks.antt =====
-- cmd-drivers/tests/mocks: doubles of the providers, each of which calls the functions it was set up
-- with. A function that is left out is a nil dereference in the source; here each is given.
use kubernetes_external_prov.Base.{Bool, List, Option, Result, String}
use kubernetes_external_prov.Exec.{Exec}
use kubernetes_external_prov.Fsutils.Device.{BlockDevice}
use kubernetes_external_prov.Fsutils.Lsblk.{FilterFunc}
use kubernetes_external_prov.Models.{MountEntry, StatfsResult}
use kubernetes_external_prov.Providers.{
  DeviceResolver, FormatOptions, FormatProvider, Lsblk, MountInfoProvider, MountProvider,
  StatfsProvider,
}

-- init_mock.go
pub record MockFormatProvider (W : Type 0) : Type 0 where
  pub format_func : String → FormatOptions → Exec W (Unit {0})

abbrev pub mock_format : {W : Type 0} → MockFormatProvider W → FormatProvider W
mock_format m = record { format = m.format_func }

-- mounter_mock.go
pub record MockMountProvider (W : Type 0) : Type 0 where
  pub mount_func : String → String → String → List String → Exec W (Unit {0})
  pub unmount_func : String → Exec W (Unit {0})
  pub is_likely_not_mount_point_func : String → W → Result Bool

abbrev pub mock_mount : {W : Type 0} → MockMountProvider W → MountProvider W
mock_mount m = record {
  mount = m.mount_func;
  unmount = m.unmount_func;
  is_likely_not_mount_point = m.is_likely_not_mount_point_func;
}

pub record MockDeviceResolver (W : Type 0) : Type 0 where
  pub resolve_uuid_func : String → W → Result String

abbrev pub mock_resolver : {W : Type 0} → MockDeviceResolver W → DeviceResolver W
mock_resolver m = record { resolve_uuid = m.resolve_uuid_func }

-- scanner_mock.go
pub record MockMountInfoProvider (W : Type 0) : Type 0 where
  pub get_mounts_func : W → Result (List MountEntry)

abbrev pub mock_mount_info : {W : Type 0} → MockMountInfoProvider W → MountInfoProvider W
mock_mount_info m = record { get_mounts = m.get_mounts_func }

pub record MockStatfsProvider (W : Type 0) : Type 0 where
  pub statfs_func : String → W → Result StatfsResult

abbrev pub mock_statfs : {W : Type 0} → MockStatfsProvider W → StatfsProvider W
mock_statfs m = record { statfs = m.statfs_func }

pub record MockLsblk (W : Type 0) : Type 0 where
  pub get_block_devices_func : Option FilterFunc → W → Result (List BlockDevice)
  pub get_block_device_func : String → W → Result BlockDevice
  pub get_uuid_func : String → W → Result String

abbrev pub mock_lsblk : {W : Type 0} → MockLsblk W → Lsblk W
mock_lsblk m = record {
  get_block_devices = m.get_block_devices_func;
  get_block_device = m.get_block_device_func;
  get_uuid = m.get_uuid_func;
}
