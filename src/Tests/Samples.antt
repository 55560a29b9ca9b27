-- ===== src/Tests/Samples.antt =====
-- A node with a root disk, a raw disk and a disk of this provisioner.
use kubernetes_external_prov.Base.{List, [], false, ◌∷◌}
use kubernetes_external_prov.Fsutils.Device.{BlockDevice, Properties, cons, device, nil, pos}
use kubernetes_external_prov.Models.{MountEntry}

abbrev pub blank : Properties
blank = record {
  name = "";
  device_type = "disk";
  size = pos 104857600;
  rota = false;
  serial = "";
  wwn = "";
  vendor = "";
  model = "";
  rev = "";
  mountpoint = "";
  fstype = "";
  uuid = "";
  part_uuid = "";
  label = "";
  pkname = "";
}

abbrev pub sda1 : BlockDevice
sda1 =
    device
      (record blank {
        name = "/dev/sda1";
        device_type = "part";
        fstype = "ext4";
        uuid = "u-root";
        mountpoint = "/";
      })
      nil

abbrev pub sda : BlockDevice
sda = device (record blank { name = "/dev/sda" }) (cons sda1 nil)

abbrev pub sdb : BlockDevice
sdb = device (record blank { name = "/dev/sdb" }) nil

abbrev pub sdc : BlockDevice
sdc =
    device (record blank { name = "/dev/sdc"; fstype = "ext4"; uuid = "u-1"; label = "CUBBITK8S" })
      nil

abbrev pub all_devices : List BlockDevice
all_devices = sda ∷ sdb ∷ sdc ∷ []

abbrev pub root_mount : MountEntry
root_mount = record { source = "/dev/sda1"; mountpoint = "/"; fs_type = "ext4" }

abbrev pub disk_mount : MountEntry
disk_mount = record { source = "/dev/sdc"; mountpoint = "/mnt/cubbit/u-1"; fs_type = "ext4" }
