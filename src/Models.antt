-- ===== src/Models.antt =====
-- cmd-drivers/models/devicescan.go and commonlib: the records that the components exchange, and the
-- names that they agree on.
use kubernetes_external_prov.Base.{String, ℕ}

pub data DeviceStatus : Type 0 where
  mounted partitioned not_partitioned : DeviceStatus

pub record DeviceInfo : Type 0 where
  pub uuid : String
  pub device : String
  pub mount_path : String
  pub fs_type : String
  pub status : DeviceStatus
  pub total_size : ℕ
  pub free_space : ℕ
  pub used_space : ℕ

pub record MountEntry : Type 0 where
  pub source : String
  pub mountpoint : String
  pub fs_type : String

pub record StatfsResult : Type 0 where
  pub total_size : ℕ
  pub free_space : ℕ

-- `DiskEntry`, the value of the disk map in the node's annotation.
pub record DiskEntry : Type 0 where
  pub path : String
  pub size : ℕ

abbrev pub provisioner_name : String
provisioner_name = "agent.cubbit.io/local-disk"

abbrev pub label_uuid_prefix : String
label_uuid_prefix = "agent.cubbit.io/has-uuid-"

abbrev pub annotation_disk_map : String
annotation_disk_map = "agent.cubbit.io/disk-uuid-map"

abbrev pub pvc_annotation_uuid : String
pvc_annotation_uuid = "agent.cubbit.io/disk-uuid"

abbrev pub annotation_provisioned_by : String
annotation_provisioned_by = "agent.cubbit.io/provisioned-by"

abbrev pub default_mount_base : String
default_mount_base = "/mnt/cubbit"

abbrev pub default_fs_type : String
default_fs_type = "ext4"

abbrev pub default_min_size : ℕ
default_min_size = 52428800

abbrev pub default_label : String
default_label = "CUBBITK8S"
