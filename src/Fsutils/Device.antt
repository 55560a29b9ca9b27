-- ===== src/Fsutils/Device.antt =====
-- The block devices of cmd-drivers/fsutils/lsblk.go: a tree, since a device holds its children.
use kubernetes_external_prov.Base.{
  Bool, List, String, [], if◌then◌else◌, ℕ, ◌%◌, ◌++◌, ◌-◌, ◌^◌, ◌∷◌,
}

-- An `int64`: `negsuc n` is -(n + 1).
pub data ℤ : Type 0 where
  pos : ℕ → ℤ
  negsuc : ℕ → ℤ

-- `uint64(x)` of an `int64`: two's complement.
unfoldable pub to_uint64 : ℤ → ℕ
to_uint64 (pos n) = n % 2 ^ 64
to_uint64 (negsuc n) = (2 ^ 64 - 1 - n) % 2 ^ 64

-- The fields of `BlockDevice` but its children. `device_type` is `Type`.
pub record Properties : Type 0 where
  pub name : String
  pub device_type : String
  pub size : ℤ
  pub rota : Bool
  pub serial : String
  pub wwn : String
  pub vendor : String
  pub model : String
  pub rev : String
  pub mountpoint : String
  pub fstype : String
  pub uuid : String
  pub part_uuid : String
  pub label : String
  pub pkname : String

mutual
  pub data BlockDevice : Type 0 where
    device : Properties → Devices → BlockDevice

  pub data Devices : Type 0 where
    nil : Devices
    cons : BlockDevice → Devices → Devices

abbrev pub properties : BlockDevice → Properties
properties (device p cs) = p

abbrev pub to_list : Devices → List BlockDevice
to_list nil = []
to_list (cons d ds) = d ∷ to_list ds

-- `device.Children`
abbrev pub children : BlockDevice → List BlockDevice
children (device p cs) = to_list cs

-- `FlattenDevices`: a device stands before its children.
unfoldable mutual
  pub flatten_device : BlockDevice → List BlockDevice
  flatten_device (device p cs) = device p cs ∷ flatten_children cs

  pub flatten_children : Devices → List BlockDevice
  flatten_children nil = []
  flatten_children (cons d ds) = flatten_device d ++ flatten_children ds

unfoldable pub flatten_devices : List BlockDevice → List BlockDevice
unfolding flatten_device
flatten_devices [] = []
flatten_devices (d ∷ ds) = flatten_device d ++ flatten_devices ds

-- `FilterDevices`
unfoldable pub filter_devices : List BlockDevice → (BlockDevice → Bool) → List BlockDevice
filter_devices [] predicate = []
filter_devices (d ∷ ds) predicate =
    let rest = filter_devices ds predicate in if predicate d then d ∷ rest else rest
