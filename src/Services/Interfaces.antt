-- ===== src/Services/Interfaces.antt =====
-- The interfaces of cmd-drivers/services: what a client of a service sees of it.
use kubernetes_external_prov.Base.{List, Result, String}
use kubernetes_external_prov.Exec.{Exec}
use kubernetes_external_prov.Models.{DeviceInfo}

-- The scans only look at the world.
pub record DeviceScanner (W : Type 0) : Type 0 where
  pub scan_all : W → Result (List DeviceInfo)
  pub scan_mounted : W → Result (List DeviceInfo)
  pub scan_unmounted : W → Result (List DeviceInfo)

-- `Init` gives a list of targets, and an error or none.
pub record DiskInitializer (W : Type 0) : Type 0 where
  pub init : W → (List String × Result (Unit {0})) × W

-- The interface `DeviceMounter`.
pub record DeviceMounts (W : Type 0) : Type 0 where
  pub mount : Exec W (Unit {0})
  pub unmount : Exec W (Unit {0})
