-- ===== src/Commands/Control.antt =====
-- provisioner/cmd/main.go. The controller of the library sig-storage-lib-external-provisioner is the
-- platform's: it is given its options and the provisioner, and calls `Provision` and `Delete`.
pub mod Contract
use kubernetes_external_prov.Provisioner.{delete as delete_pv, provision as provision_pv}
use kubernetes_external_prov.Base.{Bool, Dict, Result, String, err, ok, true, ℕ, ◌>>=◌}
use kubernetes_external_prov.Fsutils.Device.{ℤ}
use kubernetes_external_prov.Models.{DiskEntry}
use kubernetes_external_prov.Provisioner.{
  LocalDiskProvisioner, PersistentVolume, ProvisionOptions, ProvisionerClient, ProvisioningState,
  new_provisioner,
}

-- The arguments of `NewProvisionController` but for the client.
pub record ControllerOptions : Type 0 where
  pub provisioner_name : String
  pub leader_election : Bool
  pub failed_provision_threshold : ℕ
  pub metrics_port : ℕ
  pub exponential_back_off_on_error : Bool

abbrev pub controller_options : ControllerOptions
controller_options = record {
  provisioner_name = "agent.cubbit.io/local-disk";
  leader_election = true;
  failed_provision_threshold = 10;
  metrics_port = 8080;
  exponential_back_off_on_error = true;
}

-- `controller.Provisioner`, for a provisioner that looks at the world and leaves it alone.
pub record ControllerProvisioner (Q W : Type 0) : Type 0 where
  pub provision : ProvisionOptions Q → W → Result (PersistentVolume Q) × ProvisioningState
  pub delete : PersistentVolume Q → Result (Unit {0})

module _ {Q W : Type 0} (zero_quantity : Q) (new_quantity : ℤ → Q)
    (unmarshal : String → Result (Dict DiskEntry)) where
  -- The methods of `LocalDiskProvisioner`.
  abbrev pub as_provisioner : LocalDiskProvisioner W → ControllerProvisioner Q W
  as_provisioner p = record {
    provision = provision_pv zero_quantity new_quantity p.client.get_node unmarshal;
    delete = delete_pv;
  }

pub record ControlPlatform (Q W Config : Type 0) : Type 0 where
  pub in_cluster_config : W → Result Config
  pub new_for_config : Config → Result (ProvisionerClient W)
  pub run_controller : ControllerOptions → ProvisionerClient W → ControllerProvisioner Q W → W → W

module _ {Q W Config : Type 0} (platform : ControlPlatform Q W Config) (zero_quantity : Q)
    (new_quantity : ℤ → Q) (unmarshal : String → Result (Dict DiskEntry)) where
  abbrev pub after_client : W → Result (ProvisionerClient W) → ℕ × W
  after_client w (err e) = (1, w)
  after_client w (ok client) = (
    0,
    platform.run_controller controller_options client
        (as_provisioner zero_quantity new_quantity unmarshal (new_provisioner client)) w,
  )

  -- `main`
  unfoldable pub control : W → ℕ × W
  control w = after_client w (platform.in_cluster_config w >>= platform.new_for_config)
