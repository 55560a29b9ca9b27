-- ===== src/Tests/Commands.antt =====
-- The node scanner's command without its environment, the provisioner's options, and a logger in a context.
use kubernetes_external_prov.Base.{
  Option, String, [], err, errorf, external, false, none, ok, refl, some, ℕ, ◌≡◌,
}
use kubernetes_external_prov.Commands.Control.{as_provisioner, controller_options}
use kubernetes_external_prov.Commands.Control.Contract.{IsProvisioner, as_provisioner-IsProvisioner}
use kubernetes_external_prov.Commands.Serve.{healthy, mutated, route}
use kubernetes_external_prov.Commands.Watch.{WatchPlatform, default_watch_flags, prepare, watch}
use kubernetes_external_prov.Fsutils.Device.{pos}
use kubernetes_external_prov.Logger.{
  Context, background, derive, from_context, init_level, value_of, with_logger,
}
use kubernetes_external_prov.Models.{provisioner_name}
use kubernetes_external_prov.NodeScanner.{is_interval}
use kubernetes_external_prov.Provisioner.{ProvisionerClient, new_provisioner}
use kubernetes_external_prov.Tests.Cluster.{cluster, one_disk, quantity}
use kubernetes_external_prov.Webhook.{bad_request, handle}

abbrev no_environment : WatchPlatform ℕ ℕ
no_environment = record {
  getenv = λ name. "";
  in_cluster_config = λ w. ok 0;
  new_for_config = λ n. err (external "no API server");
}

no_node_name : watch no_environment default_watch_flags 3 7 ≡ (1, 7)
unfolding watch prepare
no_node_name = refl

-- The controller is run for the name that the provisioner puts on its volumes.
controller_name : controller_options.provisioner_name ≡ provisioner_name
controller_name = refl

abbrev console : Option (Context String)
console = some (derive 2 (with_logger background "console"))

found_logger : from_context "nop" console ≡ "console"
unfolding from_context value_of
found_logger = refl

empty_level : init_level {Level = String} (λ name. ok "info") "warn" "" ≡ "warn"
unfolding init_level
empty_level = refl

health_route : route cluster "/healthz" (ok none) ≡ healthy
unfolding route
health_route = refl

no_request :
    route cluster "/mutate" (ok none)
    ≡ mutated (bad_request (errorf "missing request in AdmissionReview" []))
unfolding route handle
no_request = refl

-- A client that knows no node.
abbrev no_nodes : ProvisionerClient ℕ
no_nodes = record { get_node = λ name w. err (external "not found") }

as_provisioner-IsProvisioner_example :
    IsProvisioner (as_provisioner 0 quantity one_disk (new_provisioner no_nodes))
as_provisioner-IsProvisioner_example = as_provisioner-IsProvisioner 0 quantity one_disk no_nodes

-- An interval of 0 is none.
no_interval : is_interval (pos 0) ≡ false
no_interval = refl
