-- ===== src/Providers/K8sMount.antt =====
-- cmd-drivers/providers/k8s_mount_provider.go over `mount.Interface` of k8s.io/mount-utils, which has the
-- same three operations.
use kubernetes_external_prov.Base.{[], ◌∷◌}
use kubernetes_external_prov.Exec.{wrapped}
use kubernetes_external_prov.Providers.{MountProvider}

-- `NewK8sMountProvider`
unfoldable pub real_mount_provider : {W : Type 0} → MountProvider W → MountProvider W
real_mount_provider mounter = record {
  mount = λ source target fs_type options.
      wrapped "mount %q → %q: %w" (source ∷ target ∷ [])
        (mounter.mount source target fs_type options);
  unmount = λ target. wrapped "unmount %q: %w" (target ∷ []) (mounter.unmount target);
  is_likely_not_mount_point = mounter.is_likely_not_mount_point;
}
