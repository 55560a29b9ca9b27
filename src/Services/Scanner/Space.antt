-- ===== src/Services/Scanner/Space.antt =====
-- The sizes of a mounted device.
use native.Mathlib.Nat.{le_refl, mul-le-mul_left, mul_comm}
use kubernetes_external_prov.Base.{
  Result, String, arith, ok, refl, subst, ℕ, ◌%◌, ◌*◌, ◌+◌, ◌<◌, ◌^◌, ◌≡◌, ◌≤◌,
}
use kubernetes_external_prov.Fsutils.Device.{pos, to_uint64}
use kubernetes_external_prov.Models.{MountEntry}
use kubernetes_external_prov.Providers.{Lsblk, MountInfoProvider}
use kubernetes_external_prov.Providers.Statfs.{StatfsT, mul_uint64, real_statfs, statfs}
use kubernetes_external_prov.Services.Scanner.{ScanConfig, mounted_info, sub_uint64}

exact_mod : (n : ℕ) → n < 2 ^ 64 → n % 2 ^ 64 ≡ n
exact_mod n h = omega arith

exact_sub : (total free : ℕ) → free ≤ total → total < 2 ^ 64 → sub_uint64 total free + free ≡ total
exact_sub total free h g = omega arith

mul_uint64-exact :
    (blocks size bound : ℕ)
    → size < 2 ^ 63
    → blocks * size ≤ bound
    → bound < 2 ^ 64
    → mul_uint64 blocks (to_uint64 (pos size)) ≡ blocks * size
unfolding to_uint64
mul_uint64-exact blocks size bound small less fits =
    rw (exact_mod size (omega arith)) (exact_mod (blocks * size) (omega arith))

free_le : (bfree blocks size : ℕ) → bfree ≤ blocks → bfree * size ≤ blocks * size
free_le bfree blocks size h =
    subst (λ n. n ≤ blocks * size) (mul_comm size bfree)
      (subst (λ n. size * bfree ≤ n) (mul_comm size blocks) (mul-le-mul_left size h))

module _ {W : Type 0} (config : ScanConfig) (lsblk : Lsblk W) (mounts : MountInfoProvider W)
    (call : String → W → Result StatfsT) where
  module _ (w : W) (entry : MountEntry) (stat : StatfsT) (size : ℕ)
      (called : call entry.mountpoint w ≡ ok stat) (sized : stat.bsize ≡ pos size)
      (small : size < 2 ^ 63) (less : stat.bfree ≤ stat.blocks)
      (fits : stat.blocks * size < 2 ^ 64) where
    exact_statfs :
        statfs call entry.mountpoint w
        ≡ ok (record { total_size = stat.blocks * size; free_space = stat.bfree * size })
    unfolding statfs
    exact_statfs = rw called (
        rw sized (
          rw
            (
              mul_uint64-exact stat.blocks size (stat.blocks * size) small
                  (le_refl (stat.blocks * size)) fits,
              mul_uint64-exact stat.bfree size (stat.blocks * size) small
                  (free_le stat.bfree stat.blocks size less) fits,
            )
            refl))

    -- Where statfs succeeds, with a block size that an `int64` holds, no more free blocks than
    -- blocks, and a total that a `uint64` holds, nothing wraps: a mounted device is reported with
    -- the exact total and free size, and the used and the free space make up the total.
    pub mounted_info_space :
        let info = mounted_info config lsblk mounts (real_statfs call) w entry in
        (info.total_size ≡ stat.blocks * size)
        × (info.free_space ≡ stat.bfree * size)
        × (info.used_space + info.free_space ≡ info.total_size)
    unfolding mounted_info
    mounted_info_space = rw exact_statfs (
      refl,
      refl,
      exact_sub (stat.blocks * size) (stat.bfree * size) (free_le stat.bfree stat.blocks size less)
          fits,
    )
