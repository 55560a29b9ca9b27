-- ===== src/Providers/Statfs.antt =====
-- cmd-drivers/providers/statfs_provider.go
use kubernetes_external_prov.Base.{Result, String, [], ok, wrap, ℕ, ◌%◌, ◌*◌, ◌>>=◌, ◌^◌, ◌∷◌}
use kubernetes_external_prov.Fsutils.Device.{to_uint64, ℤ}
use kubernetes_external_prov.Models.{StatfsResult}
use kubernetes_external_prov.Providers.{StatfsProvider}

-- `syscall.Statfs_t`: counts of blocks, and their size, an `int64`.
pub record StatfsT : Type 0 where
  pub blocks : ℕ
  pub bfree : ℕ
  pub bsize : ℤ

abbrev pub mul_uint64 : ℕ → ℕ → ℕ
mul_uint64 a b = (a * b) % 2 ^ 64

module _ {W : Type 0} (call : String → W → Result StatfsT) where
  unfoldable pub statfs : String → W → Result StatfsResult
  unfolding to_uint64
  statfs path w = do
    stat ← wrap "statfs %q: %w" (path ∷ []) (call path w)
    ok (record {
      total_size = mul_uint64 stat.blocks (to_uint64 stat.bsize);
      free_space = mul_uint64 stat.bfree (to_uint64 stat.bsize);
    })

  abbrev pub real_statfs : StatfsProvider W
  real_statfs = record { statfs = statfs }
