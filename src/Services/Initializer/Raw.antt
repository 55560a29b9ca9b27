-- ===== src/Services/Initializer/Raw.antt =====
-- Which devices the initializer takes.
use kubernetes_external_prov.Base.{
  Any, Bool-cases, List, String, [], arith, eq_iff, false≢true, inl, inr, is_empty, sym, true, ◌↔◌,
  ◌∙◌, ◌∷◌, ◌≡◌, ◌≤◌,
}
use kubernetes_external_prov.Fsutils.Device.{BlockDevice, children, properties, to_uint64}
use kubernetes_external_prov.Services.Initializer.{InitConfig, init_targets, is_target}

-- A raw disk: no partitions, no filesystem, no UUID, not mounted, and large enough.
pub record IsRaw (config : InitConfig) (d : BlockDevice) : Type 0 where
  pub bare : is_empty (children d) ≡ true
  pub no_fstype : (properties d).fstype ≡ ""
  pub no_uuid : (properties d).uuid ≡ ""
  pub unmounted : (properties d).mountpoint ≡ ""
  pub large : config.min_size ≤ to_uint64 (properties d).size

pub is_target_iff :
    (config : InitConfig) (d : BlockDevice) → (is_target config d ≡ true) ↔ IsRaw config d
unfolding is_target
is_target_iff config d = (
  λ h. record {
    bare = ground arith;
    no_fstype = ground (arith, eq_iff (properties d).fstype "");
    no_uuid = ground (arith, eq_iff (properties d).uuid "");
    unmounted = ground (arith, eq_iff (properties d).mountpoint "");
    large = ground arith;
  },
  λ r. ground (
    arith,
    r.bare,
    r.large,
    eq_iff (properties d).fstype "",
    eq_iff (properties d).uuid "",
    eq_iff (properties d).mountpoint "",
    r.no_fstype,
    r.no_uuid,
    r.unmounted,
  ),
)

-- A raw top-level device of that name.
abbrev pub HasRaw : InitConfig → List BlockDevice → String → Type 0
HasRaw config ds x = Any (λ d. IsRaw config d × ((properties d).name ≡ x)) ds

abbrev pub Member : String → List String → Type 0
Member x xs = Any (λ y. y ≡ x) xs

pub targets_raw :
    (config : InitConfig) (ds : List BlockDevice) (x : String)
    → Member x (init_targets config ds) ↔ HasRaw config ds x
unfolding init_targets
targets_raw config [] x = (λ h. h, λ h. h)
targets_raw config (d ∷ ds) x = elim (Bool-cases (is_target config d)) [
  | inl raw ↦
      rw (raw, init_targets)
        (
          λ h. elim h [
            | inl e ↦ inl ((is_target_iff config d).0 raw, e)
            | inr later ↦ inr ((targets_raw config ds x).0 later)
          ],
          λ h. elim h [ inl e ↦ inl e.1 | inr later ↦ inr ((targets_raw config ds x).1 later) ],
        )
  | inr other ↦
      rw (other, init_targets)
        (
          λ h. inr ((targets_raw config ds x).0 h),
          λ h. elim h [
            | inl e ↦ absurd (false≢true (sym other ∙ (is_target_iff config d).1 e.0))
            | inr later ↦ (targets_raw config ds x).1 later
          ],
        )
]
