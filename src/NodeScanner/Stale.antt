-- ===== src/NodeScanner/Stale.antt =====
-- What becomes of the label of a disk that is gone.
use kubernetes_external_prov.Base.{
  Bool, Dict, List, Option, Result, String, [], arith, contains, eq_refl, err, false, if◌then◌else◌,
  inl, inr, insert, lookup, lookup-insert, none, ok, refl, some, suc, true, zero, ℕ, ◌==◌, ◌∙◌, ◌∷◌,
  ◌≡◌, ◌⊎◌,
}
use kubernetes_external_prov.Exec.{Exec}
use kubernetes_external_prov.Exec.Keeps.{Keeps}
use kubernetes_external_prov.Models.{DeviceInfo}
use kubernetes_external_prov.NodeScanner.{
  Machine, NodePatch, ScannerConfig, add_labels, after_mounts, after_scan, current_uuids,
  drop_labels, format, init_config, lsblk, mount_all, patch_labels, publish, run, scan, scan_config,
}
use kubernetes_external_prov.NodeScanner.Labels.{label_of_uuid}
use kubernetes_external_prov.NodeScanner.Mounts.{mount_all-Keeps}
use kubernetes_external_prov.Providers.{FormatOptions}
use kubernetes_external_prov.Providers.Format.Laws.{format-Keeps}
use kubernetes_external_prov.Services.Initializer.{init}
use kubernetes_external_prov.Services.Initializer.Keeping.{init-Keeps}
use kubernetes_external_prov.Services.Scanner.{scan_unmounted}

-- What a patch says of a label: nothing, or that it is "true".
abbrev pub IsSetOrLeft : Dict (Option String) → String → Type 0
IsSetOrLeft m k = (lookup k m ≡ none) ⊎ (lookup k m ≡ some (some "true"))

add_labels-IsSetOrLeft :
    (us : List String) (m : Dict (Option String)) (k : String)
    → IsSetOrLeft m k
    → IsSetOrLeft (add_labels us m) k
unfolding add_labels
add_labels-IsSetOrLeft [] m k h = h
add_labels-IsSetOrLeft (u ∷ us) m k h =
    add_labels-IsSetOrLeft us (insert (label_of_uuid u) (some "true") m) k
      (rw (lookup-insert (label_of_uuid u) k (some "true") m) (go (label_of_uuid u == k)))
  where
    go :
        (b : Bool)
        → ((if b then some (some "true") else lookup k m) ≡ none)
          ⊎ ((if b then some (some "true") else lookup k m) ≡ some (some "true"))
    go true = inr refl
    go false = h

contains-head : (u : String) (us : List String) → contains (u ∷ us) u ≡ true
unfolding contains
contains-head u us = rw (eq_refl u)

-- Where every previous UUID is current, nothing is dropped.
drop_labels-none :
    (current us : List String) (m : Dict (Option String))
    → ((u : String) → contains us u ≡ true → contains current u ≡ true)
    → drop_labels current us m ≡ m
unfolding drop_labels
drop_labels-none current [] m h = refl
drop_labels-none current (u ∷ us) m h =
    rw (h u (contains-head u us), drop_labels)
      (drop_labels-none current us m (λ v c. h v (contains-tail u us v c)))
  where
    contains-tail :
        (x : String) (xs : List String) (v : String)
        → contains xs v ≡ true
        → contains (x ∷ xs) v ≡ true
    contains-tail x xs v c = unfold contains in ground arith

patch_labels_self :
    (current : List String) (k : String) → IsSetOrLeft (patch_labels current current) k
unfolding patch_labels lookup
patch_labels_self current k =
    rw (drop_labels-none current current (add_labels current []) (λ u c. c))
      (add_labels-IsSetOrLeft current [] k (inl refl))

module _ {W : Type 0} (config : ScannerConfig) (machine : Machine W)
    (label : W → String → Option String) where
  -- Only patches change the labels of the node: a patch that succeeds sets those that it names, a
  -- failed one sets them or not, and a retry makes no other calls than the one that it is given.
  pub record LabelLaws : Type 1 where
    pub run_quiet :
        (c : String) (args : List String) (w : W) (k : String)
        → label (machine.mkfs.run c args w).1 k ≡ label w k
    pub sync_quiet : (w : W) (k : String) → label (machine.mkfs.sync w) k ≡ label w k
    pub settle_quiet : (w : W) (k : String) → label (machine.mkfs.settle w) k ≡ label w k
    pub mkdir_quiet :
        (path : String) (mode : ℕ) (w : W) (k : String)
        → label (machine.files.mkdir_all path mode w).1 k ≡ label w k
    pub mount_quiet :
        (source target fs_type : String) (opts : List String) (w : W) (k : String)
        → label (machine.mount_utils.mount source target fs_type opts w).1 k ≡ label w k
    pub patched :
        (node : String) (p : NodePatch) (w : W) (k : String)
        → (label (machine.patch_node node p w).1 k ≡ label w k)
          ⊎ ((v : Option String) × (lookup k p.labels ≡ some v)
              × (label (machine.patch_node node p w).1 k ≡ v))
    pub retried :
        (P : W → Type 0) (m : Exec W (Unit {0})) → Keeps P m → Keeps P (machine.retry_on_conflict m)

  module _ (laws : LabelLaws) (k : String) where
    abbrev Labelled : W → Type 0
    Labelled w = label w k ≡ some "true"

    format-Labelled :
        (dev : String) (opts : FormatOptions)
        → Keeps Labelled ((format config machine).format dev opts)
    format-Labelled dev opts =
        format-Keeps machine.mkfs Labelled (λ w p. laws.sync_quiet w k ∙ p)
          (λ w p. laws.settle_quiet w k ∙ p) dev opts (λ c w p. laws.run_quiet c _ w k ∙ p)

    mount_all-Labelled :
        (devs : List DeviceInfo) (w : W) → Labelled w → Labelled (mount_all config machine devs w)
    mount_all-Labelled =
        mount_all-Keeps config machine Labelled
          (λ path mode v p. laws.mkdir_quiet path mode v k ∙ p)
          (λ source target fs_type opts v p. laws.mount_quiet source target fs_type opts v k ∙ p)

    patch-Labelled :
        (node : String) (p : NodePatch)
        → IsSetOrLeft p.labels k
        → Keeps Labelled (machine.patch_node node p)
    patch-Labelled node p h w q = elim (laws.patched node p w k) [
      | inl same ↦ same ∙ q
      | inr (v, named, now) ↦ elim h [ inl absent ↦ cc | inr set ↦ cc ]
    ]

    publish-Labelled :
        (devs : List DeviceInfo) (w : W) → Labelled w → Labelled (publish config machine devs w).2
    unfolding publish
    publish-Labelled devs =
        laws.retried Labelled _
          (patch-Labelled config.node_name _ (patch_labels_self (current_uuids devs) k))

    -- If only patches change the labels of the node, and a patch changes only those that it names,
    -- then a label that the node has with the value "true" is still there after a scan, whether
    -- the scan fails or not and whatever devices it finds: the label of a disk that is gone is
    -- never removed.
    pub scan_keeps_label :
        (prev : List String) (w : W)
        → label w k ≡ some "true"
        → label (scan config machine prev w).2 k ≡ some "true"
    unfolding scan
    scan_keeps_label prev w p = scanned (
        init-Keeps (init_config config machine) (format config machine) Labelled
          (lsblk config machine) (λ dev. format-Labelled dev _) w p)
      where
        w1 : W
        w1 = (init (init_config config machine) (format config machine) (lsblk config machine) w).1

        remounted :
            (w2 : W) (r : Result (List DeviceInfo))
            → Labelled w2
            → Labelled (after_mounts config machine prev w2 r).2
        remounted w2 (err e) q = q
        remounted w2 (ok devs) q = publish-Labelled devs w2 q

        after :
            (r : Result (List DeviceInfo))
            → Labelled w1
            → Labelled (after_scan config machine prev w1 r).2
        after (err e) q = q
        after (ok devs) q =
            remounted (mount_all config machine devs w1) _ (mount_all-Labelled devs w1 q)

        scanned :
            Labelled w1
            → Labelled
                (after_scan config machine prev w1
                  (scan_unmounted (scan_config config machine) (lsblk config machine) w1)).2
        scanned = after _

    -- If only patches change the labels of the node, and a patch changes only those that it names,
    -- then a label that the node has with the value "true" is still there after any number of
    -- scans of `Run`, whether they fail or not and whatever devices they find: the label of a disk
    -- that is gone is never removed.
    pub run_keeps_label :
        (ticks : ℕ) (prev : List String) (w : W)
        → label w k ≡ some "true"
        → label (run config machine ticks prev w).1 k ≡ some "true"
    unfolding run
    run_keeps_label zero prev w p = scan_keeps_label prev w p
    run_keeps_label (suc ticks) prev w p =
        run_keeps_label ticks (scan config machine prev w).1 (scan config machine prev w).2
          (scan_keeps_label prev w p)
