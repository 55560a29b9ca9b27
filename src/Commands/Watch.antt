-- ===== src/Commands/Watch.antt =====
-- node-scanner/cmd/main.go. `Run` ends when a signal cancels its context, after some number of ticks, or
-- by a panic if the interval between them is not positive.
use kubernetes_external_prov.Base.{
  Result, Result-cases, String, [], ap, arith, err, errorf, if◌then◌else◌, inl, inr, ok, sym, ℕ,
  ◌==◌, ◌>>=◌, ◌∙◌, ◌≡◌, ◌≢◌,
}
use kubernetes_external_prov.Fsutils.Device.{pos, ℤ}
use kubernetes_external_prov.Models.{default_fs_type, default_min_size, default_mount_base}
use kubernetes_external_prov.NodeScanner.{
  Ending, Machine, ScannerConfig, cancelled, new, panicked, run_scanner,
}

-- The flags, but for the log level; the interval between scans is in nanoseconds.
pub record WatchFlags : Type 0 where
  pub scan_interval : ℤ
  pub mount_base : String
  pub fs_type : String
  pub min_size : ℕ

-- The values without flags.
abbrev pub default_watch_flags : WatchFlags
default_watch_flags = record {
  scan_interval = pos 60000000000;
  mount_base = default_mount_base;
  fs_type = default_fs_type;
  min_size = default_min_size;
}

-- The environment of the process: its variables, the configuration inside the cluster, and the machine
-- with a client for that configuration.
pub record WatchPlatform (W Config : Type 0) : Type 0 where
  pub getenv : String → String
  pub in_cluster_config : W → Result Config
  pub new_for_config : Config → Result (Machine W)

abbrev pub scanner_config : WatchFlags → String → ScannerConfig
scanner_config flags node_name = record {
  node_name = node_name;
  scan_interval = flags.scan_interval;
  mount_base = flags.mount_base;
  fs_type = flags.fs_type;
  min_size = flags.min_size;
}

-- The exit status: that of a process that ends by itself, or by a panic.
abbrev pub status_of : Ending → ℕ
status_of cancelled = 0
status_of panicked = 2

module _ {W Config : Type 0} (platform : WatchPlatform W Config) (flags : WatchFlags)
    (ticks : ℕ) where
  -- The configuration and the machine to run with, or the error that ends the program.
  unfoldable pub prepare : W → Result (ScannerConfig × Machine W)
  prepare w =
      if platform.getenv "NODE_NAME" == ""
      then err (errorf "NODE_NAME environment variable is required (set via downward API)" [])
      else (do
        config ← platform.in_cluster_config w
        machine ← platform.new_for_config config
        ok (scanner_config flags (platform.getenv "NODE_NAME"), machine))

  abbrev pub after_prepare : W → Result (ScannerConfig × Machine W) → ℕ × W
  after_prepare w (err e) = (1, w)
  after_prepare w (ok (config, machine)) =
      let (ending, prev, w') = run_scanner ticks (new config machine) w in (status_of ending, w')

  -- `main`: the exit status, and the world at the end.
  unfoldable pub watch : W → ℕ × W
  unfolding prepare
  watch w = after_prepare w (prepare w)

  status_of-not_one : (e : Ending) → status_of e ≢ 1
  status_of-not_one cancelled h = omega (arith, h)
  status_of-not_one panicked h = omega (arith, h)

  -- If the command exits with the status 1, it has left the node as it was.
  pub watch-failed : (w : W) → (watch w).0 ≡ 1 → (watch w).1 ≡ w
  unfolding watch
  watch-failed w h = elim (Result-cases (prepare w)) [
    | inl (ready, prepared) ↦ absurd (
        status_of-not_one (run_scanner ticks (new ready.0 ready.1) w).0 (
          ap (λ (r : Result (ScannerConfig × Machine W)). (after_prepare w r).0) (sym prepared)
          ∙ h))
    | inr (e, failed) ↦ rw failed
  ]
