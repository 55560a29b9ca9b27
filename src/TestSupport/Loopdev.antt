-- ===== src/TestSupport/Loopdev.antt =====
-- cmd-drivers/tests/loopdev/loopdev.go. `Bench` is what it uses of the operating system and of the test:
-- commands with their combined output, files, the clock in milliseconds, and `t.Cleanup`. The error
-- of a call is that with which `t.Fatalf` ends the test.
pub mod Polling
use kubernetes_external_prov.Base.{
  Bool, Error, List, Result, String, [], eqb, err, errorf, if◌then◌else◌, ltb, not, ok, suc, wrapf,
  zero, ℕ, ◌++◌, ◌+◌, ◌==◌, ◌∷◌,
}
use kubernetes_external_prov.Exec.{Exec, pure, wrapped, ◌>>=◌, ◌>>◌}
use kubernetes_external_prov.Fsutils.Device.{ℤ}
use kubernetes_external_prov.Fsutils.FsType.{trim_space}
use kubernetes_external_prov.NodeScanner.{format}
use kubernetes_external_prov.Providers.Format.{Mkfs, real_format}

pub record LoopDevice : Type 0 where
  pub file_path : String
  pub device_path : String

-- What a command has written, and its status.
pub record Ran : Type 0 where
  pub output : String
  pub status : Result (Unit {0})

pub record Bench (W : Type 0) : Type 0 where
  pub uid : ℕ
  pub command : String → List String → W → Ran × W
  pub create_temp : String → Exec W String
  pub truncate : String → ℤ → Exec W (Unit {0})
  pub close : String → W → W
  pub remove : String → W → W
  pub mkdir_all : String → ℕ → Exec W (Unit {0})
  pub cleanup : (W → W) → W → W
  pub now : W → ℕ
  pub sleep : ℕ → W → W

-- The end of a loop over lsblk: an answer, a failure of lsblk, the deadline, or no fuel left.
pub data Polled : Type 0 where
  found : String → Polled
  failed : Error → Polled
  timed_out : Polled
  running : Polled

module _ {W : Type 0} (bench : Bench W) where
  -- `RequireRoot` skips the test.
  abbrev pub is_skipped : Bool
  is_skipped = not (eqb bench.uid 0)

  -- A command whose output and status are ignored.
  abbrev pub ignored : String → List String → W → W
  ignored name args w = (bench.command name args w).1

  abbrev pub with_status : String → List String → Ran × W → Result String × W
  with_status format args (ran, w) = elim ran.status [
    | ok u ↦ (ok (trim_space ran.output), w)
    | err e ↦ (err (wrapf format (args ++ ran.output ∷ []) e), w)
  ]

  -- A command whose trimmed output is wanted, and whose failure is fatal.
  abbrev pub wanted_output : String → List String → String → List String → Exec W String
  wanted_output format shown name args w = with_status format shown (bench.command name args w)

  abbrev pub detached : LoopDevice → W → W
  detached dev w =
      bench.remove dev.file_path (ignored "losetup" ("--detach" ∷ dev.device_path ∷ []) w)

  abbrev pub after_losetup : String → Result String × W → Result LoopDevice × W
  after_losetup file (err e, w) = (err e, bench.remove file w)
  after_losetup file (ok path, w) =
      let dev : LoopDevice = record { file_path = file; device_path = path } in
      (ok dev, bench.cleanup (detached dev) w)

  abbrev pub after_truncate : String → Result (Unit {0}) × W → Result LoopDevice × W
  after_truncate file (err e, w) =
      (err (wrapf "loopdev: truncate sparse file: %v" [] e), bench.remove file (bench.close file w))
  after_truncate file (ok u, w) = after_losetup file (
      wanted_output "loopdev: losetup --find --show: %v\noutput: %s" [] "losetup"
        ("--find" ∷ "--show" ∷ file ∷ []) (bench.close file w))

  -- `Create`
  unfoldable pub create : ℤ → Exec W LoopDevice
  create size = do
    file ← wrapped "loopdev: create temp file: %v" [] (bench.create_temp "loopdev-e2e-*.img")
    λ w. after_truncate file (bench.truncate file size w)

  -- `CreateN`
  unfoldable pub create_n : ℕ → ℤ → Exec W (List LoopDevice)
  unfolding create
  create_n zero size = pure []
  create_n (suc n) size = do dev ← create size; devs ← create_n n size; pure (dev ∷ devs)

  -- `Format`, by the real provider of formats, with no label.
  unfoldable pub format_device : Mkfs W → LoopDevice → String → Exec W (Unit {0})
  format_device mkfs dev fs_type = do
    wrapped "loopdev: format %s with %s: %v" (dev.device_path ∷ fs_type ∷ [])
        ((real_format mkfs).format dev.device_path (record { fs_type = fs_type; label = "" }))
    λ w. (ok tt, ignored "udevadm" ("settle" ∷ []) w)

  abbrev pub after_mount : LoopDevice → String → Result String × W → Result (Unit {0}) × W
  after_mount dev mount_point (err e, w) = (err e, w)
  after_mount dev mount_point (ok output, w) =
      (ok tt, bench.cleanup (ignored "umount" (mount_point ∷ [])) w)

  -- `Mount`
  unfoldable pub mount_device : LoopDevice → String → Exec W (Unit {0})
  mount_device dev mount_point = do
    wrapped "loopdev: mkdir %s: %v" (mount_point ∷ []) (bench.mkdir_all mount_point 0o750)
    λ w. after_mount dev mount_point (
        wanted_output "loopdev: mount %s at %s: %v\noutput: %s" (dev.device_path ∷ mount_point ∷ [])
          "mount" (dev.device_path ∷ mount_point ∷ []) w)

  -- One run of lsblk for a column of the device.
  abbrev pub ask : String → LoopDevice → Exec W String
  ask column dev =
      wanted_output "loopdev: lsblk %s for %s: %v\noutput: %s" (column ∷ dev.device_path ∷ [])
        "lsblk" ("--nodeps" ∷ "--noheadings" ∷ "--output" ∷ column ∷ dev.device_path ∷ [])

  -- `MountPoint`
  unfoldable pub mount_point : LoopDevice → Exec W String
  mount_point = ask "MOUNTPOINT"

  abbrev pub after_ask : Result String × W → Polled × W → Polled × W
  after_ask (err e, w) rest = (failed e, w)
  after_ask (ok value, w) rest = if value == "" then rest else (found value, w)

  -- The loop of `UUID` and `FSType`, on fuel.
  unfoldable pub poll : String → LoopDevice → ℕ → ℕ → W → Polled × W
  poll column dev deadline zero w = (running, w)
  poll column dev deadline (suc fuel) w =
      let asked = ask column dev w in
      let rest = poll column dev deadline fuel (bench.sleep 100 asked.1) in
      if ltb (bench.now w) deadline then after_ask asked rest else (timed_out, w)

  -- Five seconds, with a sleep of 100 ms in each round.
  abbrev pub rounds : ℕ
  rounds = 51

  unfoldable pub poll_column : String → LoopDevice → W → Polled × W
  unfolding poll
  poll_column column dev w =
      let settled = ignored "udevadm" ("settle" ∷ []) w in
      poll column dev (bench.now settled + 5000) rounds settled

  abbrev pub or_fatal : LoopDevice → Polled × W → Result String × W
  or_fatal dev (found value, w) = (ok value, w)
  or_fatal dev (failed e, w) = (err e, w)
  or_fatal dev (timed_out, w) =
      (err (errorf "loopdev: timed out waiting for UUID on %s" (dev.device_path ∷ [])), w)
  or_fatal dev (running, w) = (err (errorf "out of fuel" []), w)

  -- `UUID`
  unfoldable pub device_uuid : LoopDevice → Exec W String
  unfolding poll_column
  device_uuid dev w = or_fatal dev (poll_column "UUID" dev w)

  abbrev pub or_blank : Polled × W → Result String × W
  or_blank (found value, w) = (ok value, w)
  or_blank (failed e, w) = (err e, w)
  or_blank (timed_out, w) = (ok "", w)
  or_blank (running, w) = (err (errorf "out of fuel" []), w)

  -- `FSType`
  unfoldable pub device_fs_type : LoopDevice → Exec W String
  unfolding poll_column
  device_fs_type dev w = or_blank (poll_column "FSTYPE" dev w)
