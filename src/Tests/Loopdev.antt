-- ===== src/Tests/Loopdev.antt =====
-- A bench whose state is its clock, and whose lsblk knows the UUID from the second 3 on.
use kubernetes_external_prov.Base.{if◌then◌else◌, ltb, ok, refl, ℕ, ◌+◌, ◌≡◌}
use kubernetes_external_prov.Exec.{pure}
use kubernetes_external_prov.Fsutils.FsType.{trim_left, trim_right, trim_space}
use kubernetes_external_prov.TestSupport.Loopdev.{
  Bench, LoopDevice, Ran, device_uuid, poll, poll_column,
}

abbrev answers : ℕ → Ran
answers t = record { output = if ltb t 3000 then "\n" else "u-1\n"; status = ok tt }

abbrev bench : Bench ℕ
bench = record {
  uid = 0;
  command = λ name args t. (answers t, t + 1);
  create_temp = λ pattern'. pure "/tmp/loopdev-e2e-1.img";
  truncate = λ path size. pure tt;
  close = λ path t. t;
  remove = λ path t. t;
  mkdir_all = λ path mode. pure tt;
  cleanup = λ f t. t;
  now = λ t. t;
  sleep = λ ms t. t + ms;
}

abbrev loop5 : LoopDevice
loop5 = record { file_path = "/tmp/loopdev-e2e-1.img"; device_path = "/dev/loop5" }

-- The loop asks until the UUID is there.
uuid_in_time : (device_uuid bench loop5 0).0 ≡ ok "u-1"
unfolding device_uuid poll_column poll trim_space trim_left trim_right
uuid_in_time = refl
