-- ===== src/TestSupport/Loopdev/Polling.antt =====
-- The loops that wait for udev end in time.
use kubernetes_external_prov.Base.{List, String, false, ℕ, ◌+◌, ◌==◌, ◌≡◌, ◌≤◌}
use kubernetes_external_prov.TestSupport.Loopdev.{Bench, Polled, failed, found, running, timed_out}

-- What the clock does: no command sets it back, and a sleep lasts at least as long as it is asked for.
pub record ClockLaws {W : Type 0} (bench : Bench W) : Type 0 where
  pub runs :
      (name : String) (args : List String) (w : W)
      → bench.now w ≤ bench.now (bench.command name args w).1
  pub sleeps : (ms : ℕ) (w : W) → bench.now w + ms ≤ bench.now (bench.sleep ms w)

-- What the loop ends with: an answer that is not empty, the failure of lsblk, or the time, which is up.
abbrev pub HasEnded : {W : Type 0} → Bench W → ℕ → Polled × W → Type 0
HasEnded bench deadline (found value, w) = (value == "") ≡ false
HasEnded bench deadline (failed e, w) = Unit
HasEnded bench deadline (timed_out, w) = deadline ≤ bench.now w
HasEnded bench deadline (running, w) = ⊥
