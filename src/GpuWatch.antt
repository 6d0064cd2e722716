-- ===== src/GpuWatch.antt =====
-- ubuntu/t630-gpu-session-watch.py: the watch over the start and the later hangs of the GPU
-- desktop. Each turn of a loop is one observation; times are milliseconds.
pub mod Hangs
mod Scenarios
use ubuntu_install_on_samsun.Prelude.{
  ℕ, zero, suc, ◌+◌, Bool, true, false, not, ◌&&◌, Option, none, some, List, [], ◌∷◌, leb,
  if◌then◌else◌, is_some, ℤ, pos,
}

-- What a turn sees: the child's return code once it has ended, whether a signal asked to stop,
-- whether the desktop answers on the bus, and the clock, also once more behind the answer.
pub record Turn : Type 0 where
  pub returncode : Option ℤ
  pub stopping : Bool
  pub ready : Bool
  pub now : ℕ
  pub later : ℕ

-- The value that `supervise` returns, or that it still watches after the observed turns.
pub data Verdict : Type 0 where
  exits : ℤ → Verdict
  watching : Verdict

abbrev pub is_running : Turn → Bool
is_running t = not (is_some t.returncode) && not t.stopping

-- `143 if stopping else child.returncode`
abbrev pub final_code : Bool → Option ℤ → Verdict
final_code true code = exits (pos 143)
final_code false none = watching
final_code false (some code) = exits code

-- `child.returncode or 1`
abbrev pub or_one : Verdict → Verdict
or_one (exits (pos zero)) = exits (pos 1)
or_one verdict = verdict

abbrev pub count_failures : Bool → ℕ → ℕ
count_failures true failures = 0
count_failures false failures = suc failures

-- The second loop.
unfoldable pub watch_health : ℕ → ℕ → ℕ → ℕ → List Turn → Verdict
watch_health interval limit next failures [] = watching
watch_health interval limit next failures (t ∷ ts) =
    let counted = count_failures t.ready failures in
    let checked = watch_health interval limit (t.later + interval) counted ts in
    let waiting = watch_health interval limit next failures ts in
    if is_running t
    then (if leb next t.now
        then (if leb limit counted then exits (pos 1) else checked)
        else waiting)
    else final_code t.stopping t.returncode

-- The first loop, which goes over to the second once the desktop is ready.
unfoldable pub watch_start : ℕ → ℕ → ℕ → List Turn → Verdict
unfolding watch_health
watch_start deadline interval limit [] = watching
watch_start deadline interval limit (t ∷ ts) =
    let health = watch_health interval limit (t.later + interval) 0 ts in
    let waiting = watch_start deadline interval limit ts in
    if is_running t
    then (if t.ready then health else if leb deadline t.now then exits (pos 1) else waiting)
    else or_one (final_code t.stopping t.returncode)

-- `supervise` from the start of the child at some time.
unfoldable pub supervise : ℕ → ℕ → ℕ → ℕ → List Turn → Verdict
unfolding watch_start
supervise begin startup_timeout health_interval health_failures ts =
    watch_start (begin + startup_timeout) health_interval health_failures ts

-- What `stop_owned_child` does to the child, which `finally` calls after every verdict.
pub data Signal : Type 0 where
  terminate kill : Signal

abbrev pub stop_owned_child : Option ℤ → Bool → List Signal
stop_owned_child (some code) ends_in_grace = []
stop_owned_child none true = terminate ∷ []
stop_owned_child none false = terminate ∷ kill ∷ []
