-- ===== src/GpuWatch/Hangs.antt =====
-- A hang is ended within a bound, and a desktop that answers is left alone.
use ubuntu_install_on_samsun.Prelude.{
  ℕ, suc, ◌+◌, ◌≤◌, ◌<◌, ◌≡◌, refl, inl, inr, Bool, true, not, ◌&&◌, List, [], ◌∷◌, arith, leb,
  if◌then◌else◌, Bool-cases, pos,
}
use ubuntu_install_on_samsun.GpuWatch.{
  Turn, exits, watching, is_running, watch_health, watch_start, supervise,
}

abbrev pub all_running : List Turn → Bool
all_running [] = true
all_running (t ∷ ts) = is_running t && all_running ts

abbrev pub all_ready : List Turn → Bool
all_ready [] = true
all_ready (t ∷ ts) = t.ready && all_ready ts

abbrev pub none_ready : List Turn → Bool
none_ready [] = true
none_ready (t ∷ ts) = not t.ready && none_ready ts

watch_health-ready :
    (interval limit next : ℕ) (ts : List Turn)
    → 0 < limit
    → all_running ts ≡ true
    → all_ready ts ≡ true
    → (failures : ℕ) → watch_health interval limit next failures ts ≡ watching
unfolding watch_health
watch_health-ready interval limit next [] some_limit r a failures = refl
watch_health-ready interval limit next (t ∷ ts) some_limit r a failures = ground (
  arith,
  watch_health-ready interval limit next ts some_limit (ground arith) (ground arith) failures,
  watch_health-ready interval limit (t.later + interval) ts some_limit (ground arith) (ground arith)
      0,
)

-- A child that keeps running and answers at every turn is never stopped.
pub supervise_ready :
    (begin startup_timeout health_interval health_failures : ℕ) (ts : List Turn)
    → 0 < health_failures
    → all_running ts ≡ true
    → all_ready ts ≡ true
    → supervise begin startup_timeout health_interval health_failures ts ≡ watching
unfolding supervise watch_start
supervise_ready begin startup_timeout health_interval health_failures [] l r a = refl
supervise_ready begin startup_timeout health_interval health_failures (t ∷ ts) l r a = ground (
  arith,
  watch_health-ready health_interval health_failures (t.later + health_interval) ts l (ground arith)
      (ground arith) 0,
)

-- How many of the turns are due for a check: those that do not come before the time of the next
-- one, which stands an interval behind the end of the check before it. The others wait.
abbrev pub due_checks : ℕ → ℕ → List Turn → ℕ
due_checks interval next [] = 0
due_checks interval next (t ∷ ts) =
    let checked = due_checks interval (t.later + interval) ts in
    let waiting = due_checks interval next ts in if leb next t.now then suc checked else waiting

watch_health-hung :
    (interval limit next failures : ℕ) (ts : List Turn)
    → all_running ts ≡ true
    → none_ready ts ≡ true
    → failures < limit
    → limit ≤ failures + due_checks interval next ts
    → watch_health interval limit next failures ts ≡ exits (pos 1)
unfolding watch_health
watch_health-hung interval limit next failures [] r n below h = absurd (omega arith)
watch_health-hung interval limit next failures (t ∷ ts) r n below h =
    elim (Bool-cases (leb next t.now)) [
      | inl due ↦ elim (Bool-cases (leb limit (suc failures))) [
        | inl reached ↦ ground arith
        | inr more ↦ ground (
          arith,
          watch_health-hung interval limit (t.later + interval) (suc failures) ts (ground arith)
              (ground arith) (ground arith) (ground arith),
        )
      ]
      | inr waits ↦ ground (
        arith,
        watch_health-hung interval limit next failures ts (ground arith) (ground arith) below
            (ground arith),
      )
    ]

-- A desktop that was ready and then answers at none of as many due checks as a positive limit, with any
-- number of turns that are not due between them, is given up with 1, for the launcher to fall
-- back, while its child still runs.
pub supervise_hung :
    (begin startup_timeout health_interval health_failures : ℕ) (t : Turn) (ts : List Turn)
    → is_running t ≡ true
    → t.ready ≡ true
    → all_running ts ≡ true
    → none_ready ts ≡ true
    → 0 < health_failures
    → health_failures ≤ due_checks health_interval (t.later + health_interval) ts
    → supervise begin startup_timeout health_interval health_failures (t ∷ ts) ≡ exits (pos 1)
unfolding supervise watch_start
supervise_hung begin startup_timeout health_interval health_failures t ts r a rs n some_limit h =
    ground (
      arith,
      watch_health-hung health_interval health_failures (t.later + health_interval) 0 ts rs n
          some_limit (omega arith),
    )
