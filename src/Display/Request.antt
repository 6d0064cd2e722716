-- ===== src/Display/Request.antt =====
-- DisplaySettings.request: one request line, its effect and the answer.
pub mod Safety
use ubuntu_install_on_samsun.Prelude.{
  ℕ, ◌+◌, ◌*◌, Bool, ◌&&◌, ◌||◌, none, some, List, [], ◌∷◌, if◌then◌else◌, is_some, Result, ok, err,
  ◌>>=◌, ◌>>◌, ℤ, pos, codes, same, split, to_int,
}
use ubuntu_install_on_samsun.Display.Flashlight
use ubuntu_install_on_samsun.Display.Flashlight.{Flashlight, FlashlightError, second}
use ubuntu_install_on_samsun.Display.Settings
use ubuntu_install_on_samsun.Display.Settings.{
  int, bool, DisplayError, unsupported_request, not_a_number, action_pending, flashlight_error,
  SystemAction, poweroff, reboot, Display, Status, validate, status,
}

-- The branches of the `elif` chain that `parts` selects.
pub data Command : Type 0 where
  status_only : Command
  brightness idle : List ℕ → Command
  auto_suspend : Bool → Command
  inhibit flashlight_on flashlight_off flashlight_renew : Command
  flashlight_brightness : List ℕ → Command
  system : SystemAction → Command
  unsupported : Command

one_word : List ℕ → Command
one_word a =
    if same a (codes "STATUS")
    then status_only
    else if same a (codes "INHIBIT")
    then inhibit
    else unsupported

flashlight_word : List ℕ → Command
flashlight_word b =
    if same b (codes "ON")
    then flashlight_on
    else if same b (codes "OFF")
    then flashlight_off
    else if same b (codes "RENEW")
    then flashlight_renew
    else unsupported

two_words : List ℕ → List ℕ → Command
unfolding flashlight_word
two_words a b =
    if same a (codes "BRIGHTNESS")
    then brightness b
    else if same a (codes "IDLE")
    then idle b
    else if same a (codes "AUTO_SUSPEND") && (same b (codes "ON") || same b (codes "OFF"))
    then auto_suspend (same b (codes "ON"))
    else if same a (codes "FLASHLIGHT")
    then flashlight_word b
    else if same a (codes "SYSTEM") && same b (codes "POWEROFF")
    then system poweroff
    else if same a (codes "SYSTEM") && same b (codes "REBOOT")
    then system reboot
    else unsupported

three_words : List ℕ → List ℕ → List ℕ → Command
three_words a b c =
    if same a (codes "FLASHLIGHT") && same b (codes "BRIGHTNESS")
    then flashlight_brightness c
    else unsupported

unfoldable pub command : List (List ℕ) → Command
unfolding one_word two_words three_words
command (a ∷ []) = one_word a
command (a ∷ b ∷ []) = two_words a b
command (a ∷ b ∷ c ∷ []) = three_words a b c
command _ = unsupported

-- `int(token)`, which raises ValueError.
abbrev pub number : List ℕ → Result DisplayError ℤ
number token = elim (to_int token) [ none ↦ err not_a_number | some n ↦ ok n ]

-- A method of the flashlight that may raise; none of the flashlight branches is taken without one.
abbrev pub with_flashlight :
    (Flashlight → Result FlashlightError Flashlight) → Display → Result DisplayError Display
with_flashlight method d = elim d.flashlight [
  | none ↦ err unsupported_request
  | some f ↦ elim (method f) [
    | ok f' ↦ ok (record d { flashlight = some f' })
    | err e ↦ err (flashlight_error e)
  ]
]

set_idle : ℕ → ℤ → Display → Result DisplayError Display
unfolding validate status
set_idle now seconds d = do
  checked ← validate (int (pos (status d).brightness)) (int seconds) (bool d.auto_suspend)
  ok (record d { idle_seconds = checked.1; dirty_at = some now })

unfoldable pub perform : ℕ → Command → Display → Result DisplayError Display
unfolding Settings.set_brightness Flashlight.on Flashlight.off Flashlight.renew
    Flashlight.set_brightness set_idle
perform now status_only d = ok d
perform now (brightness token) d = do
  percent ← number token
  Settings.set_brightness (int percent) (some now) d
perform now (idle token) d = do seconds ← number token; set_idle now seconds d
perform now (auto_suspend value) d = ok (record d { auto_suspend = value; dirty_at = some now })
perform now inhibit d = ok (record d { inhibit_until = now + 40 * second })
perform now flashlight_on d = with_flashlight (λ f. ok (Flashlight.on now f)) d
perform now flashlight_off d = with_flashlight (λ f. ok (Flashlight.off f)) d
perform now flashlight_renew d = with_flashlight (Flashlight.renew now) d
-- Without a flashlight the token is not even read.
perform now (flashlight_brightness token) d = elim d.flashlight [
  | none ↦ err unsupported_request
  | some f ↦ number token >>= λ percent. with_flashlight (Flashlight.set_brightness percent now) d
]
perform now (system action) d =
    if is_some d.system_action
    then err action_pending
    else ok (record d { system_action = some action })
perform now unsupported d = err unsupported_request

-- A request that raises changes nothing; `text` is what the socket read, `now` the time.
unfoldable pub request : ℕ → List ℕ → Display → Result DisplayError (Status × Display)
request now text d = do d' ← perform now (command (split text)) d; ok (status d', d')
