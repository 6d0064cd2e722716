-- ===== src/Session/Requests.antt =====
-- What a method call does to the pending confirmation, and the object paths handed to clients.
use ubuntu_install_on_samsun.Prelude.{
  ℕ, zero, suc, ◌+◌, String, ◌≡◌, refl, ap, ◌⊎◌, inl, inr, false, none, some, List, [], ◌∷◌, ◌++◌,
  arith, if◌then◌else◌, is_some, length, length-append,
}
use ubuntu_install_on_samsun.Session.{
  Action, Session, Effect, reply, client_path, busy, none_value, open_dialog, print_failure, Event,
  method_call, idle, opened, dialog_type, requested_action, manager_method, step, run,
}

-- A method asks for an action exactly if it is the one of its name.
pub method_of : Action → String
method_of Action.logout = "Logout"
method_of Action.poweroff = "Shutdown"
method_of Action.reboot = "Reboot"

requested_action-method_of : (a : Action) → requested_action (method_of a) ≡ some a
unfolding requested_action method_of
requested_action-method_of Action.logout = refl
requested_action-method_of Action.poweroff = refl
requested_action-method_of Action.reboot = refl

-- Logout, Shutdown and Reboot are accepted only while no confirmation is pending: then the action
-- becomes the pending one and its dialog is queued. Otherwise the answer is Busy and nothing
-- changes.
pub manager_method-exclusive :
    (reg_id : ℕ) (a : Action) (s : Session)
    → manager_method reg_id (method_of a) s ≡ (
        if is_some s.pending_action then (s, reply busy ∷ []) else (
          record s { pending_action = some a; queued = s.queued ++ a ∷ [] },
          reply none_value ∷ [],
        ))
unfolding manager_method method_of requested_action
manager_method-exclusive reg_id Action.logout s = ground arith
manager_method-exclusive reg_id Action.poweroff s = ground arith
manager_method-exclusive reg_id Action.reboot s = ground arith

-- A request, the idle callback that opens its dialog, of the right type, and a failure to open it
-- leave the manager as it was before the request, so the next request is accepted again.
pub failed_dialog_frees :
    (reg_id : ℕ) (a : Action) (s : Session)
    → s.pending_action ≡ none
    → s.queued ≡ []
    → s.opening ≡ []
    → run (method_call reg_id (method_of a) ∷ idle ∷ opened false ∷ []) s
      ≡ (s, reply none_value ∷ open_dialog a (dialog_type a) ∷ print_failure ∷ [])
unfolding run step requested_action method_of
failed_dialog_frees reg_id Action.logout s p q o = ground arith
failed_dialog_frees reg_id Action.poweroff s p q o = ground arith
failed_dialog_frees reg_id Action.reboot s p q o = ground arith

-- The numbers of the object paths that were sent out.
pub paths : List Effect → List ℕ
paths [] = []
paths (reply (client_path n) ∷ es) = n ∷ paths es
paths (_ ∷ es) = paths es

-- n + 1, n + 2, … , k of them.
pub count_up : ℕ → ℕ → List ℕ
count_up n zero = []
count_up n (suc k) = (n + 1) ∷ count_up (n + 1) k

paths-append : (xs ys : List Effect) → paths (xs ++ ys) ≡ paths xs ++ paths ys
unfolding paths
paths-append [] ys = refl
paths-append (reply (client_path n) ∷ xs) ys = ap (◌∷◌ n) (paths-append xs ys)
paths-append (reply _ ∷ xs) ys = paths-append xs ys
paths-append (_ ∷ xs) ys = paths-append xs ys

step-paths :
    (e : Event) (s : Session)
    → ((paths (step e s).1 ≡ []) × (length (step e s).0.clients ≡ length s.clients))
      ⊎ ((paths (step e s).1 ≡ (length s.clients + 1) ∷ [])
          × (length (step e s).0.clients ≡ length s.clients + 1))
unfolding step paths
step-paths e s = grind (arith, length-append {0})

-- Over any run the clients get the paths numbered from one past those already registered, each
-- one higher than the last, so no path is handed out twice; the manager keeps one registration
-- for each of them.
pub run-paths :
    (es : List Event) (s : Session)
    → let (s', sent) = run es s in
      (paths sent ≡ count_up (length s.clients) (length (paths sent)))
      × (length s'.clients ≡ length s.clients + length (paths sent))
unfolding run paths count_up
run-paths [] s = (refl, omega arith)
run-paths (e ∷ es) s =
    let ih = run-paths es (step e s).0 in
    let joined = paths-append (step e s).1 (run es (step e s).0).1 in
    elim (step-paths e s) [
      | inl (sent, kept) ↦ rw joined (rw sent (rw kept at ih))
      | inr (sent, more) ↦ rw joined (rw sent (ground (arith, ih)))
    ]
