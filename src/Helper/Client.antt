-- ===== src/Helper/Client.antt =====
-- crates/ssh-rocket-runtime/src/helper_client.rs: the client of the helper. Each command reads one event
-- from the pipe, where events may wait; what the helper writes after a command is an argument, which is
-- `none` if the command cannot be written.
use ssh_rocket.Base.{
  Bool, true, false, not, ◌||◌, List, [], ◌∷◌, ◌++◌, Option, none, some, if◌then◌else◌,
}
use ssh_rocket.Outcome.{Outcome, returned, absent}
use ssh_rocket.Helper.{HelperEvent, ready, active, stopped, rules_synced, error, status}

pub record PrivilegedHelperSession : Type 0 where
  pub is_active : Bool
  pub waiting : List HelperEvent

-- The session behind a command, and its result; `absent` is an error.
abbrev pub Answer : Type 0 → Type 0
Answer A = PrivilegedHelperSession × Outcome A

abbrev pub next_event : PrivilegedHelperSession → List HelperEvent → Answer HelperEvent
next_event c [] = (record c { waiting = [] }, absent)
next_event c (e ∷ es) = (record c { waiting = es }, returned e)

unfoldable pub send_command :
    PrivilegedHelperSession → Option (List HelperEvent) → Answer HelperEvent
send_command c none = (c, absent)
send_command c (some events) = next_event c (c.waiting ++ events)

-- `ensure_started`: the events up to the first that says the helper is ready.
unfoldable pub ensure_started : List HelperEvent → Option PrivilegedHelperSession
ensure_started [] = none
ensure_started (ready ∷ es) = some (record { is_active = false; waiting = es })
ensure_started (_ ∷ es) = ensure_started es

abbrev set_active : PrivilegedHelperSession → Bool → PrivilegedHelperSession
set_active c b = record c { is_active = b }

abbrev on_status : Answer HelperEvent → Answer Bool
on_status (c, returned (status b)) = (set_active c b, returned b)
on_status (c, returned error) = (set_active c false, absent)
on_status (c, _) = (c, absent)

-- The first argument says whether the process is alive.
unfoldable pub client_status :
    Bool → Option (List HelperEvent) → PrivilegedHelperSession → Answer Bool
client_status false events c = (set_active c false, absent)
client_status true events c = on_status (send_command c events)

abbrev must_be_active : Answer Bool → Answer Unit
must_be_active (c, returned true) = (c, returned tt)
must_be_active (c, _) = (c, absent)

unfoldable pub check_active :
    Bool → Option (List HelperEvent) → PrivilegedHelperSession → Answer Unit
check_active alive events c = must_be_active (client_status alive events c)

abbrev on_start : Answer HelperEvent → Answer Unit
on_start (c, returned active) = (set_active c true, returned tt)
on_start (c, _) = (c, absent)

unfoldable pub client_start : Option (List HelperEvent) → PrivilegedHelperSession → Answer Unit
client_start events c = on_start (send_command c events)

abbrev on_stop : Answer HelperEvent → Answer Unit
on_stop (c, returned stopped) = (set_active c false, returned tt)
on_stop (c, _) = (c, absent)

unfoldable pub client_stop :
    Bool → Option (List HelperEvent) → PrivilegedHelperSession → Answer Unit
client_stop false events c = (set_active c false, returned tt)
client_stop true events c = on_stop (send_command c events)

unfoldable pub terminate : PrivilegedHelperSession → PrivilegedHelperSession
terminate c = set_active c false

abbrev on_sync : Answer HelperEvent → Answer Unit
on_sync (c, returned rules_synced) = (c, returned tt)
on_sync (c, _) = (c, absent)

unfoldable pub client_sync_rules :
    Bool → Option (List HelperEvent) → PrivilegedHelperSession → Answer Unit
client_sync_rules alive events c =
    if not c.is_active || not alive then (c, returned tt) else on_sync (send_command c events)

unfoldable pub shutdown :
    Option (List HelperEvent) → PrivilegedHelperSession → PrivilegedHelperSession
shutdown events c = terminate (send_command c events).0
