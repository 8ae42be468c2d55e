-- ===== src/Helper/ClientExamples.antt =====
-- Tests of the client, and the theorem at a concrete input.
use ssh_rocket.Base.{ℕ, ◌≡◌, refl, true, false, List, [], ◌∷◌, none, some}
use ssh_rocket.Helper.{active, error, status, in_time, timed_out}
use ssh_rocket.Helper.Agreement.{events_of, quiet, Agrees, client-on_event}
use ssh_rocket.Helper.Client.{
  client_status, client_start, client_stop, client_sync_rules, send_command,
}
use ssh_rocket.Helper.Daemon
use ssh_rocket.Helper.Daemon.{Turn, on_event}
use ssh_rocket.Helper.Signature.{Signature}
use ssh_rocket.Net.Blocks.{Block}
use ssh_rocket.Outcome.{returned, absent}

abbrev to_vec : Signature Block → List ℕ
to_vec s = []

-- The event that says the TUN task has ended waits for the next command; from then on each command
-- reads the answer to the one before.
one_behind :
    client_start
      (some (active ∷ []))
      (client_status true
        (some (status false ∷ []))
        (record { is_active = true; waiting = error ∷ [] })).0
    ≡ (record { is_active = false; waiting = active ∷ [] }, absent)
unfolding client_start client_status send_command
one_behind = refl

not_asked : client_sync_rules true (some (error ∷ [])) (quiet false) ≡ (quiet false, returned tt)
unfolding client_sync_rules
not_asked = refl

abbrev asked : Turn Block
asked = record { event = Daemon.command_stop; writable = true; dns = in_time; tun = timed_out }

client-on_event_example :
    Agrees to_vec
      (client_status true
        (some (events_of (on_event to_vec none asked Daemon.command_status).0))
        (quiet true)).0
      (on_event to_vec none asked Daemon.command_status)
    × Agrees to_vec
        (client_stop true
          (some (events_of (on_event to_vec none asked Daemon.command_stop).0))
          (quiet true)).0
        (on_event to_vec none asked Daemon.command_stop)
client-on_event_example = client-on_event to_vec none asked true refl
