-- ===== src/Helper/Examples.antt =====
-- Tests of the helper, and the theorems at concrete inputs.
use ssh_rocket.Socks5.{failed}
use ssh_rocket.Base.{refl, ◌==◌}
use ssh_rocket.Outcome.{returned, panicked}
use ssh_rocket.Helper.Daemon
use ssh_rocket.Helper.Daemon.{failed, ended, ended, send, synced, on_event, Turn}
use ssh_rocket.Helper.Ledger.{start_proxy_session-Leaves, off, post, on, Leaves}
use ssh_rocket.Helper.Exits.{run_daemon-Fits, FitsEnd}
use ssh_rocket.Helper.Signature.{
  decide-same_signature, kept_settings, direct_forward_profiles, signature_of, same_signature,
  Signature,
}
use ssh_rocket.Base.{false, if◌then◌else◌, length, ◌≡◌, [], some, true, none, ℕ, Bool, List, ◌∷◌}
use ssh_rocket.Routing.{new, decide, FlowContext}
use ssh_rocket.Helper.Daemon.{
  failed, ended, send, follow, run_loop, sync_active_rules, run_daemon, SyncWorld,
}
use ssh_rocket.Helper.{
  check_failed, tun_ready, join_tun, cancel_tasks, spawn_tun, timed_out, assign_apps, enable_steps,
  ensure_persistent_tun, in_time, sleep, task_ended, clean_stale_resources, start_with, World,
  start_proxy_session, ActiveSession, attach_tun,
}
use ssh_rocket.Config.{default_settings, AppConfig, direct}
use ssh_rocket.Net.Blocks.{Block, blocks}
use ssh_rocket.Text.{str_eq, codes}

abbrev old_config : AppConfig Block
old_config = record {
  profiles = [];
  active_profile_id = none;
  port_forwards = [];
  settings = default_settings Block;
}

abbrev new_config : AppConfig Block
new_config = record old_config {
  settings = record (default_settings Block) {
    app_rules = record { executable = codes "/usr/bin/curl"; action = direct } ∷ [];
  };
}

-- An encoder that tells apart what the tests change.
abbrev to_vec : Signature Block → List ℕ
to_vec s = length s.ip_rules ∷ length s.domain_rules ∷ []

abbrev world : World Block
world = record {
  config = some old_config;
  config_mtime = some 5;
  proxy_valid = true;
  attempt = λ n. if n == 2 then tun_ready else check_failed true;
  await_again = panicked;
  dns_bound = true;
  setup_done = true;
  resolver_bound = true;
  resolver_configured = true;
}

-- The device is busy at first.
second_attempt : attach_tun world 3 1 ≡ (
  clean_stale_resources
      ∷ sleep 100
      ∷ ensure_persistent_tun
      ∷ spawn_tun
      ∷ cancel_tasks
      ∷ join_tun
      ∷ clean_stale_resources
      ∷ sleep 1000
      ∷ clean_stale_resources
      ∷ sleep 100
      ∷ ensure_persistent_tun
      ∷ spawn_tun
      ∷ sleep 150
      ∷ [],
  returned true,
)
unfolding attach_tun
second_attempt = refl

-- A task that ends by itself is awaited again.
awaited_again : (start_proxy_session (record world { attempt = λ n. task_ended true })).1 ≡ panicked
unfolding start_proxy_session start_with attach_tun
awaited_again = refl

start_proxy_session-Leaves_example :
    Leaves
      (λ s. on)
      off
      (start_proxy_session (record world { setup_done = false })).1
      (post (start_proxy_session (record world { setup_done = false })).0 off)
start_proxy_session-Leaves_example =
    start_proxy_session-Leaves (record world { setup_done = false })

abbrev during : Bool → Daemon.Event Block → Turn Block
during w e = record { event = e; writable = w; dns = in_time; tun = timed_out }

abbrev sync : SyncWorld Block
sync = record { current_mtime = some 6; file = some new_config; assigned = true; restart = world }

abbrev session : ActiveSession Block
session = record { config = old_config; config_mtime = some 5 }

-- A start whose event cannot be written.
abbrev unheard : List (Turn Block)
unheard = during false (Daemon.command_start world) ∷ during true Daemon.command_quit ∷ []

stays_active : (run_daemon to_vec true true unheard).1 ≡ failed (some session)
unfolding run_daemon run_loop follow on_event start_proxy_session start_with attach_tun enable_steps
    send
stays_active = refl

run_daemon-Fits_example :
    FitsEnd to_vec
      (run_daemon to_vec true true unheard).1
      (post (run_daemon to_vec true true unheard).0 off)
run_daemon-Fits_example = run_daemon-Fits to_vec true true unheard

-- A file with other application rules is taken over without a new start.
kept :
    sync_active_rules to_vec (some session) sync in_time in_time
    ≡ (assign_apps ∷ [], synced (some (record { config = new_config; config_mtime = some 6 })) true)
unfolding sync_active_rules same_signature signature_of direct_forward_profiles str_eq
kept = refl

quits :
    (run_daemon to_vec true true (
      during true (Daemon.command_start world)
      ∷ during true (Daemon.tick false sync)
      ∷ during true Daemon.command_quit
      ∷ [])).1
    ≡ ended
unfolding run_daemon run_loop follow on_event start_proxy_session start_with attach_tun enable_steps
    send sync_active_rules same_signature signature_of direct_forward_profiles str_eq
quits = refl

abbrev flow : FlowContext
flow = record {
  destination = none;
  domain_name = some (codes "example.com");
  executable = some (codes "/usr/bin/curl");
}

same : same_signature to_vec new_config old_config ≡ true
unfolding same_signature signature_of direct_forward_profiles str_eq
same = refl

unchanged : signature_of new_config ≡ signature_of old_config
unfolding signature_of direct_forward_profiles
unchanged = refl

decide-same_signature_example :
    (decide blocks (new (kept_settings to_vec old_config new_config)) flow
      ≡ decide blocks (new new_config.settings) flow)
    × (old_config.settings.ipv6 ≡ new_config.settings.ipv6)
decide-same_signature_example =
    decide-same_signature to_vec blocks old_config new_config flow (λ e. unchanged) same
