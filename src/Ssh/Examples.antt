-- ===== src/Ssh/Examples.antt =====
-- Tests of the SSH session, of the commands of forwardings and of the health checks, and the theorem at
-- a concrete input.
use ssh_rocket.Base.{
  ℕ, ◌≡◌, refl, true, false, List, [], ◌∷◌, none, some, arith, ◌==◌, if◌then◌else◌, take, drop,
}
use ssh_rocket.Config.{password, remote, Profile, PortForwardRule}
use ssh_rocket.Net.Parse.{parse_radix}
use ssh_rocket.Socks5.{as_bytes, encode, establish_socks5}
use ssh_rocket.Text.{
  Text, codes, trim, lines, split, strip_prefix, is_whitespace, starts_with, str_eq, contains,
}
use ssh_rocket.Utf8.{from_utf8}
use ssh_rocket.Forward.{shell_quote, replace}
use ssh_rocket.Forward.Command.{
  StartCommand, start_command, prepare_start, zero_port, not_started, proxy_command,
}
use ssh_rocket.Ssh.{effective_server, find_line, clean_stale_ssh}
use ssh_rocket.Ssh.Health.{
  probe_endpoint, read_connected, skip_bound, probe_http, is_http, http_request, is_routed,
  dns_query,
}
use ssh_rocket.Ssh.Probe.{after_handshake, no_address, probe_endpoint-establish_socks5}

abbrev profile : Profile
profile = record {
  id = 7;
  name = codes "office";
  host = codes " gate ";
  port = 22;
  username = codes "me";
  auth_type = password;
  password = some (codes "secret");
  identity_file = none;
}

resolved_name :
    effective_server profile (some (codes "user me\nhostname gate.example.org\nport 2222\n"))
    ≡ (codes "gate.example.org", 2222)
unfolding effective_server find_line lines split strip_prefix trim is_whitespace parse_radix
resolved_name = refl

-- A port that is no number is passed over.
kept_port : effective_server profile (some (codes "port 99999\nhostname \n")) ≡ (codes "gate", 22)
unfolding effective_server find_line lines split strip_prefix trim is_whitespace parse_radix
kept_port = refl

abbrev rule : PortForwardRule
rule = record {
  id = 1;
  name = codes "web";
  profile_id = 7;
  forward_type = remote;
  local_host = codes "127.0.0.1";
  local_port = 80;
  remote_host = codes "0.0.0.0";
  remote_port = 0;
  use_proxy = true;
  enabled = true;
}

abbrev show : ℕ → Text
show n = codes "9"

no_port : prepare_start show rule profile (codes "ssh") true none none ≡ not_started zero_port
unfolding prepare_start trim is_whitespace
no_port = refl

abbrev first_args : StartCommand → Text × List Text
first_args (start_command (program, args)) = (program, take 4 args)
first_args (not_started e) = ([], [])

with_sshpass :
    first_args (
      prepare_start show
        (record rule { remote_port = 81 })
        profile
        (codes "ssh")
        false
        (some (codes "/usr/bin/ssh-rocket"))
        none)
    ≡ (codes "sshpass", codes "-p" ∷ codes "secret" ∷ codes "ssh" ∷ codes "-v" ∷ [])
unfolding prepare_start trim is_whitespace
with_sshpass = refl

quoted :
    proxy_command show (codes "/opt/it's") (codes "gate", 22)
    ≡ codes "'/opt/it'\"'\"'s' proxy-connect 'gate' 9"
unfolding proxy_command shell_quote replace
quoted = refl

one_killed :
    clean_stale_ssh
      (λ n. if n == 1000 then codes "1000" else codes "1080")
      1000
      5
      1080
      1081
      (record {
        pid = 6;
        status = codes "Uid:\t1000\t1000\t1000\t1000";
        cmdline = some (codes "ssh -N -D 127.0.0.1:1080 gate");
      }
        ∷ record {
          pid = 7;
          status = codes "Uid:\t1000\t1000\t1000\t1000";
          cmdline = some (codes "ssh gate");
        }
        ∷ [])
    ≡ 6 ∷ []
unfolding clean_stale_ssh lines split starts_with str_eq contains
one_killed = refl

-- The answers of a proxy and of a server behind it.
abbrev answers : List ℕ
answers = 5 ∷ 0 ∷ 5 ∷ 0 ∷ 0 ∷ 1 ∷ 0 ∷ 0 ∷ 0 ∷ 0 ∷ 0 ∷ 0 ∷ codes "HTTP/1.1 204 No Content"

healthy : (probe_endpoint (codes "a.com") (codes "/") answers).1 ≡ true
unfolding probe_endpoint read_connected skip_bound probe_http is_http http_request from_utf8
    as_bytes encode starts_with
healthy = refl

probe_endpoint-establish_socks5_example :
    probe_endpoint (codes "a.com") (codes "/") answers
    ≡ after_handshake
        (codes "a.com")
        (codes "/")
        (establish_socks5 no_address (codes "a.com") 80 answers)
unfolding as_bytes encode
probe_endpoint-establish_socks5_example =
    probe_endpoint-establish_socks5 (codes "a.com") (codes "/") answers (omega arith) refl

-- A refusal of the local router counts as no answer, and a name that does not exist as one.
refused : is_routed (0x53 ∷ 0x52 ∷ 0x81 ∷ 0x82 ∷ drop 4 dns_query) ≡ false
unfolding is_routed str_eq
refused = refl

no_such_name : is_routed (0x53 ∷ 0x52 ∷ 0x81 ∷ 0x83 ∷ drop 4 dns_query) ≡ true
unfolding is_routed str_eq
no_such_name = refl
