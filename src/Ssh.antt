-- ===== src/Ssh.antt =====
-- crates/ssh-rocket-runtime/src/ssh.rs: the command of the SSH session, the server that it ends at, and
-- the processes of former sessions. What programs print and the system says are arguments.
pub mod Health
pub mod Probe
mod Examples
use ssh_rocket.Base.{
  ℕ, zero, suc, ◌+◌, ◌-◌, ◌*◌, ◌/◌, ◌%◌, ◌^◌, ◌≤◌, ◌<◌, min, ◌≡◌, refl, sym, ap, ◌∙◌, Bool, true,
  false, not, ◌&&◌, ◌||◌, List, [], ◌∷◌, ◌++◌, map, append_assoc, Option, none, some, arith, ltb,
  leb, ◌==◌, if◌then◌else◌, length, get_elem?, take, null, find?, any, all, retain, inl, inr,
  Bool-cases,
}
use ssh_rocket.Config.{key, password, Profile, AuthType}
use ssh_rocket.Net.{IpAddr}
use ssh_rocket.Net.Equality.{addr_eq}
use ssh_rocket.Net.Parse.{parse_below}
use ssh_rocket.Text.{
  Text, codes, is_empty, trim, lines, strip_prefix, str_eq, starts_with, contains,
}

abbrev u16_max : ℕ
u16_max = 2 ^ 16 - 1

-- `lines().find_map(..)` with `strip_prefix`
unfoldable pub find_line : Text → List Text → Option Text
find_line prefix [] = none
find_line prefix (line ∷ ls) = elim (strip_prefix line prefix) [
  | some value ↦ some value
  | none ↦ find_line prefix ls
]

abbrev named_host : Text → Option Text → Text
named_host host none = host
named_host host (some value) = if is_empty (trim value) then host else trim value

abbrev or_port : ℕ → Option ℕ → ℕ
or_port port none = port
or_port port (some p) = p

abbrev named_port : ℕ → Option Text → ℕ
named_port port none = port
named_port port (some value) = or_port port (parse_below u16_max (trim value))

-- The argument is what `ssh -G` prints, if it can be run and succeeds.
unfoldable pub effective_server : Profile → Option Text → Text × ℕ
effective_server profile none = (trim profile.host, profile.port)
effective_server profile (some text) = (
  named_host (trim profile.host) (find_line (codes "hostname ") (lines text)),
  named_port profile.port (find_line (codes "port ") (lines text)),
)

abbrev pub user_args : Profile → List Text
user_args profile =
    if is_empty (trim profile.username) then [] else codes "-l" ∷ trim profile.username ∷ []

abbrev identity_of : Option Text → List Text
identity_of none = []
identity_of (some file) = codes "-i" ∷ file ∷ []

abbrev pub identity_args : Profile → List Text
identity_args profile = elim profile.auth_type [
  | key ↦ identity_of profile.identity_file
  | password ↦ []
]

abbrev with_password : Text → List Text → Option Text → Text × List Text
with_password ssh args none = (ssh, args)
with_password ssh args (some secret) = (codes "sshpass", codes "-p" ∷ secret ∷ ssh ∷ args)

-- The program with its arguments, behind sshpass where a password is used.
abbrev pub through_sshpass : Profile → Text → List Text → Text × List Text
through_sshpass profile ssh args = elim profile.auth_type [
  | key ↦ (ssh, args)
  | password ↦ with_password ssh args profile.password
]

-- `HashSet` of the addresses, in some order.
unfoldable pub distinct_addresses : List IpAddr → List IpAddr
distinct_addresses [] = []
distinct_addresses (a ∷ xs) =
    let rest = distinct_addresses xs in if any (addr_eq a) rest then rest else a ∷ rest

pub record SshSession : Type 0 where
  pub command : Text × List Text
  pub socks_port : ℕ
  pub dns_port : ℕ
  pub server_port : ℕ
  pub server_addresses : List IpAddr

-- What /proc says of a process: its number, its status, and its command line if that can be read.
pub record SshProcess : Type 0 where
  pub pid : ℕ
  pub status : Text
  pub cmdline : Option Text

module _ (show : ℕ → Text) where
  unfoldable pub config_args : Profile → List Text
  config_args profile =
      codes "-G"
      ∷ codes "-p"
      ∷ show profile.port
      ∷ (user_args profile ++ (identity_args profile ++ trim profile.host ∷ []))

  unfoldable pub session_command : (IpAddr → Text) → Profile → ℕ → ℕ → IpAddr → Text × List Text
  session_command show_address profile socks_port dns_port dns_server =
      through_sshpass profile (codes "ssh") (
        codes "-N"
        ∷ codes "-T"
        ∷ codes "-o"
        ∷ codes "ExitOnForwardFailure=yes"
        ∷ codes "-o"
        ∷ codes "ServerAliveInterval=15"
        ∷ codes "-o"
        ∷ codes "ServerAliveCountMax=3"
        ∷ codes "-o"
        ∷ codes "StrictHostKeyChecking=accept-new"
        ∷ codes "-o"
        ∷ codes "StrictHostKeyChecking=accept-new"
        ∷ codes "-D"
        ∷ (codes "127.0.0.1:" ++ show socks_port)
        ∷ codes "-L"
        ∷ (codes "127.0.0.1:"
            ++ (show dns_port ++ (codes ":" ++ (show_address dns_server ++ codes ":53"))))
        ∷ codes "-p"
        ∷ show profile.port
        ∷ (user_args profile ++ (identity_args profile ++ trim profile.host ∷ [])))

  abbrev is_of_user : ℕ → Text → Bool
  is_of_user uid status =
      let uid_text = show uid in
      any
        (λ line. str_eq line (
          codes "Uid:\t"
          ++ (uid_text
              ++ (codes "\t"
                  ++ (uid_text ++ (codes "\t" ++ (uid_text ++ (codes "\t" ++ uid_text))))))))
        (lines status)
      || any (λ line. starts_with line (codes "Uid:\t" ++ (uid_text ++ codes "\t"))) (lines status)

  abbrev is_former : ℕ → ℕ → Option Text → Bool
  is_former socks_port dns_port none = false
  is_former socks_port dns_port (some cmdline) =
      contains cmdline (codes "ssh")
      && (contains cmdline (codes ":" ++ show socks_port)
          || contains cmdline (codes ":" ++ show dns_port))

  -- The processes that are killed.
  unfoldable pub clean_stale_ssh : ℕ → ℕ → ℕ → ℕ → List SshProcess → List ℕ
  clean_stale_ssh my_uid my_pid socks_port dns_port [] = []
  clean_stale_ssh my_uid my_pid socks_port dns_port (p ∷ ps) =
      let rest = clean_stale_ssh my_uid my_pid socks_port dns_port ps in
      if not (p.pid == my_pid)
        && (is_of_user my_uid p.status && is_former socks_port dns_port p.cmdline)
      then p.pid ∷ rest
      else rest

  abbrev session_of :
      (IpAddr → Text) → Profile → ℕ → IpAddr → Text × ℕ → List IpAddr → Bool → Option SshSession
  session_of show_address profile socks_port dns_server server [] ready = none
  session_of show_address profile socks_port dns_server server (a ∷ addresses) false = none
  session_of show_address profile socks_port dns_server server (a ∷ addresses) true =
      let dns_port = (socks_port + 1) % 2 ^ 16 in
      some (record {
        command = session_command show_address profile socks_port dns_port dns_server;
        socks_port = socks_port;
        dns_port = dns_port;
        server_port = server.1;
        server_addresses = a ∷ addresses;
      })

  abbrev with_addresses :
      (IpAddr → Text)
      → Profile
      → ℕ
      → IpAddr
      → Text × ℕ
      → Option (List IpAddr)
      → Bool
      → Option SshSession
  with_addresses show_address profile socks_port dns_server server none ready = none
  with_addresses show_address profile socks_port dns_server server (some addresses) ready =
      session_of show_address profile socks_port dns_server server (distinct_addresses addresses)
        ready

  -- `SshSession::start`; the last argument says whether the port is up before the process ends.
  unfoldable pub start_session :
      (IpAddr → Text)
      → (Text → ℕ → Option (List IpAddr))
      → Profile
      → ℕ
      → IpAddr
      → Option Text
      → Bool
      → Option SshSession
  start_session show_address lookup_host profile socks_port dns_server config ready =
      let server = effective_server profile config in
      if is_empty (trim profile.host)
      then none
      else with_addresses show_address profile socks_port dns_server server
          (lookup_host server.0 server.1) ready
