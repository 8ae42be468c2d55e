-- ===== src/Forward/Command.antt =====
-- crates/ssh-rocket-runtime/src/forward.rs: the command of one port forwarding, up to the start of the
-- process, without its environment, and which lines of its output are logged.
use ssh_rocket.Base.{
  ℕ, Bool, true, false, not, ◌&&◌, ◌||◌, List, [], ◌∷◌, ◌++◌, Option, none, some, ◌==◌,
  if◌then◌else◌,
}
use ssh_rocket.Config.{key, password, local, remote, ForwardType, Profile, PortForwardRule}
use ssh_rocket.Text.{Text, codes, is_empty, trim, starts_with}
use ssh_rocket.Forward.{shell_quote}
use ssh_rocket.Ssh.{user_args, identity_args, through_sshpass, effective_server}

-- Why a forwarding is not started.
pub data StartError : Type 0 where
  empty_host zero_port address_in_use executable_unknown : StartError

pub data StartCommand : Type 0 where
  start_command : Text × List Text → StartCommand
  not_started : StartError → StartCommand

module _ (show : ℕ → Text) where
  abbrev joined : Text → ℕ → Text → ℕ → Text
  joined a p b q = a ++ (codes ":" ++ (show p ++ (codes ":" ++ (b ++ (codes ":" ++ show q)))))

  -- The argument of the option that forwards.
  unfoldable pub forward_arg : PortForwardRule → Text
  forward_arg rule = elim rule.forward_type [
    | local ↦ joined (trim rule.local_host) rule.local_port (trim rule.remote_host) rule.remote_port
    | remote ↦
        joined (trim rule.remote_host) rule.remote_port (trim rule.local_host) rule.local_port
  ]

  abbrev pub forward_option : ForwardType → Text
  forward_option local = codes "-L"
  forward_option remote = codes "-R"

  abbrev base_args : Profile → List Text
  base_args profile =
      codes "-v"
      ∷ codes "-N"
      ∷ codes "-T"
      ∷ codes "-o"
      ∷ codes "LogLevel=DEBUG1"
      ∷ codes "-o"
      ∷ codes "ControlMaster=no"
      ∷ codes "-o"
      ∷ codes "ControlPath=none"
      ∷ codes "-o"
      ∷ codes "ForkAfterAuthentication=no"
      ∷ codes "-o"
      ∷ codes "ExitOnForwardFailure=yes"
      ∷ codes "-o"
      ∷ codes "ConnectTimeout=10"
      ∷ codes "-o"
      ∷ codes "ConnectionAttempts=1"
      ∷ codes "-o"
      ∷ codes "NumberOfPasswordPrompts=1"
      ∷ codes "-o"
      ∷ codes "ServerAliveInterval=15"
      ∷ codes "-o"
      ∷ codes "ServerAliveCountMax=3"
      ∷ codes "-o"
      ∷ codes "StrictHostKeyChecking=accept-new"
      ∷ codes "-p"
      ∷ show profile.port
      ∷ []

  abbrev batch_args : Profile → List Text
  batch_args profile = elim profile.auth_type [
    | key ↦ codes "-o" ∷ codes "BatchMode=yes" ∷ []
    | password ↦ []
  ]

  -- The command that connects through the local proxy.
  unfoldable pub proxy_command : Text → Text × ℕ → Text
  proxy_command executable (target_host, target_port) =
      shell_quote executable
      ++ (codes " proxy-connect " ++ (shell_quote target_host ++ (codes " " ++ show target_port)))

  abbrev proxy_args : Text → Text × ℕ → List Text
  proxy_args executable server =
      codes "-o" ∷ (codes "ProxyCommand=" ++ proxy_command executable server) ∷ []

  -- The arguments behind those that are always given.
  abbrev more_args : PortForwardRule → Profile → List Text → List Text
  more_args rule profile proxy =
      batch_args profile
      ++ (proxy
          ++ (forward_option rule.forward_type
              ∷ forward_arg rule
              ∷ (user_args profile ++ (identity_args profile ++ trim profile.host ∷ []))))

  abbrev command_of : PortForwardRule → Profile → Text → List Text → StartCommand
  command_of rule profile ssh_program proxy =
      start_command
        (through_sshpass profile ssh_program (base_args profile ++ more_args rule profile proxy))

  abbrev through_proxy : PortForwardRule → Profile → Text → Option Text → Option Text → StartCommand
  through_proxy rule profile ssh_program none config = not_started executable_unknown
  through_proxy rule profile ssh_program (some executable) config =
      command_of rule profile ssh_program (proxy_args executable (effective_server profile config))

  abbrev is_local : ForwardType → Bool
  is_local local = true
  is_local remote = false

  -- What the system says: whether the local address is free, the path of the program as text, and
  -- what `ssh -G` prints.
  unfoldable pub prepare_start :
      PortForwardRule → Profile → Text → Bool → Option Text → Option Text → StartCommand
  prepare_start rule profile ssh_program free executable config =
      if is_empty (trim profile.host)
      then not_started empty_host
      else if rule.local_port == 0 || rule.remote_port == 0
      then not_started zero_port
      else if is_local rule.forward_type && not free
      then not_started address_in_use
      else if rule.use_proxy
      then through_proxy rule profile ssh_program executable config
      else command_of rule profile ssh_program []

  -- The reply of a server that listens for a remote forwarding.
  unfoldable pub expected_remote_reply : PortForwardRule → Text
  expected_remote_reply rule =
      codes "debug1: remote forward success for: listen "
      ++ (trim rule.remote_host
          ++ (codes ":"
              ++ (show rule.remote_port
                  ++ (codes ", connect "
                      ++ (trim rule.local_host ++ (codes ":" ++ show rule.local_port))))))

-- Whether a line of the output is logged.
unfoldable pub is_logged : Text → Bool
is_logged line =
    not (starts_with line (codes "debug1:")) && not (starts_with line (codes "Authenticated to "))
