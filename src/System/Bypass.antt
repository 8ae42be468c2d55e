-- ===== src/System/Bypass.antt =====
-- Packets that no setting of routes touches: the tunnel does not run through itself.
use ssh_rocket.Base.{
  all-append, any-append, ℕ, ◌≡◌, refl, Bool, true, false, not, ◌&&◌, ◌||◌, List, [], ◌∷◌, ◌++◌,
  append_assoc, Option, none, some, arith, ◌==◌, any, all, inl, inr, Bool-cases,
}
use ssh_rocket.Text.{Text}
use ssh_rocket.Net.{IpAddr, IpNet}
use ssh_rocket.Net.Equality.{addr_eq}
use ssh_rocket.System.Firewall.{
  on_output, bypass_tasks, install_nftables, collect_endpoints, nft_rule, SystemState, first_rules,
  server_rules, endpoint_rules,
}
use ssh_rocket.System.Nft.{
  dns_output, add_chain, add_table, output, delete_table, NftCommand, is_tcp, fake_address, NftRule,
  Statement, leave, set_mark_leave,
}
use ssh_rocket.System.Packets.{rules_of, Packet, tcp, passed, Sets, holds, applies, run_chain}
use ssh_rocket.System.Ends.{is_end, is_direct_end, any-collect_endpoints}
use ssh_rocket.System.Tasks.{Task, must, attempt, execute, execute-append, execute-commands_of}
use ssh_rocket.System.Installed.{rules_of-install_nftables, routed_rules, output_rules}

abbrev is_leave : Statement → Bool
is_leave leave = true
is_leave _ = false

abbrev leaves : {N : Type 0} → NftRule N → Bool
leaves r = is_leave r.statement

module _ {N : Type 0} (net : IpNet N) (sets : Sets) (p : Packet) where
  -- Where each rule leaves, one that applies is enough.
  run_chain-leaves :
      (rs rest : List (NftRule N))
      → all leaves rs ≡ true
      → any (applies net sets p) rs ≡ true
      → run_chain net sets p (rs ++ rest) false ≡ passed false
  unfolding run_chain
  run_chain-leaves [] rest l h = ground arith
  run_chain-leaves (r ∷ rs) rest l h = elim (Bool-cases (applies net sets p r)) [
    | inl e ↦ ground (arith, e, l)
    | inr e ↦ rw e (run_chain-leaves rs rest (ground (arith, l)) (ground (arith, e)))
  ]

  leaves-server_rules :
      (port : ℕ) (addresses : List IpAddr)
      → all (leaves {N = N}) (server_rules port addresses) ≡ true
  unfolding server_rules
  leaves-server_rules port [] = refl
  leaves-server_rules port (a ∷ addresses) = leaves-server_rules port addresses

  leaves-endpoint_rules :
      (endpoints : List (IpAddr × ℕ)) → all (leaves {N = N}) (endpoint_rules endpoints) ≡ true
  unfolding endpoint_rules
  leaves-endpoint_rules [] = refl
  leaves-endpoint_rules ((a, port) ∷ endpoints) = leaves-endpoint_rules endpoints

  module _ (is : p.protocol ≡ tcp) where
    applies-server_rules :
        (port : ℕ) (addresses : List IpAddr)
        → any (applies net sets p) (server_rules port addresses)
          ≡ (p.port == port && any (addr_eq p.destination) addresses)
    unfolding server_rules holds
    applies-server_rules port [] = ground arith
    applies-server_rules port (a ∷ addresses) =
        ground (arith, is, applies-server_rules port addresses)

    applies-endpoint_rules :
        (endpoints : List (IpAddr × ℕ))
        → any (applies net sets p) (endpoint_rules endpoints) ≡ any (is_end p) endpoints
    unfolding endpoint_rules holds
    applies-endpoint_rules [] = refl
    applies-endpoint_rules ((a, port) ∷ endpoints) =
        ground (arith, is, applies-endpoint_rules endpoints)

  leaving_rules : SystemState N → List (IpAddr × ℕ) → List (NftRule N)
  leaving_rules s endpoints =
      first_rules s ++ (server_rules s.ssh_port s.ssh_addresses ++ endpoint_rules endpoints)

  applies-leaving_rules :
      (s : SystemState N) (endpoints : List (IpAddr × ℕ))
      → p.protocol ≡ tcp
      → (not (p.uid == s.uid)
          || (p.is_local
              || ((p.port == s.ssh_port && any (addr_eq p.destination) s.ssh_addresses)
                  || any (is_end p) endpoints)))
        ≡ true
      → any (applies net sets p) (leaving_rules s endpoints) ≡ true
  unfolding leaving_rules holds
  applies-leaving_rules s endpoints is h = ground (
    arith,
    any-append (applies net sets p) (server_rules s.ssh_port s.ssh_addresses)
        (endpoint_rules endpoints),
    applies-server_rules is s.ssh_port s.ssh_addresses,
    applies-endpoint_rules is endpoints,
  )

  leaves-leaving_rules :
      (s : SystemState N) (endpoints : List (IpAddr × ℕ))
      → all (leaves {N = N}) (leaving_rules s endpoints) ≡ true
  unfolding leaving_rules
  leaves-leaving_rules s endpoints =
      rw
        (
          all-append (leaves {N = N}) (server_rules s.ssh_port s.ssh_addresses)
              (endpoint_rules endpoints),
          leaves-server_rules s.ssh_port s.ssh_addresses,
          leaves-endpoint_rules endpoints,
        )
        refl

  output_rules-leaving_rules :
      (s : SystemState N) (endpoints : List (IpAddr × ℕ))
      → output_rules s endpoints
        ≡ leaving_rules s endpoints
          ++ nft_rule (fake_address ∷ is_tcp ∷ []) set_mark_leave ∷ routed_rules s.config.settings
  unfolding leaving_rules
  output_rules-leaving_rules s endpoints = simp (
    append_assoc (server_rules {N = N} s.ssh_port s.ssh_addresses),
    append_assoc (endpoint_rules {N = N} endpoints),
  )

  run_chain-leaving_rules :
      (s : SystemState N) (endpoints : List (IpAddr × ℕ))
      → any (applies net sets p) (leaving_rules s endpoints) ≡ true
      → run_chain net sets p (output_rules s endpoints) false ≡ passed false
  run_chain-leaving_rules s endpoints h =
      rw (output_rules-leaving_rules s endpoints)
        (run_chain-leaves (leaving_rules s endpoints) _ (leaves-leaving_rules s endpoints) h)

  known_endpoints :
      (ok : List (NftCommand N) → Bool) (mid : List (NftCommand N))
      (ts : List (Task (NftCommand N))) (o : Option (List (IpAddr × ℕ)))
      → (execute ok mid (bypass_tasks o ++ ts)).1 ≡ true
      → (endpoints : List (IpAddr × ℕ)) × (o ≡ some endpoints)
  unfolding execute bypass_tasks
  known_endpoints ok mid ts none g = ground arith
  known_endpoints ok mid ts (some endpoints) g = (endpoints, refl)

  -- An installation that succeeds has resolved the ends of the direct forwardings.
  installed_endpoints :
      (ok : List (NftCommand N) → Bool) (lookup_host : Text → ℕ → Option (List IpAddr))
      (s : SystemState N)
      → (execute ok [] (install_nftables lookup_host s)).1 ≡ true
      → (endpoints : List (IpAddr × ℕ)) × (collect_endpoints lookup_host s.config
            s.config.port_forwards []
          ≡ some endpoints)
  unfolding install_nftables
  installed_endpoints ok lookup_host s done =
      let (first, h) =
        execute-append ok []
          (attempt delete_table
            ∷ must add_table
            ∷ must (add_chain output)
            ∷ must (add_chain dns_output)
            ∷ on_output (first_rules s))
          _ done in
      let (server, g) =
        execute-append ok first (on_output (server_rules s.ssh_port s.ssh_addresses)) _ h in
      known_endpoints ok server _ (collect_endpoints lookup_host s.config s.config.port_forwards [])
        g

  -- If all calls of nft that install the rules succeed, a TCP packet of another user, to a local
  -- address, to the SSH server, or to the SSH server of a forwarding that is enabled and not
  -- proxied leaves without the mark, whatever the routing settings say.
  pub ends_unmarked :
      (ok : List (NftCommand N) → Bool) (lookup_host : Text → ℕ → Option (List IpAddr))
      (s : SystemState N)
      → (execute ok [] (install_nftables lookup_host s)).1 ≡ true
      → p.protocol ≡ tcp
      → (not (p.uid == s.uid)
          || (p.is_local
              || ((p.port == s.ssh_port && any (addr_eq p.destination) s.ssh_addresses)
                  || any (is_direct_end lookup_host s.config p) s.config.port_forwards)))
        ≡ true
      → run_chain net sets p
          (rules_of output (execute ok [] (install_nftables lookup_host s)).0)
          false
        ≡ passed false
  ends_unmarked ok lookup_host s done is h =
      let (endpoints, known) = installed_endpoints ok lookup_host s done in
      rw
        (
          execute-commands_of ok [] (install_nftables lookup_host s) done,
          rules_of-install_nftables lookup_host s endpoints known,
        )
        (run_chain-leaving_rules s endpoints (
          applies-leaving_rules s endpoints is (
            ground (
              arith,
              h,
              any-collect_endpoints lookup_host s.config p s.config.port_forwards [] endpoints
                  known,
            ))))
