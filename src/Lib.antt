-- ===== src/Lib.antt =====
-- SSH Rocket, a transparent proxy for Linux over SSH: its core logic and theorems about it.
--
-- The program. A graphical client keeps a configuration and starts a privileged helper. The helper
-- runs an SSH session, a packet filter and a DNS router. For each flow the routing engine decides
-- whether it goes out directly, through the SSH session or nowhere. The DNS router asks the engine
-- for the name of each query, answers it from the resolver that the decision allows, and tells the
-- packet filter the addresses it found. The client imports rule lists into the configuration, and
-- supervises port forwardings, each of them one more SSH process.
--
-- The files, with the code they model:
--   Base (Tests, Lists)    shared names, Boolean tests on numbers, operations on lists
--   Text (Laws, Affixes,   the operations of Rust's str and char that the program uses, over lists of
--     Trims)               code points
--   Utf8, FilePath         decoding of well-formed UTF-8; equality of paths
--   Net (Blocks, Parse)    std::net::IpAddr and its from_str; the interface of the crate ipnet
--   Config                 crates/ssh-rocket-core/src/config.rs: the types, the default settings,
--                          active_profile
--   Routing (...)          crates/ssh-rocket-core/src/routing.rs: RoutingEngine::new, match_domain
--                          and decide. Routing.Spec says what they mean without any index.
--   Importer (...)         crates/ssh-rocket-core/src/rule_importer.rs: RuleImportResult with merge
--                          and action_counts; Importer.Shadowrocket the parsers of configurations
--                          and rule sets, Importer.Omega that of backups in JSON
--   Outcome                the results of code that can return, give none, panic or run out of fuel
--   Dns (...)              crates/ssh-rocket-runtime/src/dns_router.rs, the functions on packets:
--                          parse_dns_query, skip_dns_name, dns_question_end, empty_dns_response,
--                          normalize_dns_response, parse_dns_addresses
--   DnsRouter (...)        the same file, handle_dns_query with the two ways to forward a query, as
--                          the list of its effects
--   Forward (...)          crates/ssh-rocket-runtime/src/forward.rs: supervise_forward as a function
--                          of what happens in each turn of its loop, the back-off, ForwardManager,
--                          shell_quote, and in Forward.Command the command of a forwarding
--   Socks5 (...)           crates/ssh-rocket-runtime/src/proxy_connector.rs: establish_socks5 over the
--                          bytes that the service sends, with the bytes written
--   System (...)           crates/ssh-rocket-runtime/src/system.rs: System.Firewall builds the calls of
--                          nft that install_nftables makes, System.Nft their arguments, System.Tasks
--                          runs them up to the first failure, System.Packets is what the rules mean
--                          for a packet; System.Apps is assign_apps, System.Setup setup and the
--                          cleaning, System.Calls their arguments, System.DomainSets the address
--                          sets, System.Effects what the operations change
--   Helper (...)           crates/ssh-rocket-runtime/src/bin/helper.rs: start_proxy_session with its
--                          effects, Helper.Signature routing_signature, Helper.Daemon the turns of
--                          run_daemon and sync_active_rules; Helper.Ledger counts the tasks that are
--                          held, from their spawning until they are awaited, aborted or found to
--                          have ended; Helper.Client is
--                          crates/ssh-rocket-runtime/src/helper_client.rs
--   Ssh (...)              crates/ssh-rocket-runtime/src/ssh.rs: the command of a session, the server it
--                          ends at and the processes to kill, and in Ssh.Health the health checks
--   RuleManager (...)      crates/ssh-rocket-gui/src/rule_manager.rs: the lists of rules, the removal of
--                          a rule and the import of a rule source
--   AppScanner (...)       crates/ssh-rocket-gui/src/app_scanner.rs: the parser of desktop entries and
--                          the actions of applications
--   Traffic (...)          crates/ssh-rocket-gui/src/traffic_tracker.rs: the loop of sample over the
--                          lines of ss, and in Traffic.Stats the lists it makes
-- The modules below a component hold its lemmas and theorems, named for what they prove; those called
-- Examples hold tests and the theorems at concrete inputs.
--
-- State and errors. Structs are records and enums are data types with the names of the source. A
-- function that changes its argument returns the new one. Indexing, slicing and stores on packets are
-- operations of Outcome, so that an index out of range is a panic of the model as it is one of the
-- code. HashMaps are association lists: only lookup, insertion and removal are used of them.
--
-- Bounds and fuel. Positions of rules and offsets in packets are natural numbers; where the code
-- saturates or checks an addition, so does the model, with usize::MAX of a 64-bit target. The theorems
-- on match_domain need at most usize::MAX rules, since usize::MAX stands for no position there. The
-- loops over labels of a name have the length of the packet as fuel, and one more: each turn moves the
-- offset forward within the packet, and the theorems on safety include that the fuel is enough. All
-- other loops run over a list or a counter.
--
-- Parameters. Networks (crate ipnet) are a record of operations, of which only that equality decides
-- identity is assumed; Net.Blocks is an instance. JSON (crate serde_json) is a record of the views of
-- a value. The answers of the resolvers are a function, and the ends of attempts, sessions and pauses
-- of the supervisor are a list of turns.
--
-- The helper's files, sockets and tasks answer through a record World for each start, and each turn of
-- its loop is an event with what the system answers in it. lookup_host, the encoder of the signature,
-- the printing of numbers and addresses and the success of a call of nft are functions, and so is
-- what curl answers. Sums of u64 in the tracker wrap, as in a release build.
--
-- Not modelled: loading and saving the configuration, the copying of bytes behind the SOCKS5
-- handshake, the JSON on the pipes between client and helper, the start and the end of programs,
-- and the client's windows, tray, scanners and monitors.
pub mod Base
pub mod Text
pub mod FilePath
pub mod Net
pub mod Config
pub mod Routing
pub mod Outcome
pub mod Utf8
pub mod Dns
pub mod DnsRouter
pub mod Importer
pub mod Forward
pub mod Socks5
pub mod RuleManager
pub mod Traffic
pub mod Ssh
pub mod AppScanner
pub mod System
pub mod Helper
