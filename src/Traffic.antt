-- ===== src/Traffic.antt =====
-- crates/ssh-rocket-gui/src/traffic_tracker.rs: the counters of the tracker, and how the lines of `ss`
-- change them. Sums of u64 wrap, as they do in a release build.
pub mod Stats
pub mod Split
pub mod Order
mod Examples
use ssh_rocket.Base.{
  ℕ, zero, suc, ◌+◌, ◌-◌, ◌*◌, ◌/◌, ◌%◌, ◌^◌, ◌≤◌, ◌<◌, min, ◌≡◌, refl, sym, ap, ◌∙◌, Bool, true,
  false, not, ◌&&◌, ◌||◌, List, [], ◌∷◌, ◌++◌, map, append_assoc, Option, none, some, arith, ltb,
  leb, ◌==◌, if◌then◌else◌, length, get_elem?, take, null, find?, any, all, retain, inl, inr,
  Bool-cases,
}
use ssh_rocket.Net.Parse.{parse_below}
use ssh_rocket.Text.{
  Text, codes, str_eq, is_empty, is_char, is_whitespace, split, split_once, starts_with, ends_with,
  strip_prefix,
}

pub data ConnectionType : Type 0 where
  proxied direct local : ConnectionType

abbrev pub wrap64 : ℕ → ℕ
wrap64 n = n % 2 ^ 64

-- Sent and received.
abbrev pub Bytes : Type 0
Bytes = ℕ × ℕ

abbrev pub plus : Bytes → Bytes → Bytes
plus (a, b) (u, d) = (wrap64 (a + u), wrap64 (b + d))

-- A HashMap by text, in some order of iteration.
abbrev pub Counters : Type 0
Counters = List (Text × Bytes)

unfoldable pub find_entry : Counters → Text → Option Bytes
find_entry [] k = none
find_entry ((q, v) ∷ m) k = let rest = find_entry m k in if str_eq q k then some v else rest

unfoldable pub insert_entry : Counters → Text → Bytes → Counters
insert_entry [] k v = (k, v) ∷ []
insert_entry ((q, w) ∷ m) k v =
    let rest = insert_entry m k v in if str_eq q k then (q, v) ∷ m else (q, w) ∷ rest

-- `entry(..).or_insert((0, 0))` with the two additions.
unfoldable pub add_entry : Counters → Text → Bytes → Counters
add_entry [] k v = (k, plus (0, 0) v) ∷ []
add_entry ((q, w) ∷ m) k v =
    let rest = add_entry m k v in if str_eq q k then (q, plus w v) ∷ m else (q, w) ∷ rest

abbrev pub or_zero : Option Bytes → Bytes
or_zero none = (0, 0)
or_zero (some v) = v

abbrev pub traffic_of : Counters → Text → Bytes
traffic_of m k = or_zero (find_entry m k)

abbrev pub split_whitespace : Text → List Text
split_whitespace s = retain (λ w. not (is_empty w)) (split is_whitespace s)

abbrev pub u64_max : ℕ
u64_max = 2 ^ 64 - 1

abbrev counted : Option Text → ℕ → ℕ
counted none n = n
counted (some value) n = elim (parse_below u64_max value) [ none ↦ n | some m ↦ wrap64 (m + n) ]

unfoldable pub sum_fields : Text → List Text → ℕ
sum_fields k [] = 0
sum_fields k (field ∷ fields) = counted (strip_prefix field k) (sum_fields k fields)

unfoldable pub sum_ss_counter : Text → Text → ℕ
sum_ss_counter line k = sum_fields k (split_whitespace line)

pub record AppTrafficTracker : Type 0 where
  pub active_sockets : Counters
  pub app_traffic : Counters
  pub app_proxy_traffic : Counters
  pub app_direct_traffic : Counters
  pub app_local_traffic : Counters

unfoldable pub clear : AppTrafficTracker → AppTrafficTracker
clear t = record {
  active_sockets = [];
  app_traffic = [];
  app_proxy_traffic = [];
  app_direct_traffic = [];
  app_local_traffic = [];
}

pub record RawConnection : Type 0 where
  pub proc : Text
  pub local_addr : Text
  pub peer_addr : Text
  pub bytes : Bytes
  pub conn_type : ConnectionType

-- The variables of the loop of `sample`.
pub record Reading : Type 0 where
  pub tracker : AppTrafficTracker
  pub seen_sockets : List Text
  pub sock_key : Text
  pub proc_name : Text
  pub local_addr : Text
  pub peer_addr : Text
  pub raw_conns : List RawConnection

-- What follows the first occurrence of a text.
unfoldable pub behind_first : Text → Text → Option Text
behind_first k [] = strip_prefix [] k
behind_first k (c ∷ s) = elim (strip_prefix (c ∷ s) k) [
  | some rest ↦ some rest
  | none ↦ behind_first k s
]

abbrev up_to_quote : Option (Text × Text) → Text
up_to_quote none = []
up_to_quote (some (name, rest)) = name

unfoldable pub process_name : Option Text → Text
process_name none = []
process_name (some rest) = up_to_quote (split_once b'"' rest)

-- A line that starts a socket.
abbrev pub read_header : Text → List Text → Reading → Reading
read_header line (a ∷ b ∷ c ∷ source ∷ peer ∷ rest) r =
    let sock_key = source ++ (codes "->" ++ peer) in
    record r {
      local_addr = source;
      peer_addr = peer;
      sock_key = sock_key;
      seen_sockets = sock_key ∷ r.seen_sockets;
      proc_name = process_name (behind_first (codes "users:((\"") line);
    }
read_header line _ r = record r { sock_key = []; proc_name = []; local_addr = []; peer_addr = [] }

abbrev pub delta : Bytes → Option Bytes → Bytes
delta (sent, received) none = (sent, received)
delta (sent, received) (some (a, b)) = (sent - a, received - b)

abbrev pub is_zero : Bytes → Bool
is_zero (a, b) = a == 0 && b == 0

-- The branches on the type of a connection.
unfoldable pub count_type : AppTrafficTracker → Text → ConnectionType → Bytes → AppTrafficTracker
count_type t proc proxied v = record t { app_proxy_traffic = add_entry t.app_proxy_traffic proc v }
count_type t proc direct v = record t { app_direct_traffic = add_entry t.app_direct_traffic proc v }
count_type t proc local v = record t { app_local_traffic = add_entry t.app_local_traffic proc v }

unfoldable pub count_delta : AppTrafficTracker → Text → ConnectionType → Bytes → AppTrafficTracker
count_delta t proc kind v =
    if is_zero v
    then t
    else count_type (record t { app_traffic = add_entry t.app_traffic proc v }) proc kind v

-- The argument is `socks_port` as text.
unfoldable pub classify : Text → Text → Text → Text → ConnectionType
classify port proc source peer =
    if ends_with peer (codes ":" ++ port)
      || (ends_with source (codes ":" ++ port) && str_eq proc (codes "ssh"))
    then proxied
    else if starts_with peer (codes "127.")
        || (starts_with peer (codes "[::1]") || starts_with peer (codes "::1"))
    then local
    else direct

abbrev pub count_socket : Text → Bytes → Reading → Reading
count_socket port now r =
    let kind = classify port r.proc_name r.local_addr r.peer_addr in
    record r {
      tracker =
          count_delta
            (record r.tracker {
              active_sockets = insert_entry r.tracker.active_sockets r.sock_key now;
            })
            r.proc_name kind (delta now (find_entry r.tracker.active_sockets r.sock_key));
      raw_conns =
          r.raw_conns
          ++ record {
            proc = r.proc_name;
            local_addr = r.local_addr;
            peer_addr = r.peer_addr;
            bytes = now;
            conn_type = kind;
          }
            ∷ [];
    }

-- A line with the counters of the socket before it.
unfoldable pub read_counters : Text → Bytes → Reading → Reading
read_counters port now r =
    if is_empty r.sock_key || (is_empty r.proc_name || is_zero now)
    then r
    else count_socket port now r

abbrev pub is_indented : Text → Bool
is_indented line = starts_with line (codes " ") || starts_with line (codes "\t")

unfoldable pub read_line : Text → Text → Reading → Reading
read_line port line r =
    if is_indented line
    then read_counters port
        (sum_ss_counter line (codes "bytes_sent:"), sum_ss_counter line (codes "bytes_received:")) r
    else read_header line (split_whitespace line) r

unfoldable pub read_lines : Text → List Text → Reading → Reading
read_lines port [] r = r
read_lines port (line ∷ ls) r = read_lines port ls (read_line port line r)
