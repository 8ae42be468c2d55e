-- ===== src/Traffic/Split.antt =====
-- The traffic of an application is split by the type of its connections.
use ssh_rocket.Base.{
  ℕ, ◌+◌, ◌≡◌, refl, ap, Bool, true, false, ◌||◌, List, [], ◌∷◌, Option, none, some, arith,
  if◌then◌else◌,
}
use ssh_rocket.Text.{codes, is_empty, Text, str_eq, lines}
use ssh_rocket.Text.Laws.{str_eq_iff, str_eq_symm}
use ssh_rocket.Traffic.{
  sum_ss_counter, split_whitespace, is_indented, read_header, wrap64, Bytes, plus, Counters,
  find_entry, add_entry, traffic_of, ConnectionType, proxied, direct, local, AppTrafficTracker,
  clear, Reading, count_type, count_delta, count_socket, read_counters, read_line, read_lines,
  is_zero,
}
use ssh_rocket.Traffic.Stats.{DesktopApp, sample, reading_of, forget_unseen}

same_left : (p k q : Text) → str_eq p k ≡ true → str_eq p q ≡ str_eq k q
same_left p k q h = ap (λ x. str_eq x q) ((str_eq_iff p k).0 h)

traffic_of-add_entry :
    (m : Counters) (k q : Text) (v : Bytes)
    → traffic_of (add_entry m k v) q
      ≡ (if str_eq k q then plus (traffic_of m q) v else traffic_of m q)
unfolding find_entry add_entry
traffic_of-add_entry [] k q v = ground arith
traffic_of-add_entry ((p, w) ∷ m) k q v =
    ground (arith, same_left p k q, same_left p q k, str_eq_symm q k, traffic_of-add_entry m k q v)

wrap_swap :
    (a b c u : ℕ)
    → wrap64 (wrap64 (wrap64 (a + u) + b) + c) ≡ wrap64 (wrap64 (wrap64 (a + b) + c) + u)
wrap_swap a b c u = omega arith

wrap_swap_second :
    (a b c u : ℕ)
    → wrap64 (wrap64 (a + wrap64 (b + u)) + c) ≡ wrap64 (wrap64 (wrap64 (a + b) + c) + u)
wrap_swap_second a b c u = omega arith

wrap_swap_third :
    (a b c u : ℕ)
    → wrap64 (wrap64 (a + b) + wrap64 (c + u)) ≡ wrap64 (wrap64 (wrap64 (a + b) + c) + u)
wrap_swap_third a b c u = omega arith

-- What the three types sum up to.
abbrev pub parts : AppTrafficTracker → Text → Bytes
parts t k =
    plus (plus (traffic_of t.app_proxy_traffic k) (traffic_of t.app_direct_traffic k))
      (traffic_of t.app_local_traffic k)

-- For each process, the traffic is the sum of the traffic of each type.
abbrev pub IsSplit : AppTrafficTracker → Type 0
IsSplit t = (k : Text) → traffic_of t.app_traffic k ≡ parts t k

-- A function that adding bytes passes through, on bytes that may have been added to.
under_if :
    (b : Bool) (f : Bytes → Bytes) (x v : Bytes)
    → f (plus x v) ≡ plus (f x) v
    → f (if b then plus x v else x) ≡ (if b then plus (f x) v else f x)
under_if true f x v h = h
under_if false f x v h = refl

count_type-parts :
    (t : AppTrafficTracker) (proc q : Text) (kind : ConnectionType) (v : Bytes)
    → parts (count_type t proc kind v) q ≡ (if str_eq proc q then plus (parts t q) v else parts t q)
unfolding count_type
count_type-parts t proc q proxied v =
    let p = traffic_of t.app_proxy_traffic q in
    let d = traffic_of t.app_direct_traffic q in
    let l = traffic_of t.app_local_traffic q in
    rw (traffic_of-add_entry t.app_proxy_traffic proc q v) (
      under_if (str_eq proc q) (λ x. plus (plus x d) l) p v
        (λ i. (wrap_swap p.0 d.0 l.0 v.0 i, wrap_swap p.1 d.1 l.1 v.1 i)))
count_type-parts t proc q direct v =
    let p = traffic_of t.app_proxy_traffic q in
    let d = traffic_of t.app_direct_traffic q in
    let l = traffic_of t.app_local_traffic q in
    rw (traffic_of-add_entry t.app_direct_traffic proc q v) (
      under_if (str_eq proc q) (λ x. plus (plus p x) l) d v
        (λ i. (wrap_swap_second p.0 d.0 l.0 v.0 i, wrap_swap_second p.1 d.1 l.1 v.1 i)))
count_type-parts t proc q local v =
    let p = traffic_of t.app_proxy_traffic q in
    let d = traffic_of t.app_direct_traffic q in
    let l = traffic_of t.app_local_traffic q in
    rw (traffic_of-add_entry t.app_local_traffic proc q v) (
      under_if (str_eq proc q) (λ x. plus (plus p d) x) l v
        (λ i. (wrap_swap_third p.0 d.0 l.0 v.0 i, wrap_swap_third p.1 d.1 l.1 v.1 i)))

count_type-app_traffic :
    (t : AppTrafficTracker) (proc : Text) (kind : ConnectionType) (v : Bytes)
    → (count_type t proc kind v).app_traffic ≡ t.app_traffic
unfolding count_type
count_type-app_traffic t proc proxied v = refl
count_type-app_traffic t proc direct v = refl
count_type-app_traffic t proc local v = refl

if-IsSplit :
    (b : Bool) (t u : AppTrafficTracker) → IsSplit t → IsSplit u → IsSplit (if b then t else u)
if-IsSplit true t u h k = h
if-IsSplit false t u h k = k

count_delta-IsSplit :
    (t : AppTrafficTracker) (proc : Text) (kind : ConnectionType) (v : Bytes)
    → IsSplit t
    → IsSplit (count_delta t proc kind v)
unfolding count_delta
count_delta-IsSplit t proc kind v h =
    let u = record t { app_traffic = add_entry t.app_traffic proc v } in
    if-IsSplit (is_zero v) t (count_type u proc kind v) h (λ q.
      rw
        (
          count_type-app_traffic u proc kind v,
          count_type-parts u proc q kind v,
          traffic_of-add_entry t.app_traffic proc q v,
          h q,
        )
        refl)

if_reading-IsSplit :
    (b : Bool) (r s : Reading)
    → IsSplit r.tracker
    → IsSplit s.tracker
    → IsSplit (if b then r else s).tracker
if_reading-IsSplit true r s h k = h
if_reading-IsSplit false r s h k = k

read_counters-IsSplit :
    (port : Text) (now : Bytes) (r : Reading)
    → IsSplit r.tracker
    → IsSplit (read_counters port now r).tracker
unfolding read_counters
read_counters-IsSplit port now r h =
    if_reading-IsSplit (is_empty r.sock_key || (is_empty r.proc_name || is_zero now)) r
      (count_socket port now r) h (count_delta-IsSplit _ r.proc_name _ _ h)

read_header-tracker :
    (line : Text) (ws : List Text) (r : Reading) → (read_header line ws r).tracker ≡ r.tracker
read_header-tracker line [] r = refl
read_header-tracker line (a ∷ []) r = refl
read_header-tracker line (a ∷ b ∷ []) r = refl
read_header-tracker line (a ∷ b ∷ c ∷ []) r = refl
read_header-tracker line (a ∷ b ∷ c ∷ d ∷ []) r = refl
read_header-tracker line (a ∷ b ∷ c ∷ d ∷ e ∷ ws) r = refl

read_line-IsSplit :
    (port line : Text) (r : Reading) → IsSplit r.tracker → IsSplit (read_line port line r).tracker
unfolding read_line
read_line-IsSplit port line r h =
    if_reading-IsSplit (is_indented line) _ (read_header line (split_whitespace line) r)
      (read_counters-IsSplit port
        (sum_ss_counter line (codes "bytes_sent:"), sum_ss_counter line (codes "bytes_received:")) r
        h)
      (rw (read_header-tracker line (split_whitespace line) r) h)

read_lines-IsSplit :
    (port : Text) (ls : List Text) (r : Reading)
    → IsSplit r.tracker
    → IsSplit (read_lines port ls r).tracker
unfolding read_lines
read_lines-IsSplit port [] r h = h
read_lines-IsSplit port (line ∷ ls) r h =
    read_lines-IsSplit port ls (read_line port line r) (read_line-IsSplit port line r h)

sample-IsSplit :
    (apps : List DesktopApp) (port : Text) (output : Option Text) (t : AppTrafficTracker)
    → IsSplit t
    → IsSplit (sample apps port output t).0
unfolding sample forget_unseen
sample-IsSplit apps port none t h = h
sample-IsSplit apps port (some text) t h = read_lines-IsSplit port (lines text) (reading_of t) h

-- The tracker after samples that find these outputs.
abbrev pub sample_all :
    List DesktopApp → Text → List (Option Text) → AppTrafficTracker → AppTrafficTracker
sample_all apps port [] t = t
sample_all apps port (output ∷ outputs) t =
    sample_all apps port outputs (sample apps port output t).0

samples-IsSplit :
    (apps : List DesktopApp) (port : Text) (outputs : List (Option Text)) (t : AppTrafficTracker)
    → IsSplit t
    → IsSplit (sample_all apps port outputs t)
samples-IsSplit apps port [] t h = h
samples-IsSplit apps port (output ∷ outputs) t h =
    samples-IsSplit apps port outputs (sample apps port output t).0
      (sample-IsSplit apps port output t h)

-- After any samples of a cleared tracker, whatever ss prints and also where it fails, the bytes of
-- every process are the sum modulo 2 ^ 64 of its proxied, direct and local bytes, both sent and
-- received.
pub sample_all-IsSplit :
    (apps : List DesktopApp) (port : Text) (outputs : List (Option Text)) (t : AppTrafficTracker)
    → IsSplit (sample_all apps port outputs (clear t))
unfolding clear
sample_all-IsSplit apps port outputs t =
    samples-IsSplit apps port outputs (clear t) (unfold find_entry in λ k. refl)
