-- ===== src/Traffic/Stats.antt =====
-- crates/ssh-rocket-gui/src/traffic_tracker.rs: `sample` behind its loop over the lines.
use ssh_rocket.Base.{
  ℕ, ◌+◌, Bool, false, ◌&&◌, ◌||◌, List, [], ◌∷◌, map, Option, none, some, ltb, leb, if◌then◌else◌,
  take, find?, any, retain,
}
use ssh_rocket.System.Apps.{file_name}
use ssh_rocket.Text.{Text, str_eq, to_ascii_lowercase, lines}
use ssh_rocket.Traffic.{
  wrap64, Bytes, traffic_of, ConnectionType, proxied, direct, local, AppTrafficTracker,
  RawConnection, Reading, read_lines,
}

-- app_scanner.rs
pub record DesktopApp : Type 0 where
  pub name : Text
  pub executable : Text
  pub icon : Text

pub record ActiveConnectionStat : Type 0 where
  pub proc_name : Text
  pub icon : Text
  pub local_addr : Text
  pub peer_addr : Text
  pub conn_type : ConnectionType
  pub upload : ℕ
  pub download : ℕ

pub record AppTrafficStat : Type 0 where
  pub id : Text
  pub name : Text
  pub icon : Text
  pub upload : ℕ
  pub download : ℕ
  pub proxy_upload : ℕ
  pub proxy_download : ℕ
  pub direct_upload : ℕ
  pub direct_download : ℕ
  pub local_upload : ℕ
  pub local_download : ℕ
  pub primary_type : ConnectionType

abbrev pub eq_ignore_ascii_case : Text → Text → Bool
eq_ignore_ascii_case a b = str_eq (to_ascii_lowercase a) (to_ascii_lowercase b)

abbrev is_named : Text → Option Text → Bool
is_named proc none = false
is_named proc (some n) = eq_ignore_ascii_case n proc

abbrev pub is_of : Text → DesktopApp → Bool
is_of proc app =
    eq_ignore_ascii_case app.executable proc
    || (eq_ignore_ascii_case app.name proc || is_named proc (file_name app.executable))

abbrev name_and_icon : Text → Option DesktopApp → Text × Text
name_and_icon proc none = (proc, [])
name_and_icon proc (some app) = (app.name, app.icon)

unfoldable pub shown : List DesktopApp → Text → Text × Text
shown apps proc = name_and_icon proc (find? (is_of proc) apps)

abbrev pub total : Bytes → ℕ
total (up, down) = wrap64 (up + down)

unfoldable pub primary_type : ℕ → ℕ → ℕ → ConnectionType
primary_type proxy_total direct_total local_total =
    if leb direct_total proxy_total && (leb local_total proxy_total && ltb 0 proxy_total)
    then proxied
    else if leb local_total direct_total && ltb 0 direct_total
    then direct
    else local

unfoldable pub app_stat : List DesktopApp → AppTrafficTracker → Text × Bytes → AppTrafficStat
app_stat apps t (proc, v) =
    let p = traffic_of t.app_proxy_traffic proc in
    let d = traffic_of t.app_direct_traffic proc in
    let l = traffic_of t.app_local_traffic proc in
    record {
      id = proc;
      name = (shown apps proc).0;
      icon = (shown apps proc).1;
      upload = v.0;
      download = v.1;
      proxy_upload = p.0;
      proxy_download = p.1;
      direct_upload = d.0;
      direct_download = d.1;
      local_upload = l.0;
      local_download = l.1;
      primary_type = primary_type (total p) (total d) (total l);
    }

-- `sort_by` with the greater key first, which keeps the order of equal keys.
module _ {A : Type 0} (key : A → ℕ) where
  unfoldable pub insert_by : A → List A → List A
  insert_by x [] = x ∷ []
  insert_by x (y ∷ ys) =
      let rest = insert_by x ys in if leb (key y) (key x) then x ∷ y ∷ ys else y ∷ rest

  unfoldable pub sort_by : List A → List A
  sort_by [] = []
  sort_by (x ∷ xs) = insert_by x (sort_by xs)

unfoldable pub active_conn : List DesktopApp → RawConnection → ActiveConnectionStat
active_conn apps c = record {
  proc_name = (shown apps c.proc).0;
  icon = (shown apps c.proc).1;
  local_addr = c.local_addr;
  peer_addr = c.peer_addr;
  conn_type = c.conn_type;
  upload = c.bytes.0;
  download = c.bytes.1;
}

abbrev pub stat_total : AppTrafficStat → ℕ
stat_total s = total (s.upload, s.download)

abbrev pub raw_total : RawConnection → ℕ
raw_total c = total c.bytes

abbrev pub reading_of : AppTrafficTracker → Reading
reading_of t = record {
  tracker = t;
  seen_sockets = [];
  sock_key = [];
  proc_name = [];
  local_addr = [];
  peer_addr = [];
  raw_conns = [];
}

-- The sockets that were not seen are forgotten.
unfoldable pub forget_unseen : Reading → AppTrafficTracker
forget_unseen r = record r.tracker {
  active_sockets = retain (λ e. any (λ k. str_eq k e.0) r.seen_sockets) r.tracker.active_sockets;
}

abbrev pub Sample : Type 0
Sample = Option (List AppTrafficStat × List ActiveConnectionStat)

unfoldable pub report : List DesktopApp → AppTrafficTracker → List RawConnection → Sample
report apps t raw = some (
  sort_by stat_total (map (app_stat apps t) t.app_traffic),
  map (active_conn apps) (take 60 (sort_by raw_total raw)),
)

-- `sample`, with what `ss` prints, if it can be run and succeeds.
unfoldable pub sample :
    List DesktopApp → Text → Option Text → AppTrafficTracker → AppTrafficTracker × Sample
sample apps port none t = (t, none)
sample apps port (some text) t =
    let r = read_lines port (lines text) (reading_of t) in
    (forget_unseen r, report apps (forget_unseen r) r.raw_conns)
