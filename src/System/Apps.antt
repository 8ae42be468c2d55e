-- ===== src/System/Apps.antt =====
-- crates/ssh-rocket-runtime/src/system.rs: `assign_apps`, `app_action`, `read_cgroup_pids` and
-- `restore_app_processes`. A process is in one control group or in none of the program's.
use ssh_rocket.Base.{
  ◌-◌, ◌^◌, ℕ, Bool, true, false, List, [], ◌∷◌, ◌++◌, Option, none, some, ◌==◌, if◌then◌else◌, any,
  null,
}
use ssh_rocket.Config.{RuleAction, direct, proxy, block, AppRule}
use ssh_rocket.Net.Parse.{parse_below}
use ssh_rocket.FilePath.{path_eq, path_names}
use ssh_rocket.Text.{Text, codes, str_eq, starts_with, lines}

-- What /proc says of a process.
pub record Process : Type 0 where
  pub pid : ℕ
  pub status : Text
  pub executable : Option Text

-- A map from paths in some order of iteration; `insert` keeps one entry for each path.
abbrev pub AppMap : Type 0
AppMap = List (Text × RuleAction)

unfoldable pub insert_app : AppMap → Text → RuleAction → AppMap
insert_app [] path a = (path, a) ∷ []
insert_app ((q, b) ∷ m) path a =
    let rest = insert_app m path a in if path_eq q path then (q, a) ∷ m else (q, b) ∷ rest

unfoldable pub app_map : List AppRule → AppMap → AppMap
app_map [] m = m
app_map (r ∷ rs) m = app_map rs (insert_app m r.executable r.action)

unfoldable pub get_app : AppMap → Text → Option RuleAction
get_app [] path = none
get_app ((q, a) ∷ m) path = let rest = get_app m path in if path_eq q path then some a else rest

abbrev last_name : List Text → Option Text
last_name [] = none
last_name (w ∷ []) = if str_eq w (codes "..") then none else some w
last_name (w ∷ v ∷ ws) = last_name (v ∷ ws)

-- `Path::file_name`
unfoldable pub file_name : Text → Option Text
file_name path = last_name (path_names path)

abbrev pub has_name : Text → Option Text → Bool
has_name name none = false
has_name name (some n) = str_eq n name

unfoldable pub find_named : AppMap → Text → Option RuleAction
find_named [] name = none
find_named ((q, a) ∷ m) name =
    let rest = find_named m name in if has_name name (file_name q) then some a else rest

abbrev by_name : AppMap → Option Text → Option RuleAction
by_name m none = none
by_name m (some name) = find_named m name

unfoldable pub app_action : AppMap → Text → Option RuleAction
app_action m executable = elim (get_app m executable) [
  | some a ↦ some a
  | none ↦ by_name m (file_name executable)
]

-- The groups of processes, by process.
abbrev pub Groups : Type 0
Groups = List (ℕ × RuleAction)

unfoldable pub group_of : ℕ → Groups → Option RuleAction
group_of pid [] = none
group_of pid ((q, a) ∷ g) = let rest = group_of pid g in if q == pid then some a else rest

-- A write to the file of a group moves a process: out of the groups, or into one of them.
pub data Move : Type 0 where
  restore : ℕ → Move
  place : ℕ → RuleAction → Move

module _ (show : ℕ → Text) (uid : ℕ) (rules : AppMap) where
  unfoldable pub is_owned : Process → Bool
  is_owned p =
      any (λ line. starts_with line (codes "Uid:\t" ++ (show uid ++ codes "\t"))) (lines p.status)

  abbrev pub rule_of : Option Text → Option RuleAction
  rule_of none = none
  rule_of (some executable) = app_action rules executable

  -- The group that a process shall be in.
  unfoldable pub desired_group : Process → Option RuleAction
  desired_group p = if is_owned p then rule_of p.executable else none

  abbrev pub with_group : ℕ → Option RuleAction → Groups → Groups
  with_group pid none g = g
  with_group pid (some a) g = (pid, a) ∷ g

  unfoldable pub collect_pids : List Process → Groups
  collect_pids [] = []
  collect_pids (p ∷ ps) = with_group p.pid (desired_group p) (collect_pids ps)

  unfoldable pub desired_pids : List Process → Groups
  desired_pids ps = if null rules then [] else collect_pids ps

abbrev pub is_in : RuleAction → Option RuleAction → Bool
is_in direct (some direct) = true
is_in proxy (some proxy) = true
is_in block (some block) = true
is_in _ _ = false

abbrev pub is_none : Option RuleAction → Bool
is_none none = true
is_none (some a) = false

-- The two loops of `assign_apps`: processes that shall be in no group leave theirs, and the others
-- move unless they are there.
unfoldable pub restore_moves : Groups → Groups → List Move
restore_moves desired [] = []
restore_moves desired ((pid, a) ∷ current) =
    let rest = restore_moves desired current in
    if is_none (group_of pid desired) then restore pid ∷ rest else rest

unfoldable pub place_moves : Groups → Groups → List Move
place_moves current [] = []
place_moves current ((pid, a) ∷ desired) =
    let rest = place_moves current desired in
    if is_in a (group_of pid current) then rest else place pid a ∷ rest

unfoldable pub assign_apps : (ℕ → Text) → ℕ → List AppRule → List Process → Groups → List Move
assign_apps show uid app_rules processes current =
    let desired = desired_pids show uid (app_map app_rules []) processes in
    restore_moves desired current ++ place_moves current desired

unfoldable pub restore_app_processes : Groups → List Move
restore_app_processes [] = []
restore_app_processes ((pid, a) ∷ g) = restore pid ∷ restore_app_processes g

-- `HashMap::insert`
unfoldable pub insert_pid : Groups → ℕ → RuleAction → Groups
insert_pid [] pid a = (pid, a) ∷ []
insert_pid ((q, b) ∷ g) pid a =
    let rest = insert_pid g pid a in if q == pid then (q, a) ∷ g else (q, b) ∷ rest

abbrev pub insert_parsed : Groups → Option ℕ → RuleAction → Groups
insert_parsed g none a = g
insert_parsed g (some pid) a = insert_pid g pid a

unfoldable pub insert_pids : Groups → List Text → RuleAction → Groups
insert_pids g [] a = g
insert_pids g (line ∷ ls) a = insert_pids (insert_parsed g (parse_below (2 ^ 32 - 1) line) a) ls a

abbrev read_group : (RuleAction → Option Text) → RuleAction → Groups → Groups
read_group read a g = elim (read a) [ none ↦ g | some text ↦ insert_pids g (lines text) a ]

-- The argument is what the files of the groups hold.
unfoldable pub read_cgroup_pids : (RuleAction → Option Text) → Groups
read_cgroup_pids read = read_group read block (read_group read direct (read_group read proxy []))
