-- ===== src/AppScanner.antt =====
-- crates/ssh-rocket-gui/src/app_scanner.rs: the entries of desktop applications, and the rules of
-- applications. The Unicode tables of `str::to_lowercase` are a parameter.
pub mod Actions
mod Examples
use ssh_rocket.Base.{
  ℕ, zero, suc, ◌+◌, ◌-◌, ◌*◌, ◌/◌, ◌%◌, ◌^◌, ◌≤◌, ◌<◌, min, ◌≡◌, refl, sym, ap, ◌∙◌, Bool, true,
  false, not, ◌&&◌, ◌||◌, List, [], ◌∷◌, ◌++◌, map, append_assoc, Option, none, some, arith, ltb,
  leb, ◌==◌, if◌then◌else◌, length, get_elem?, take, null, get_or, drop, find?, any, all, retain,
  inl, inr, Bool-cases,
}
use ssh_rocket.Config.{RuleAction, direct, AppRule, AppConfig}
use ssh_rocket.System.Apps.{file_name, has_name}
use ssh_rocket.Text.{
  Text, codes, str_eq, is_empty, is_char, is_whitespace, split, starts_with, ends_with,
  strip_prefix, contains, lines, trim, trim_start_matches, trim_end_matches,
}
use ssh_rocket.Traffic.{split_whitespace}
use ssh_rocket.Traffic.Stats.{DesktopApp, eq_ignore_ascii_case}

-- The variables of the loop of `parse_desktop_app`.
pub record Entry : Type 0 where
  pub in_entry : Bool
  pub name : Text
  pub exec : Text
  pub icon : Text
  pub no_display : Bool
  pub app_type : Text

abbrev pub no_entry : Entry
no_entry = record {
  in_entry = false;
  name = [];
  exec = [];
  icon = [];
  no_display = false;
  app_type = [];
}

abbrev read_type : Entry → Option Text → Entry
read_type e none = e
read_type e (some value) = record e { app_type = trim value }

abbrev read_no_display : Entry → Text → Option Text → Entry
read_no_display e line none = read_type e (strip_prefix line (codes "Type="))
read_no_display e line (some value) = record e {
  no_display = eq_ignore_ascii_case value (codes "true");
}

abbrev read_icon : Entry → Text → Option Text → Entry
read_icon e line none = read_no_display e line (strip_prefix line (codes "NoDisplay="))
read_icon e line (some value) = record e { icon = trim value }

abbrev read_exec : Entry → Text → Option Text → Entry
read_exec e line none = read_icon e line (strip_prefix line (codes "Icon="))
read_exec e line (some value) = record e { exec = trim value }

abbrev read_name : Entry → Text → Option Text → Entry
read_name e line none = read_exec e line (strip_prefix line (codes "Exec="))
read_name e line (some value) = if is_empty e.name then record e { name = trim value } else e

unfoldable pub read_entry_line : Entry → Text → Entry
read_entry_line e line =
    if starts_with line (codes "[")
    then record e { in_entry = str_eq line (codes "[Desktop Entry]") }
    else if not e.in_entry || starts_with line (codes "#")
    then e
    else read_name e line (strip_prefix line (codes "Name="))

unfoldable pub read_entry : Entry → List Text → Entry
read_entry e [] = e
read_entry e (line ∷ ls) = read_entry (read_entry_line e (trim line)) ls

abbrev is_quote : ℕ → Bool
is_quote c = c == b'\'' || c == b'"'

abbrev or_first : Text → List Text → Option Text
or_first first parts =
    if ends_with first (codes "/env") || str_eq first (codes "env")
    then find? (λ part. not (starts_with part (codes "-")) && not (contains part (codes "="))) parts
    else some first

abbrev command_of_parts : List Text → Option Text
command_of_parts [] = none
command_of_parts (first ∷ parts) =
    or_first (trim_start_matches is_quote (trim_end_matches is_quote first)) parts

-- `iter().find_map(..)` with `strip_prefix`
abbrev find_stripped : Text → List Text → Option Text
find_stripped prefix [] = none
find_stripped prefix (arg ∷ args) = elim (strip_prefix arg prefix) [
  | some value ↦ some value
  | none ↦ find_stripped prefix args
]

-- `iter().rev().find(..)`
abbrev find_last : (Text → Bool) → List Text → Option Text
find_last p [] = none
find_last p (x ∷ xs) = elim (find_last p xs) [
  | some y ↦ some y
  | none ↦ if p x then some x else none
]

abbrev is_generic : Text → Bool
is_generic part =
    str_eq part (codes "desktop") || (str_eq part (codes "client") || str_eq part (codes "app"))

module _ (to_lowercase : Text → Text) where
  abbrev lower_name : Option Text → Option Text
  lower_name none = none
  lower_name (some n) = some (to_lowercase n)

  abbrev flatpak_id : Text → Option Text → Option Text
  flatpak_id command none = lower_name (file_name command)
  flatpak_id command (some id) =
      lower_name (find_last (λ part. not (is_generic part)) (split (is_char b'.') id))

  abbrev flatpak_command : Text → List Text → Option Text → Option Text
  flatpak_command command args none =
      flatpak_id command (
        find_last (λ arg. not (starts_with arg (codes "-")) && not (str_eq arg (codes "run"))) args)
  flatpak_command command args (some value) = lower_name (file_name value)

  abbrev name_of_command : Text → Option Text → Option Text
  name_of_command exec none = none
  name_of_command exec (some command) =
      if ends_with command (codes "flatpak") || str_eq command (codes "flatpak")
      then flatpak_command command (split_whitespace exec)
          (find_stripped (codes "--command=") (split_whitespace exec))
      else lower_name (file_name command)

  unfoldable pub extract_exec_name : Text → Option Text
  extract_exec_name exec = name_of_command exec (
      command_of_parts
        (retain (λ part. not (starts_with part (codes "%"))) (split_whitespace exec)))

  abbrev app_of : Entry → Option Text → Option DesktopApp
  app_of e none = none
  app_of e (some executable) = some (record {
    name = if is_empty e.name then executable else e.name;
    executable = executable;
    icon = e.icon;
  })

  unfoldable pub parse_desktop_app : Text → Option DesktopApp
  parse_desktop_app text =
      let e = read_entry no_entry (lines text) in
      if e.no_display
        || ((not (is_empty e.app_type) && not (str_eq e.app_type (codes "Application")))
            || is_empty e.exec)
      then none
      else app_of e (extract_exec_name e.exec)

-- Whether a rule is for an application, by the name of its file.
abbrev pub is_for : Text → AppRule → Bool
is_for executable rule = has_name executable (file_name rule.executable)

abbrev pub action_or_direct : Option AppRule → RuleAction
action_or_direct none = direct
action_or_direct (some rule) = rule.action

module _ {N : Type 0} where
  unfoldable pub current_app_action : AppConfig N → Text → RuleAction
  current_app_action config executable =
      action_or_direct (find? (is_for executable) config.settings.app_rules)

  -- The configuration that is saved.
  unfoldable pub set_app_action : AppConfig N → Text → RuleAction → AppConfig N
  set_app_action config executable action = record config {
    settings = record config.settings {
      app_rules =
          retain (λ rule. not (is_for executable rule)) config.settings.app_rules
          ++ record { executable = executable; action = action } ∷ [];
    };
  }
