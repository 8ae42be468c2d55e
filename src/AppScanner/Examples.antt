-- ===== src/AppScanner/Examples.antt =====
-- Tests of the application scanner, and the theorem at a concrete input.
use ssh_rocket.Base.{◌≡◌, refl, [], ◌∷◌, none, some}
use ssh_rocket.AppScanner.{
  parse_desktop_app, extract_exec_name, read_entry, read_entry_line, current_app_action,
  set_app_action,
}
use ssh_rocket.AppScanner.Actions.{current-set_app_action}
use ssh_rocket.Config.{direct, block, proxy, AppConfig, default_settings}
use ssh_rocket.FilePath.{path_names}
use ssh_rocket.Net.Blocks.{Block}
use ssh_rocket.System.Apps.{file_name}
use ssh_rocket.Text.{
  codes, str_eq, is_whitespace, split, starts_with, ends_with, strip_prefix, contains, lines, trim,
  trim_start_matches, trim_end_matches, to_ascii_lowercase,
}

through_env :
    extract_exec_name to_ascii_lowercase (codes "/usr/bin/env B=1 /opt/Code %U")
    ≡ some (codes "code")
unfolding extract_exec_name file_name path_names str_eq is_whitespace split starts_with ends_with
    strip_prefix contains trim_start_matches trim_end_matches to_ascii_lowercase
through_env = refl

of_flatpak :
    extract_exec_name to_ascii_lowercase
      (codes "flatpak run --branch=stable org.mozilla.Firefox.desktop")
    ≡ some (codes "firefox")
unfolding extract_exec_name file_name path_names str_eq is_whitespace split starts_with ends_with
    strip_prefix contains trim_start_matches trim_end_matches to_ascii_lowercase
of_flatpak = refl

parsed :
    parse_desktop_app to_ascii_lowercase (
      codes
        "[Desktop Entry]\nName=Firefox\nName=Other\nExec=/usr/bin/firefox %u\nIcon=firefox\n[Desktop Action x]\nExec=other\n")
    ≡ some (record { name = codes "Firefox"; executable = codes "firefox"; icon = codes "firefox" })
unfolding parse_desktop_app read_entry read_entry_line extract_exec_name file_name path_names str_eq
    is_whitespace split starts_with ends_with strip_prefix contains lines trim trim_start_matches
    trim_end_matches to_ascii_lowercase
parsed = refl

abbrev config : AppConfig Block
config = record {
  profiles = [];
  active_profile_id = none;
  port_forwards = [];
  settings = record (default_settings Block) {
    app_rules = record { executable = codes "/usr/bin/curl"; action = block } ∷ [];
  };
}

plain_name : file_name (codes "curl") ≡ some (codes "curl")
unfolding file_name path_names split str_eq
plain_name = refl

current-set_app_action_example :
    current_app_action (set_app_action config (codes "curl") proxy) (codes "curl") ≡ proxy
unfolding str_eq
current-set_app_action_example =
    current-set_app_action config (codes "curl") (codes "curl") proxy plain_name

-- A name with a slash is not found again.
not_found :
    current_app_action (set_app_action config (codes "bin/curl") proxy) (codes "bin/curl") ≡ direct
unfolding current_app_action set_app_action file_name path_names split str_eq
not_found = refl
