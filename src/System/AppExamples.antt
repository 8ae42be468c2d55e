-- ===== src/System/AppExamples.antt =====
-- Tests of the assignment of processes, and the theorem at a concrete input.
use ssh_rocket.System.Examples.{settings}
use ssh_rocket.System.Apps.{
  place, restore, place_moves, restore_moves, assign_apps, is_owned, file_name,
}
use ssh_rocket.System.Groups.{after-assign_apps, after}
use ssh_rocket.System.Apps.{
  file_name, find_named, get_app, is_owned, desired_group, collect_pids, insert_app, app_map,
  Process, group_of, desired_pids,
}
use ssh_rocket.Base.{refl}
use ssh_rocket.FilePath.{path_names, path_eq}
use ssh_rocket.Base.{◌≡◌, [], ℕ, ◌∷◌, none, List, some}
use ssh_rocket.Config.{block}
use ssh_rocket.Text.{lines, starts_with, str_eq, Text, codes}

abbrev pub show : ℕ → Text
show uid = codes "1000"

abbrev processes : List Process
processes =
    record {
      pid = 41;
      status = codes "Name:\tcurl\nUid:\t1000\t1000\t1000\t1000";
      executable = some (codes "/usr/bin/curl");
    }
    ∷ record {
      pid = 42;
      status = codes "Name:\tfirefox\nUid:\t1000\t1000\t1000\t1000";
      executable = some (codes "/opt/firefox");
    }
    ∷ record {
      pid = 43;
      status = codes "Name:\tfirefox\nUid:\t0\t0\t0\t0";
      executable = some (codes "/usr/bin/firefox");
    }
    ∷ []

-- The rule names another path of the same program, and the third process is of another user.
one_desired : desired_pids show 1000 (app_map settings.app_rules []) processes ≡ (42, block) ∷ []
unfolding desired_pids app_map insert_app collect_pids desired_group is_owned
    ssh_rocket.System.Apps.app_action get_app find_named file_name path_eq path_names str_eq
    starts_with lines
one_desired = refl

moved :
    assign_apps show 1000 settings.app_rules processes ((41, block) ∷ [])
    ≡ restore 41 ∷ place 42 block ∷ []
unfolding assign_apps restore_moves place_moves group_of desired_pids app_map insert_app
    collect_pids desired_group is_owned ssh_rocket.System.Apps.app_action get_app find_named
    file_name path_eq path_names str_eq starts_with lines
moved = refl

after-assign_apps_example :
    after 42 none (assign_apps show 1000 settings.app_rules processes ((41, block) ∷ []))
    ≡ some block
unfolding desired_pids app_map insert_app collect_pids desired_group is_owned lines starts_with
    ssh_rocket.System.Apps.app_action get_app path_eq file_name find_named group_of
after-assign_apps_example =
    after-assign_apps show 1000 settings.app_rules processes ((41, block) ∷ []) 42 refl
