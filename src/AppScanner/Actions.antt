-- ===== src/AppScanner/Actions.antt =====
-- Looking up an action behind setting one.
use ssh_rocket.Base.{
  ◌≡◌, refl, ap, true, false, not, List, [], ◌∷◌, ◌++◌, Option, none, some, arith, if◌then◌else◌,
  find?, retain,
}
use ssh_rocket.AppScanner.{is_for, action_or_direct, current_app_action, set_app_action}
use ssh_rocket.Config.{RuleAction, AppRule, AppConfig}
use ssh_rocket.System.Apps.{file_name, has_name}
use ssh_rocket.Text.{Text, str_eq}
use ssh_rocket.Text.Laws.{str_eq_iff}

-- A rule for one application is not one for another.
is_for_other :
    (e q : Text) (o : Option Text) → str_eq e q ≡ false → has_name e o ≡ true → has_name q o ≡ false
is_for_other e q none n h = refl
is_for_other e q (some m) n h = rw ((str_eq_iff m e).0 h) n

is_for_same : (e q : Text) (r : AppRule) → str_eq e q ≡ true → is_for e r ≡ is_for q r
is_for_same e q r h = ap (λ x. is_for x r) ((str_eq_iff e q).0 h)

action_at :
    (e q : Text) (a : RuleAction) (rules : List AppRule)
    → file_name e ≡ some e
    → action_or_direct (
        find? (is_for q) (
          retain (λ rule. not (is_for e rule)) rules ++ record { executable = e; action = a } ∷ []))
      ≡ (if str_eq e q then a else action_or_direct (find? (is_for q) rules))
action_at e q a [] f = rw f (ground arith)
action_at e q a (r ∷ rules) f =
    ground
      (arith, is_for_other e q (file_name r.executable), is_for_same e q r, action_at e q a rules f)

-- After the action of an application is set, where its name is a plain file name, looking that
-- name up gives the action, and looking any other name up gives what it gave before.
pub current-set_app_action :
    {N : Type 0} (config : AppConfig N) (e q : Text) (a : RuleAction)
    → file_name e ≡ some e
    → current_app_action (set_app_action config e a) q
      ≡ (if str_eq e q then a else current_app_action config q)
unfolding current_app_action set_app_action
current-set_app_action config e q a f = action_at e q a config.settings.app_rules f
