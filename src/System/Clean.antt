-- ===== src/System/Clean.antt =====
-- After a setup that ends anywhere, cleaning leaves no route or rule.
use ssh_rocket.Base.{
  ℕ, ◌-◌, ◌≡◌, refl, ◌∙◌, not, ◌&&◌, List, [], ◌∷◌, ◌++◌, map, arith, ◌==◌, inl, inr, Bool-cases,
}
use ssh_rocket.System.Effects.{Host, bare, IsSingle, affect, affect_each, affect_each-append}
use ssh_rocket.Config.{block, direct, RuleAction, proxy}
use ssh_rocket.Text.{codes, contains, Text}
use ssh_rocket.System.Apps.{Groups, Move, restore_app_processes}
use ssh_rocket.System.Calls.{remove_group, move}
use ssh_rocket.System.Setup.{
  of_group, cleanup, cleaning_calls, clean_stale_resources, kill_stale, clean_group,
}

without_rules : Host → ℕ → ℕ → ℕ → ℕ → Host
without_rules h a b c d = record h {
  dns_rules = a;
  fake_rules = b;
  mark_rules = c;
  mark6_rules = d;
}

bare_host : (a b c d : ℕ) → a ≡ 0 → b ≡ 0 → c ≡ 0 → d ≡ 0 → without_rules bare a b c d ≡ bare
unfolding without_rules
bare_host a b c d p q r s = rw (p, q, r, s) refl

cleaning_calls-bare :
    (N : Type 0) (h : Host) → IsSingle h → affect_each {N = N} (cleaning_calls {N = N}) h ≡ bare
unfolding cleaning_calls affect without_rules
cleaning_calls-bare N h (p, q, r, s) =
    bare_host (h.dns_rules - 1) (h.fake_rules - 1) (h.mark_rules - 1) (h.mark6_rules - 1)
      (omega arith) (omega arith) (omega arith) (omega arith)

module _ (N : Type 0) where
  -- Operations that change nothing in the host.
  affect_each-moves : (ms : List Move) (h : Host) → affect_each {N = N} (map move ms) h ≡ h
  unfolding affect
  affect_each-moves [] h = refl
  affect_each-moves (m ∷ ms) h = affect_each-moves ms h

  affect_each-clean_group :
      (a : RuleAction) (g : Groups) (h : Host) → affect_each {N = N} (clean_group a g) h ≡ h
  unfolding clean_group affect
  affect_each-clean_group a g h =
      affect_each-append (map move (restore_app_processes (of_group a g))) (remove_group a ∷ []) h
      ∙ affect_each-moves (restore_app_processes (of_group a g)) h

  affect_each-kill_stale :
      (my_pid : ℕ) (ps : List (ℕ × Text)) (h : Host)
      → affect_each {N = N} (kill_stale {N = N} my_pid ps) h ≡ h
  unfolding kill_stale affect
  affect_each-kill_stale my_pid [] h = refl
  affect_each-kill_stale my_pid ((pid, cmdline) ∷ ps) h =
      elim (Bool-cases (not (pid == my_pid) && contains cmdline (codes "ssh-rocket-helper"))) [
        | inl e ↦ rw e (affect_each-kill_stale my_pid ps h)
        | inr e ↦ rw e (affect_each-kill_stale my_pid ps h)
      ]

  pub cleanup-bare :
      (g : Groups) (h : Host) → IsSingle h → affect_each {N = N} (cleanup {N = N} g) h ≡ bare
  unfolding cleanup affect
  cleanup-bare g h s =
      rw
        (
          affect_each-append (cleaning_calls {N = N})
              (map move (restore_app_processes g)
                ++ remove_group proxy ∷ remove_group direct ∷ remove_group block ∷ [])
              h,
          cleaning_calls-bare N h s,
          affect_each-append (map move (restore_app_processes g))
              (remove_group proxy ∷ remove_group direct ∷ remove_group block ∷ []) bare,
          affect_each-moves (restore_app_processes g) bare,
        )
        refl

  pub clean_stale_resources-bare :
      (my_pid : ℕ) (ps : List (ℕ × Text)) (g : Groups) (h : Host)
      → IsSingle h
      → affect_each {N = N} (clean_stale_resources {N = N} my_pid ps g) h ≡ bare
  unfolding clean_stale_resources
  clean_stale_resources-bare my_pid ps g h s =
      rw
        (
          affect_each-append (kill_stale {N = N} my_pid ps)
              (cleaning_calls
                ++ (clean_group proxy g ++ (clean_group direct g ++ clean_group block g)))
              h,
          affect_each-kill_stale my_pid ps h,
          affect_each-append (cleaning_calls {N = N})
              (clean_group proxy g ++ (clean_group direct g ++ clean_group block g)) h,
          cleaning_calls-bare N h s,
          affect_each-append (clean_group {N = N} proxy g)
              (clean_group direct g ++ clean_group block g) bare,
          affect_each-clean_group proxy g bare,
          affect_each-append (clean_group {N = N} direct g) (clean_group block g) bare,
          affect_each-clean_group direct g bare,
          affect_each-clean_group block g bare,
        )
        refl
