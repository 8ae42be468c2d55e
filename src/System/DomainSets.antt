-- ===== src/System/DomainSets.antt =====
-- crates/ssh-rocket-runtime/src/system.rs: `update_domain_addresses`.
use ssh_rocket.Base.{List, [], ◌∷◌, ◌++◌, Option, none, some, if◌then◌else◌, null}
use ssh_rocket.Config.{RuleAction}
use ssh_rocket.Net.{IpAddr}
use ssh_rocket.Text.{Text, codes}
use ssh_rocket.System.Nft.{Printing, family_of, set_name}

module _ {N : Type 0} (print : Printing N) where
  abbrev pub element_line : RuleAction → IpAddr → Text
  element_line action address =
      codes "add element inet ssh_rocket "
      ++ (set_name (family_of address) action
          ++ (codes " { " ++ (print.address address ++ codes " timeout 1800s }\n")))

  unfoldable pub batch : RuleAction → List IpAddr → Text
  batch action [] = []
  batch action (address ∷ addresses) = element_line action address ++ batch action addresses

  -- The text that nft reads, if it is run.
  unfoldable pub update_domain_addresses : List IpAddr → RuleAction → Option Text
  update_domain_addresses addresses action =
      if null addresses then none else some (batch action addresses)
