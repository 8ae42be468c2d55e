-- ===== src/System/Effects.antt =====
-- What operations do to the routes and rules of the system, and how many rules a run adds.
use ssh_rocket.Base.{
  ℕ, ◌+◌, ◌-◌, ◌≤◌, ◌≡◌, refl, Bool, true, false, List, [], ◌∷◌, ◌++◌, arith, if◌then◌else◌,
}
use ssh_rocket.System.Calls.{
  dns_priority, fake_priority, mark_priority, nft, rule_add, rule_del, route_replace, route_flush,
  resolver_revert, resolver_dns, resolver_domain, resolver_default_route, Operation, call,
}
use ssh_rocket.System.Nft.{ip, ip6, delete_table, add_table}
use ssh_rocket.System.Tasks.{Task, must, attempt, give_up, execute, commands_of}

-- What of the program is in the system: the table of nft, the number of rules by family and
-- priority, the routes of the table by family, and the settings of the resolver.
pub record Host : Type 0 where
  pub table : Bool
  pub dns_rules : ℕ
  pub fake_rules : ℕ
  pub mark_rules : ℕ
  pub mark6_rules : ℕ
  pub routes : ℕ
  pub routes6 : ℕ
  pub resolver : Bool

abbrev pub bare : Host
bare = record {
  table = false;
  dns_rules = 0;
  fake_rules = 0;
  mark_rules = 0;
  mark6_rules = 0;
  routes = 0;
  routes6 = 0;
  resolver = false;
}

-- At most one rule of each kind.
abbrev pub IsSingle : Host → Type 0
IsSingle h = (h.dns_rules ≤ 1) × (h.fake_rules ≤ 1) × (h.mark_rules ≤ 1) × (h.mark6_rules ≤ 1)

-- The kinds of rules.
pub data Kind : Type 0 where
  dns fake mark mark6 : Kind

abbrev pub rules : Kind → Host → ℕ
rules dns h = h.dns_rules
rules fake h = h.fake_rules
rules mark h = h.mark_rules
rules mark6 h = h.mark6_rules

module _ {N : Type 0} where
  -- The effect of an operation that succeeds, as ip(8), nft(8) and resolvectl(1) document it: a
  -- deletion takes one rule away. Rules and routes of other kinds are not those of the program.
  unfoldable pub affect : Operation N → Host → Host
  affect (call (nft delete_table)) h = record h { table = false }
  affect (call (nft add_table)) h = record h { table = true }
  affect (call (rule_add ip dns_priority)) h = record h { dns_rules = h.dns_rules + 1 }
  affect (call (rule_add ip fake_priority)) h = record h { fake_rules = h.fake_rules + 1 }
  affect (call (rule_add ip mark_priority)) h = record h { mark_rules = h.mark_rules + 1 }
  affect (call (rule_add ip6 mark_priority)) h = record h { mark6_rules = h.mark6_rules + 1 }
  affect (call (rule_del ip dns_priority)) h = record h { dns_rules = h.dns_rules - 1 }
  affect (call (rule_del ip fake_priority)) h = record h { fake_rules = h.fake_rules - 1 }
  affect (call (rule_del ip mark_priority)) h = record h { mark_rules = h.mark_rules - 1 }
  affect (call (rule_del ip6 mark_priority)) h = record h { mark6_rules = h.mark6_rules - 1 }
  affect (call (route_replace ip r)) h = record h { routes = h.routes + 1 }
  affect (call (route_replace ip6 r)) h = record h { routes6 = h.routes6 + 1 }
  affect (call (route_flush ip)) h = record h { routes = 0 }
  affect (call (route_flush ip6)) h = record h { routes6 = 0 }
  affect (call resolver_revert) h = record h { resolver = false }
  affect (call resolver_dns) h = record h { resolver = true }
  affect (call resolver_domain) h = record h { resolver = true }
  affect (call resolver_default_route) h = record h { resolver = true }
  affect o h = h

  -- What has been done decides whether an operation takes effect.
  unfoldable pub affect_all :
      (List (Operation N) → Bool) → List (Operation N) → List (Operation N) → Host → Host
  affect_all ok done [] h = h
  affect_all ok done (o ∷ os) h =
      affect_all ok (done ++ o ∷ []) os (if ok (done ++ o ∷ []) then affect o h else h)

  -- Every operation takes effect.
  abbrev pub affect_each : List (Operation N) → Host → Host
  affect_each [] h = h
  affect_each (o ∷ os) h = affect_each os (affect o h)

  pub affect_each-append :
      (os us : List (Operation N)) (h : Host)
      → affect_each (os ++ us) h ≡ affect_each us (affect_each os h)
  affect_each-append [] us h = refl
  affect_each-append (o ∷ os) us h = affect_each-append os us (affect o h)

  -- Whether an operation adds a rule of a kind.
  abbrev pub added : Kind → Operation N → ℕ
  added dns (call (rule_add ip dns_priority)) = 1
  added fake (call (rule_add ip fake_priority)) = 1
  added mark (call (rule_add ip mark_priority)) = 1
  added mark6 (call (rule_add ip6 mark_priority)) = 1
  added _ _ = 0

  abbrev pub count : Kind → List (Operation N) → ℕ
  count k [] = 0
  count k (o ∷ os) = added k o + count k os

  affect-rules :
      (k : Kind) (o : Operation N) (h : Host) → rules k (affect o h) ≤ rules k h + added k o
  unfolding affect
  affect-rules k o h = ground arith

  pub count-append :
      (k : Kind) (os us : List (Operation N)) → count k (os ++ us) ≡ count k os + count k us
  count-append k [] us = omega arith
  count-append k (o ∷ os) us = ground (arith, count-append k os us)

  affect_if-rules :
      (b : Bool) (k : Kind) (o : Operation N) (h : Host)
      → rules k (if b then affect o h else h) ≤ rules k h + added k o
  affect_if-rules true k o h = affect-rules k o h
  affect_if-rules false k o h = omega arith

  pub affect_all-rules :
      (ok : List (Operation N) → Bool) (k : Kind) (done os : List (Operation N)) (h : Host)
      → rules k (affect_all ok done os h) ≤ rules k h + count k os
  unfolding affect_all
  affect_all-rules ok k done [] h = omega arith
  affect_all-rules ok k done (o ∷ os) h = ground (
    arith,
    affect_if-rules (ok (done ++ o ∷ [])) k o h,
    affect_all-rules ok k (done ++ o ∷ []) os (if ok (done ++ o ∷ []) then affect o h else h),
  )

  -- A run does at most what its tasks say.
  pub count-execute :
      (ok : List (Operation N) → Bool) (k : Kind) (done : List (Operation N))
      (ts : List (Task (Operation N)))
      → count k (execute ok done ts).0 ≤ count k done + count k (commands_of ts)
  unfolding execute
  count-execute ok k done [] = omega arith
  count-execute ok k done (give_up ∷ ts) = omega arith
  count-execute ok k done (attempt c ∷ ts) =
      ground (arith, count-execute ok k (done ++ c ∷ []) ts, count-append k done (c ∷ []))
  count-execute ok k done (must c ∷ ts) =
      ground (arith, count-execute ok k (done ++ c ∷ []) ts, count-append k done (c ∷ []))
