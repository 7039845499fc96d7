-- ===== src/Policy/Rules/Decisions.antt =====
-- Which decisions the rules of packages/policy-engine/src/rules.ts can come to.
use dsh_backend_team.Base.{
  ◌≡◌, refl, Bool, true, false, Option, none, some, List, [], ◌∷◌, All, is_some,
}
use dsh_backend_team.Policy.Actions.{
  PolicyAction, PolicyContext, Effect, PolicyDecision, Host, RuleId,
}
use dsh_backend_team.Policy.Rules.{
  when, first_decision, rules, evaluate_rules, denied, deny_production_database,
  deny_non_loopback_service, deny_system_or_global_install, deny_destructive_git,
  deny_unowned_delete, require_install_approval, require_migration_approval,
  require_shared_config_approval, allow_known_read,
}

-- What holds of a decision, if there is one
abbrev pub Given : (PolicyDecision → Type 0) → Option PolicyDecision → Type 0
Given P none = Unit
Given P (some decision) = P decision

pub when-Given :
    (P : PolicyDecision → Type 0) (b : Bool) (d : PolicyDecision) → P d → Given P (when b d)
when-Given P true d h = h
when-Given P false d h = tt

pub first_decision-Given :
    (P : PolicyDecision → Type 0) (decisions : List (Option PolicyDecision))
    → P (denied RuleId.deny_unknown)
    → All (Given P) decisions
    → P (first_decision decisions)
first_decision-Given P [] h k = h
first_decision-Given P (none ∷ rest) h k = first_decision-Given P rest h k.1
first_decision-Given P (some decision ∷ rest) h k = k.0

abbrev pub is_read : PolicyAction → Bool
is_read (PolicyAction.read target) = true
is_read _ = false

abbrev pub is_allow : Effect → Bool
is_allow Effect.allow = true
is_allow Effect.ask = false
is_allow Effect.deny = false

abbrev pub is_ask : Effect → Bool
is_ask Effect.ask = true
is_ask Effect.allow = false
is_ask Effect.deny = false

-- The decision that the action allows: to read is allowed, all else is asked for or denied, and
-- there is an approval to ask for exactly when the decision asks.
abbrev Follows : PolicyAction → PolicyDecision → Type 0
Follows action decision =
    (is_allow decision.effect ≡ is_read action)
    × (is_some decision.approval_kind ≡ is_ask decision.effect)

module _ (host : Host) (context : PolicyContext) where
  -- Exactly the reads are allowed, at any target and in any context, and every other action is
  -- asked for or denied. A decision names an approval exactly when it asks.
  pub evaluate_rules-allow :
      (action : PolicyAction)
      → (is_allow (evaluate_rules host action context).effect ≡ is_read action)
        × (is_some (evaluate_rules host action context).approval_kind
            ≡ is_ask (evaluate_rules host action context).effect)
  unfolding evaluate_rules deny_production_database deny_non_loopback_service
      deny_system_or_global_install deny_destructive_git deny_unowned_delete
      require_install_approval require_migration_approval require_shared_config_approval
      allow_known_read
  evaluate_rules-allow (PolicyAction.read target) = (refl, refl)
  evaluate_rules-allow (PolicyAction.write target) =
      let P = Follows (PolicyAction.write target) in
      first_decision-Given P (rules host (PolicyAction.write target) context) (refl, refl)
        (
          tt,
          (
            tt,
            (
              tt,
              (
                tt,
                (
                  tt,
                  (
                    when-Given P _ _ (refl, refl),
                    (when-Given P _ _ (refl, refl), (when-Given P _ _ (refl, refl), (tt, tt))),
                  ),
                ),
              ),
            ),
          ),
        )
  evaluate_rules-allow (PolicyAction.delete target) = (refl, refl)
  evaluate_rules-allow (PolicyAction.install packages) =
      let P = Follows (PolicyAction.install packages) in
      first_decision-Given P (rules host (PolicyAction.install packages) context) (refl, refl)
        (
          tt,
          (tt, (when-Given P _ _ (refl, refl), (tt, (tt, ((refl, refl), (tt, (tt, (tt, tt)))))))),
        )
  evaluate_rules-allow (PolicyAction.migration target) =
      let P = Follows (PolicyAction.migration target) in
      first_decision-Given P (rules host (PolicyAction.migration target) context) (refl, refl)
        (
          tt,
          (
            tt,
            (
              tt,
              (
                tt,
                (
                  tt,
                  (
                    when-Given P _ _ (refl, refl),
                    ((refl, refl), (when-Given P _ _ (refl, refl), (tt, tt))),
                  ),
                ),
              ),
            ),
          ),
        )
  evaluate_rules-allow (PolicyAction.shared_config target) =
      let P = Follows (PolicyAction.shared_config target) in
      first_decision-Given P (rules host (PolicyAction.shared_config target) context) (refl, refl)
        (
          tt,
          (
            tt,
            (
              tt,
              (
                tt,
                (
                  tt,
                  (
                    when-Given P _ _ (refl, refl),
                    (when-Given P _ _ (refl, refl), ((refl, refl), (tt, tt))),
                  ),
                ),
              ),
            ),
          ),
        )
  evaluate_rules-allow (PolicyAction.database url) =
      let P = Follows (PolicyAction.database url) in
      first_decision-Given P (rules host (PolicyAction.database url) context) (refl, refl)
        (when-Given P _ _ (refl, refl), (tt, (tt, (tt, (tt, (tt, (tt, (tt, (tt, tt)))))))))
  evaluate_rules-allow (PolicyAction.command c) =
      let P = Follows (PolicyAction.command c) in
      first_decision-Given P (rules host (PolicyAction.command c) context) (refl, refl)
        (
          when-Given P _ _ (refl, refl),
          (
            when-Given P _ _ (refl, refl),
            (
              when-Given P _ _ (refl, refl),
              (
                when-Given P _ _ (refl, refl),
                (
                  when-Given P _ _ (refl, refl),
                  (
                    when-Given P _ _ (refl, refl),
                    (when-Given P _ _ (refl, refl), (when-Given P _ _ (refl, refl), (tt, tt))),
                  ),
                ),
              ),
            ),
          ),
        )
