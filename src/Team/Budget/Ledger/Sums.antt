-- ===== src/Team/Budget/Ledger/Sums.antt =====
-- No call takes a parent beyond its ceiling and leaves it ready (packages/agent-team/src/budget-ledger.ts).
use dsh_backend_team.Base.{
  ◌+◌, ◌-◌, ◌≤◌, ◌≡◌, refl, ap, Bool, true, false, some, is_some, List, [], ◌∷◌, Text, ◌==◌, lookup,
  set, delete, set_at, delete_at, if_match, arith,
}
use mathlib.Core.Option.{some-injective}
use dsh_backend_team.Team.Budget.{
  AgentBudget, ConsumedBudget, Dimension, zero_usage, add, used, limit_for, exceeded_dimensions,
  remaining_of, within, usage_allowed,
}
use dsh_backend_team.Team.Budget.Ledger.{ReservationState, sum_held}

pub used-add : (d : Dimension) (u v : ConsumedBudget) → used d (add u v) ≡ used d u + used d v
unfolding used add
used-add Dimension.tokens u v = refl
used-add Dimension.wall_ms u v = refl
used-add Dimension.tool_calls u v = refl
used-add Dimension.retries u v = refl
used-add Dimension.children u v = refl

pub used-zero : (d : Dimension) → used d zero_usage ≡ 0
unfolding used
used-zero Dimension.tokens = refl
used-zero Dimension.wall_ms = refl
used-zero Dimension.tool_calls = refl
used-zero Dimension.retries = refl
used-zero Dimension.children = refl

pub limit_for-remaining_of :
    (d : Dimension) (b : AgentBudget) (u : ConsumedBudget)
    → limit_for d (remaining_of b u) ≡ limit_for d b - used d u
unfolding used limit_for remaining_of
limit_for-remaining_of Dimension.tokens b u = refl
limit_for-remaining_of Dimension.wall_ms b u = refl
limit_for-remaining_of Dimension.tool_calls b u = refl
limit_for-remaining_of Dimension.retries b u = refl
limit_for-remaining_of Dimension.children b u = refl

pub within_lem :
    (d : Dimension) (u : ConsumedBudget) (b : AgentBudget)
    → within u b ≡ true
    → used d u ≤ limit_for d b
unfolding within used limit_for
within_lem Dimension.tokens u b h = ground arith
within_lem Dimension.wall_ms u b h = ground arith
within_lem Dimension.tool_calls u b h = ground arith
within_lem Dimension.retries u b h = ground arith
within_lem Dimension.children u b h = ground arith

pub exceeded_dimensions_lem :
    (d : Dimension) (u : ConsumedBudget) (b : AgentBudget)
    → exceeded_dimensions u b ≡ []
    → used d u ≤ limit_for d b
unfolding exceeded_dimensions used limit_for
exceeded_dimensions_lem Dimension.tokens u b h = ground arith
exceeded_dimensions_lem Dimension.wall_ms u b h = ground arith
exceeded_dimensions_lem Dimension.tool_calls u b h = ground arith
exceeded_dimensions_lem Dimension.retries u b h = ground arith
exceeded_dimensions_lem Dimension.children u b h = ground arith

pub usage_allowed_lem :
    (d : Dimension) (u h : ConsumedBudget) (b : AgentBudget)
    → usage_allowed u h b ≡ true
    → used d (record u { children = h.children }) ≤ used d h
unfolding usage_allowed used
usage_allowed_lem Dimension.tokens u h b e = ground arith
usage_allowed_lem Dimension.wall_ms u h b e = ground arith
usage_allowed_lem Dimension.tool_calls u h b e = ground arith
usage_allowed_lem Dimension.retries u h b e = ground arith
usage_allowed_lem Dimension.children u h b e = omega arith

module _ (d : Dimension) where
  pub used-sum_held :
      (acc : ConsumedBudget) (rs : List (Text × ReservationState))
      → used d (sum_held acc rs) ≡ used d acc + used d (sum_held zero_usage rs)
  unfolding sum_held
  used-sum_held acc [] = omega (arith, used-zero d)
  used-sum_held acc ((k, r) ∷ rs) = omega (
    arith,
    used-sum_held (add acc r.held) rs,
    used-sum_held (add zero_usage r.held) rs,
    used-add d acc r.held,
    used-add d zero_usage r.held,
    used-zero d,
  )

  pub used-sum_held-cons :
      (k : Text) (r : ReservationState) (rs : List (Text × ReservationState))
      → used d (sum_held zero_usage ((k, r) ∷ rs)) ≡ used d r.held + used d (sum_held zero_usage rs)
  unfolding sum_held
  used-sum_held-cons k r rs =
      omega
        (arith, used-sum_held (add zero_usage r.held) rs, used-add d zero_usage r.held, used-zero d)

  pub used-sum_held-set :
      (k : Text) (r : ReservationState) (rs : List (Text × ReservationState))
      → is_some (lookup k rs) ≡ false
      → used d (sum_held zero_usage (set k r rs)) ≡ used d (sum_held zero_usage rs) + used d r.held
  unfolding set lookup
  used-sum_held-set k r [] h = omega (arith, used-sum_held-cons k r [])
  used-sum_held-set k r ((j, s) ∷ rs) h = go (j == k) h (used-sum_held-set k r rs)
    where
      go :
          (b : Bool)
          → is_some (if_match b s (lookup k rs)) ≡ false
          → (is_some (lookup k rs) ≡ false
              → used d (sum_held zero_usage (set k r rs))
                ≡ used d (sum_held zero_usage rs) + used d r.held)
          → used d (sum_held zero_usage (set_at b k r (j, s) rs (set k r rs)))
            ≡ used d (sum_held zero_usage ((j, s) ∷ rs)) + used d r.held
      go true e ih = absurd (ground arith)
      go false e ih =
          omega (arith, ih e, used-sum_held-cons j s (set k r rs), used-sum_held-cons j s rs)

  pub used-sum_held-delete :
      (k : Text) (r : ReservationState) (rs : List (Text × ReservationState))
      → lookup k rs ≡ some r
      → used d (sum_held zero_usage rs) ≡ used d (sum_held zero_usage (delete k rs)) + used d r.held
  unfolding delete lookup
  used-sum_held-delete k r [] h = absurd (ground arith)
  used-sum_held-delete k r ((j, s) ∷ rs) h = go (j == k) h (used-sum_held-delete k r rs)
    where
      go :
          (b : Bool)
          → if_match b s (lookup k rs) ≡ some r
          → (lookup k rs ≡ some r
              → used d (sum_held zero_usage rs)
                ≡ used d (sum_held zero_usage (delete k rs)) + used d r.held)
          → used d (sum_held zero_usage ((j, s) ∷ rs))
            ≡ used d (sum_held zero_usage (delete_at b (j, s) rs (delete k rs))) + used d r.held
      go true e ih =
          omega (arith, used-sum_held-cons j s rs, ap (λ x. used d x.held) (some-injective s r e))
      go false e ih =
          omega (arith, ih e, used-sum_held-cons j s (delete k rs), used-sum_held-cons j s rs)
