-- ===== src/Enforcement/Decision.antt =====
-- enforcement/mod.rs: decisions, and how those of several actions combine.
pub mod Laws
use cherub.Base.{Option, none, some, List, [], ◌∷◌}
use cherub.Enforcement.Tier.{Tier, tier_max, CapabilityToken}

pub data Decision : Type 0 where
  allow : CapabilityToken → Decision
  reject : Decision
  escalate : Tier → Decision

-- `approve_escalation`: the token for an escalation that a human has approved.
unfoldable pub approve_escalation : Tier → CapabilityToken
approve_escalation tier = record { tier = tier }

-- `Some(match highest { Some(existing) => existing.max(tier), None => tier })`.
abbrev pub raise : Option Tier → Tier → Option Tier
raise none tier = some tier
raise (some existing) tier = some (tier_max existing tier)

-- What follows the loop of `combine_decisions`.
abbrev pub conclude : Option Tier → Option Tier → Decision
conclude highest_allow_tier (some tier) = escalate tier
conclude (some tier) none = allow (record { tier = tier })
conclude none none = reject

-- The loop of `combine_decisions`, with its two variables.
unfoldable pub combine_from : Option Tier → Option Tier → List Decision → Decision
combine_from highest_allow_tier highest_escalate_tier [] =
    conclude highest_allow_tier highest_escalate_tier
combine_from highest_allow_tier highest_escalate_tier (reject ∷ decisions) = reject
combine_from highest_allow_tier highest_escalate_tier (escalate tier ∷ decisions) =
    combine_from highest_allow_tier (raise highest_escalate_tier tier) decisions
combine_from highest_allow_tier highest_escalate_tier (allow token ∷ decisions) =
    combine_from (raise highest_allow_tier token.tier) highest_escalate_tier decisions

unfoldable pub combine_decisions : List Decision → Decision
unfolding combine_from
combine_decisions decisions = combine_from none none decisions
