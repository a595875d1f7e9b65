-- ===== src/Enforcement/Tier.antt =====
-- enforcement/tier.rs and enforcement/capability.rs: tiers, their derived order, and the token that
-- stands for an evaluated action.
use cherub.Base.{ℕ, ◌≡◌, Bool, arith, if◌then◌else◌, ltb, leb}
use cherub.Base.Bytes.{Str, lit}

pub data Tier : Type 0 where
  observe act commit : Tier

-- The position of a variant, by which `Ord` is derived.
abbrev pub rank : Tier → ℕ
rank observe = 0
rank act = 1
rank commit = 2

-- `a <= b`, `a.max(b)`: `Ord::max` returns its second argument where the two are equal.
abbrev pub tier_le : Tier → Tier → Bool
tier_le a b = leb (rank a) (rank b)

abbrev pub tier_max : Tier → Tier → Tier
tier_max a b = if ltb (rank b) (rank a) then a else b

unfoldable pub as_str : Tier → Str
as_str observe = lit "observe"
as_str act = lit "act"
as_str commit = lit "commit"

pub rank-injective : (a b : Tier) → rank a ≡ rank b → a ≡ b
rank-injective a b h = ground arith

pub tier_max_comm : (a b : Tier) → tier_max a b ≡ tier_max b a
tier_max_comm a b = ground arith

pub tier_max_assoc : (a b c : Tier) → tier_max (tier_max a b) c ≡ tier_max a (tier_max b c)
tier_max_assoc a b c = ground arith

-- `CapabilityToken`: its constructor is private to the enforcement layer.
pub record CapabilityToken : Type 0 where
  pub tier : Tier
