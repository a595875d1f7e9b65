-- ===== src/Enforcement/Decision/Laws.antt =====
-- enforcement/mod.rs: the abstract view of `combine_decisions`, as a join of decisions that are
-- ordered by how restrictive they are.
use mathlib.Core.Logic.Or
use mathlib.Core.List.{Perm, Mem, Mem-prop, mem-cons, not-mem-nil, mem-append}
use mathlib.Core.Path.{subst}
use native.Mathlib.Nat.{le_of_eq}
use mathlib.Core.List.Perm
use native.Mathlib.Bridge.{le_prop}
use cherub.Base.{
  ℕ, ◌+◌, ◌≤◌, ◌≡◌, ◌≢◌, refl, Option, none, some, List, [], ◌∷◌, ◌++◌, All, arith, ap, sym,
  if◌then◌else◌, ltb, inl, inr, Bool-cases, ◌⊎◌,
}
use cherub.Enforcement.Tier.{Tier, rank, CapabilityToken}
use cherub.Enforcement.Decision.{
  Decision, allow, reject, escalate, conclude, raise, combine_from, combine_decisions,
}

-- How restrictive a decision is: allowed tiers, then escalated tiers, then rejection.
abbrev pub severity : Decision → ℕ
severity (allow token) = rank token.tier
severity (escalate tier) = 3 + rank tier
severity reject = 6

-- The more restrictive of two decisions.
abbrev pub join : Decision → Decision → Decision
join d e = if ltb (severity d) (severity e) then e else d

pub severity-injective : (d e : Decision) → severity d ≡ severity e → d ≡ e
severity-injective d e h = ground arith

join_assoc : (d e f : Decision) → join (join d e) f ≡ join d (join e f)
join_assoc d e f = ground arith

join-reject : (d : Decision) → join d reject ≡ reject
join-reject d = ground arith

-- The join of a list with a decision before it.
abbrev join_all : Decision → List Decision → Decision
join_all d [] = d
join_all d (e ∷ rest) = join_all (join d e) rest

reject_join_all : (ds : List Decision) → join_all reject ds ≡ reject
reject_join_all [] = refl
reject_join_all (d ∷ ds) = ground (arith, reject_join_all ds)

-- The loop at a state that has seen something.
combine_from-eq-join_all :
    (a e : Option Tier) (ds : List Decision)
    → (a ≢ none) ⊎ (e ≢ none)
    → combine_from a e ds ≡ join_all (conclude a e) ds
unfolding combine_from
combine_from-eq-join_all a e [] h = refl
combine_from-eq-join_all a e (reject ∷ ds) h =
    rw (join-reject (conclude a e)) (sym (reject_join_all ds))
combine_from-eq-join_all a e (escalate t ∷ ds) h =
    ground (arith, combine_from-eq-join_all a (raise e t) ds)
combine_from-eq-join_all a e (allow t ∷ ds) h =
    ground (arith, combine_from-eq-join_all (raise a t.tier) e ds)

combine_decisions-cons :
    (d : Decision) (ds : List Decision) → combine_decisions (d ∷ ds) ≡ join_all d ds
unfolding combine_decisions
combine_decisions-cons reject ds = sym (reject_join_all ds)
combine_decisions-cons (escalate t) ds = combine_from-eq-join_all none (some t) ds (inr (λ e. cc))
combine_decisions-cons (allow t) ds = combine_from-eq-join_all (some t.tier) none ds (inl (λ e. cc))

combine_decisions-nil : combine_decisions [] ≡ reject
unfolding combine_decisions
combine_decisions-nil = refl

join_all-mem : (d : Decision) (ds : List Decision) → Mem (join_all d ds) (d ∷ ds)
join_all-mem d [] = mem-cons.1 (Or.inl refl)
join_all-mem d (e ∷ ds) =
    Or.elim Mem-prop (mem-cons.0 (join_all-mem (join d e) ds))
      (λ same. elim (Bool-cases (ltb (severity d) (severity e))) [
        | inl lt ↦
            mem-cons.1 (Or.inr (mem-cons.1 (Or.inl (cc (same, ap (λ b. if b then e else d) lt)))))
        | inr ge ↦ mem-cons.1 (Or.inl (cc (same, ap (λ b. if b then e else d) ge)))
      ])
      (λ later. mem-cons.1 (Or.inr (mem-cons.1 (Or.inr later))))

severity-le-join_all : (d : Decision) (ds : List Decision) → severity d ≤ severity (join_all d ds)
severity-le-join_all d [] = omega arith
severity-le-join_all d (e ∷ ds) = ground (arith, severity-le-join_all (join d e) ds)

All-join_all :
    (d : Decision) (ds : List Decision) → All (λ e. severity e ≤ severity (join_all d ds)) ds
All-join_all d [] = tt
All-join_all d (e ∷ ds) =
    (ground (arith, severity-le-join_all (join d e) ds), All-join_all (join d e) ds)

pub All-mem :
    (n : ℕ) (e : Decision) (ds : List Decision)
    → All (λ d. severity d ≤ n) ds
    → Mem e ds
    → severity e ≤ n
All-mem n e [] h m = absurd (not-mem-nil m)
All-mem n e (d ∷ ds) h m =
    Or.elim le_prop (mem-cons.0 m) (λ same. rw same h.0) (λ later. All-mem n e ds h.1 later)

-- The most restrictive decision wins: the combination of a list that is not empty is one of its
-- decisions, and no decision of the list is more restrictive. Of no decisions it is a rejection.
pub combine_decisions-most_restrictive :
    (ds : List Decision)
    → ((ds ≡ []) × (combine_decisions ds ≡ reject))
      ⊎ (Mem (combine_decisions ds) ds × All (λ e. severity e ≤ severity (combine_decisions ds)) ds)
combine_decisions-most_restrictive [] = inl (refl, combine_decisions-nil)
combine_decisions-most_restrictive (d ∷ ds) = inr (
    subst (λ x. Mem x (d ∷ ds) × All (λ e. severity e ≤ severity x) (d ∷ ds))
      (sym (combine_decisions-cons d ds))
      (join_all-mem d ds, (severity-le-join_all d ds, All-join_all d ds)))

-- A decision of the list is no more restrictive than the combination.
pub severity-le-combine_decisions :
    (e : Decision) (ds : List Decision) → Mem e ds → severity e ≤ severity (combine_decisions ds)
severity-le-combine_decisions e ds m = elim (combine_decisions-most_restrictive ds) [
  | inl (none_left, _) ↦ absurd (not-mem-nil (rw none_left at m))
  | inr (_, upper) ↦ All-mem (severity (combine_decisions ds)) e ds upper m
]

combine_decisions-perm_le :
    (xs ys : List Decision)
    → Perm xs ys
    → severity (combine_decisions xs) ≤ severity (combine_decisions ys)
combine_decisions-perm_le xs ys p = elim (combine_decisions-most_restrictive xs) [
  | inl (none_left, _) ↦
      let same : xs ≡ ys = cc (none_left, Perm.nil-eq (rw none_left at p)) in
      le_of_eq (ap (λ l. severity (combine_decisions l)) same)
  | inr (member, _) ↦
      severity-le-combine_decisions (combine_decisions xs) ys ((Perm.mem_iff p).0 member)
]

-- The order of the decisions does not matter: the combination is that of any permutation.
pub combine_decisions-perm :
    (xs ys : List Decision) → Perm xs ys → combine_decisions xs ≡ combine_decisions ys
combine_decisions-perm xs ys p = severity-injective (combine_decisions xs) (combine_decisions ys) (
    omega (arith, combine_decisions-perm_le xs ys p, combine_decisions-perm_le ys xs (Perm.symm p)))

-- Appending decisions to a list that is not empty never makes the combination less restrictive.
pub combine_decisions-append :
    (xs ys : List Decision)
    → xs ≢ []
    → severity (combine_decisions xs) ≤ severity (combine_decisions (xs ++ ys))
combine_decisions-append xs ys h = elim (combine_decisions-most_restrictive xs) [
  | inl (none_left, _) ↦ absurd (h none_left)
  | inr (member, _) ↦
      severity-le-combine_decisions (combine_decisions xs) (xs ++ ys) (mem-append.1 (Or.inl member))
]

-- Only an allowed decision is as lenient as a tier.
pub allow_of_severity :
    (d : Decision) → severity d ≤ 2 → (token : CapabilityToken) × (d ≡ allow token)
allow_of_severity (allow token) h = (token, refl)
allow_of_severity (escalate tier) h = absurd (omega arith)
allow_of_severity reject h = absurd (omega arith)

pub severity_allow : (token : CapabilityToken) → severity (allow token) ≤ 2
severity_allow token = ground arith

severity-le-reject : (d : Decision) → severity d ≤ severity reject
severity-le-reject d = ground arith

pub combine_decisions-mem_reject :
    (ds : List Decision) → Mem reject ds → combine_decisions ds ≡ reject
combine_decisions-mem_reject ds m = severity-injective (combine_decisions ds) reject (
    omega
      (arith, severity-le-combine_decisions reject ds m, severity-le-reject (combine_decisions ds)))

-- A list of allowed decisions that is not empty is allowed.
pub combine_decisions-allow :
    (d : Decision) (ds : List Decision)
    → All (λ e. severity e ≤ 2) (d ∷ ds)
    → (token : CapabilityToken) × (combine_decisions (d ∷ ds) ≡ allow token)
combine_decisions-allow d ds h = elim (combine_decisions-most_restrictive (d ∷ ds)) [
  | inl (impossible, _) ↦ absurd (grind arith)
  | inr (member, _) ↦
      allow_of_severity (combine_decisions (d ∷ ds))
        (All-mem 2 (combine_decisions (d ∷ ds)) (d ∷ ds) h member)
]
