-- ===== src/Providers/Config/Instances/Resolution.antt =====
-- providers/config.rs: what is validated can be built.
use cherub.Base.{
  ℕ, zero, suc, ◌≡◌, refl, sym, ap, ◌∙◌, inl, inr, true, Bool-cases, Option, none, some,
  Option-cases, List, [], ◌∷◌, ◌++◌, any, All,
}
use cherub.Base.Bytes.{Str, str_eq, str_eq→eq}
use cherub.Base.Result.{Result, ok, >>=-eq-ok}
use cherub.Providers.Config.{
  ProviderType, anthropic, openai, failover, ProviderDef, SubAgentDef, ProvidersConfig, Failure,
  lookup, contains_key, for_all, check_child, check_children, check_provider, detect_children,
  detect_cycle, check_agent, walk_fuel, validate,
}
use cherub.Providers.Config.Instances.{
  Machine, Instance, Instances, nil, cons, failover_provider, instantiate_provider, instantiate_all,
  new_failover, instantiate_below, instantiate_found, instantiate_named_provider,
}

for_all-eq_ok {ℓ} :
    {A : Type ℓ} (f : A → Result Failure Unit) (x : A) (xs : List A) (u : Unit)
    → for_all f (x ∷ xs) ≡ ok u
    → (f x ≡ ok tt) × (for_all f xs ≡ ok tt)
for_all-eq_ok f x xs u h =
    let (v, first, rest) = >>=-eq-ok (f x) (λ w. for_all f xs) h in (first, rest)

-- What is found has been checked.
lookup-check :
    (providers entries : List (Str × ProviderDef)) (name : Str) (def : ProviderDef)
    → for_all (check_provider providers) entries ≡ ok tt
    → lookup entries name ≡ some def
    → (key : Str) × (check_children providers key def.provider_type def.providers ≡ ok tt)
unfolding check_provider
lookup-check providers [] name def h found = cc
lookup-check providers ((key, other) ∷ entries) name def h found =
    let (first, rest) = for_all-eq_ok (check_provider providers) (key, other) entries tt h in
    elim (Bool-cases (str_eq key name)) [
      | inl same ↦
          let e : some other ≡ some def = rw same at found in
          let now : other ≡ def = cc in
          (
            key,
            sym (ap (λ d. check_children providers key d.provider_type d.providers) now) ∙ first,
          )
      | inr differs ↦ lookup-check providers entries name def rest (rw differs at found)
    ]

-- That a provider other than a failover one can be built.
module _ (machine : Machine) where
  open machine use {Client}

  abbrev pub IsBuilt : Result Failure (Instance Client) → Type 0
  IsBuilt r = (built : Instance Client) × (r ≡ ok built)

  abbrev pub IsBuildableAs : ProviderType → ProviderDef → Type 0
  IsBuildableAs failover def = Unit
  IsBuildableAs other def = IsBuilt (instantiate_provider machine def)

  abbrev pub IsBuildable : Str × ProviderDef → Type 0
  IsBuildable (name, def) = IsBuildableAs def.provider_type def

module _ (machine : Machine) (providers : List (Str × ProviderDef)) where
  open machine use {Client}

  lookup-IsBuildable :
      (entries : List (Str × ProviderDef)) (name : Str) (def : ProviderDef)
      → All (IsBuildable machine) entries
      → lookup entries name ≡ some def
      → IsBuildableAs machine def.provider_type def
  lookup-IsBuildable [] name def h found = cc
  lookup-IsBuildable ((key, other) ∷ entries) name def h found =
      elim (Bool-cases (str_eq key name)) [
        | inl same ↦
            let e : some other ≡ some def = rw same at found in
            let now : other ≡ def = cc in rw⁻¹ now h.0
        | inr differs ↦ lookup-IsBuildable entries name def h.1 (rw differs at found)
      ]

  module _ (detect : Str → Result Failure Unit) (build_one : Str → Result Failure (Instance Client))
      (step : (name : Str)
        → detect name ≡ ok tt
        → contains_key providers name ≡ true
        → IsBuilt machine (build_one name)) where
    -- A first child that is known, and below which there is no cycle, is built.
    first-IsBuilt :
        (key name : Str) (names : List Str)
        → for_all (check_child providers key) (name ∷ names) ≡ ok tt
        → for_all detect (name ∷ names) ≡ ok tt
        → IsBuilt machine (build_one name)
    unfolding check_child
    first-IsBuilt key name names known acyclic =
        let (fit, others) = for_all-eq_ok (check_child providers key) name names tt known in
        let (safe, rest) = for_all-eq_ok detect name names tt acyclic in
        elim (Bool-cases (contains_key providers name)) [
          | inl there ↦ step name safe there
          | inr missing ↦ let refused = rw missing at fit in cc
        ]

    instantiate_all-eq_ok :
        (key : Str) (names : List Str)
        → for_all (check_child providers key) names ≡ ok tt
        → for_all detect names ≡ ok tt
        → (children : Instances Client) × (instantiate_all machine build_one names ≡ ok children)
    instantiate_all-eq_ok key [] known acyclic = (nil, refl)
    instantiate_all-eq_ok key (name ∷ names) known acyclic =
        let (child, first) = first-IsBuilt key name names known acyclic in
        let (children, rest) =
          instantiate_all-eq_ok key names
            (for_all-eq_ok (check_child providers key) name names tt known).1
            (for_all-eq_ok detect name names tt acyclic).1 in
        (cons name child children, rw (first, rest) refl)

    instantiate_below-IsBuilt :
        (key name : Str) (kind : ProviderType) (children : Option (List Str)) (def : ProviderDef)
        → check_children providers key kind children ≡ ok tt
        → IsBuildableAs machine kind def
        → detect_children detect children ≡ ok tt
        → IsBuilt machine (instantiate_below machine build_one name kind children def)
    unfolding check_children new_failover instantiate_below
    instantiate_below-IsBuilt key name failover none def fit leaf acyclic = cc
    instantiate_below-IsBuilt key name failover (some []) def fit leaf acyclic = cc
    instantiate_below-IsBuilt key name failover (some (child ∷ children)) def fit leaf acyclic =
        let (head, first) = first-IsBuilt key child children fit acyclic in
        let (tail, rest) =
          instantiate_all-eq_ok key children
            (for_all-eq_ok (check_child providers key) child children tt fit).1
            (for_all-eq_ok detect child children tt acyclic).1 in
        (failover_provider (cons child head tail), rw (first, rest) refl)
    instantiate_below-IsBuilt key name anthropic children def fit leaf acyclic = leaf
    instantiate_below-IsBuilt key name openai children def fit leaf acyclic = leaf

  -- Where no cycle is detected, the provider is built, on the same fuel.
  detect_cycle-IsBuilt :
      for_all (check_provider providers) providers ≡ ok tt
      → All (IsBuildable machine) providers
      → (fuel : ℕ) (ancestry : List Str) (name : Str)
      → detect_cycle fuel providers ancestry name ≡ ok tt
      → contains_key providers name ≡ true
      → IsBuilt machine (instantiate_named_provider machine fuel providers ancestry name)
  unfolding detect_cycle instantiate_named_provider instantiate_found
  detect_cycle-IsBuilt fit leaves zero ancestry name acyclic there = cc
  detect_cycle-IsBuilt fit leaves (suc fuel) ancestry name acyclic there =
      elim (Bool-cases (any (λ a. str_eq a name) ancestry)) [
        | inl again ↦ let refused = rw again at acyclic in cc
        | inr fresh ↦ elim (Option-cases (lookup providers name)) [
          | inl missing ↦ let absent = rw missing at there in cc
          | inr (def, found) ↦
              let (key, checked) = lookup-check providers providers name def fit found in
              let below = rw (fresh, found) at acyclic in
              rw (fresh, found)
                (instantiate_below-IsBuilt (detect_cycle fuel providers (ancestry ++ name ∷ []))
                  (instantiate_named_provider machine fuel providers (ancestry ++ name ∷ []))
                  (detect_cycle-IsBuilt fit leaves fuel (ancestry ++ name ∷ [])) key name
                  def.provider_type def.providers def checked
                  (lookup-IsBuildable providers name def leaves found) below)
        ]
      ]

for_all-lookup :
    (f : Str → Result Failure Unit) (entries : List (Str × ProviderDef)) (name : Str)
    → for_all (λ entry. f entry.0) entries ≡ ok tt
    → contains_key entries name ≡ true
    → f name ≡ ok tt
for_all-lookup f [] name h there = cc
for_all-lookup f ((key, def) ∷ entries) name h there =
    let (first, rest) = for_all-eq_ok (λ entry. f entry.0) (key, def) entries tt h in
    elim (Bool-cases (str_eq key name)) [
      | inl same ↦ rw⁻¹ (str_eq→eq key name same) first
      | inr differs ↦ for_all-lookup f entries name rest (rw differs at there)
    ]

agents_known :
    (P : Str → Type 0) (providers : List (Str × ProviderDef)) (agents : List (Str × SubAgentDef))
    → ((name : Str) → contains_key providers name ≡ true → P name)
    → for_all (check_agent providers) agents ≡ ok tt
    → All (λ entry. P entry.1.provider) agents
agents_known P providers [] f h = tt
agents_known P providers ((name, agent) ∷ agents) f h =
    let (first, rest) = for_all-eq_ok (check_agent providers) (name, agent) agents tt h in
    (
      elim (Bool-cases (contains_key providers agent.provider)) [
        | inl there ↦ f agent.provider there
        | inr missing ↦ let refused = rw missing at first in cc
      ],
      agents_known P providers agents f rest,
    )

-- If a configuration is validated and each of its providers that is not a failover one can be built
-- by itself: every provider that it names is built, without a cycle, an unknown name, a panic or
-- want of fuel, and so is the provider of every sub-agent.
pub validate-IsBuilt :
    (machine : Machine) (c : ProvidersConfig) (name : Str)
    → validate c ≡ ok tt
    → All (IsBuildable machine) c.providers
    → contains_key c.providers name ≡ true
    → IsBuilt machine (instantiate_named_provider machine (walk_fuel c) c.providers [] name)
      × All
          (λ entry.
            IsBuilt machine
              (instantiate_named_provider machine (walk_fuel c) c.providers [] entry.1.provider))
          c.agents
unfolding validate
validate-IsBuilt machine c name valid leaves there =
    let (u, both, agents) = >>=-eq-ok _ (λ v. for_all (check_agent c.providers) c.agents) valid in
    let (v, fit, acyclic) = >>=-eq-ok (for_all (check_provider c.providers) c.providers) _ both in
    let built : (known : Str)
        → contains_key c.providers known ≡ true
        → IsBuilt machine (instantiate_named_provider machine (walk_fuel c) c.providers [] known) =
      λ known listed.
        detect_cycle-IsBuilt machine c.providers fit leaves (walk_fuel c) [] known
          (for_all-lookup (detect_cycle (walk_fuel c) c.providers []) c.providers known acyclic
            listed)
          listed in
    (
      built name there,
      agents_known
          (λ known.
            IsBuilt machine (instantiate_named_provider machine (walk_fuel c) c.providers [] known))
          c.providers c.agents built agents,
    )
