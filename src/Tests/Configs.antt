-- ===== src/Tests/Configs.antt =====
-- Configurations of providers.
use cherub.Base.{ℕ, ◌≡◌, ◌≢◌, refl, none, some, List, [], ◌∷◌, All}
use cherub.Base.Bytes.{Str, lit}
use cherub.Base.Result.{ok, err}
use cherub.Providers.{config}
use cherub.Providers.Config.{
  anthropic, openai, failover, ProviderDef, ProvidersConfig, failed, out_of_fuel, contains_key,
  walk_fuel, validate,
}
use cherub.Providers.Config.Fuel.{validate-Ends}
use cherub.Providers.Config.Instances.{Machine, instantiate_provider, instantiate_named_provider}
use cherub.Providers.Config.Instances.Resolution.{IsBuildable, IsBuilt, validate-IsBuilt}

abbrev toy_machine : Machine
toy_machine = record { Client = ℕ; var = λ name. some (lit "key"); build = ok 1 }

abbrev claude : ProviderDef
claude = record {
  provider_type = anthropic;
  model = lit "c";
  api_key_env = none;
  base_url = none;
  max_tokens = 4096;
  providers = none;
}

abbrev gpt : ProviderDef
gpt = record claude { provider_type = openai }

abbrev chain : List Str → ProviderDef
chain names = record claude { provider_type = failover; providers = some names }

-- One provider falls back on another.
abbrev fallback : ProvidersConfig
fallback = record {
  providers =
      (lit "default", chain (lit "a" ∷ lit "b" ∷ [])) ∷ (lit "a", claude) ∷ (lit "b", gpt) ∷ [];
  agents =
      (
        lit "helper",
        record {
          description = lit "d";
          provider = lit "b";
          system_prompt = lit "p";
          max_turns = 1;
          timeout_secs = 120;
          tools = [];
        },
      )
      ∷ [];
}

-- Two providers fall back on each other.
abbrev circle : ProvidersConfig
circle = record {
  providers = (lit "x", chain (lit "y" ∷ [])) ∷ (lit "y", chain (lit "x" ∷ [])) ∷ [];
  agents = [];
}

fallback_valid : validate fallback ≡ ok tt
unfolding validate cherub.Providers.Config.check_children cherub.Providers.Config.check_child
fallback_valid = refl

circle_refused :
    validate circle ≡ err (failed (config (lit "provider cycle detected: x -> y -> x")))
unfolding validate cherub.Providers.Config.check_children cherub.Providers.Config.check_child
circle_refused = refl

fallback-IsBuildable : All (IsBuildable toy_machine) fallback.providers
unfolding instantiate_provider
fallback-IsBuildable = (tt, ((_, refl), ((_, refl), tt)))

validate-IsBuilt_example :
    IsBuilt toy_machine (
      instantiate_named_provider toy_machine
        (walk_fuel fallback)
        fallback.providers
        []
        (lit "default"))
    × All
        (λ entry. IsBuilt toy_machine (
          instantiate_named_provider toy_machine
            (walk_fuel fallback)
            fallback.providers
            []
            entry.1.provider))
        fallback.agents
validate-IsBuilt_example =
    validate-IsBuilt toy_machine fallback (lit "default") fallback_valid fallback-IsBuildable refl

validate-Ends_example : validate circle ≢ err out_of_fuel
validate-Ends_example = validate-Ends circle
