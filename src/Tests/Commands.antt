-- ===== src/Tests/Commands.antt =====
-- Shell commands and the texts of actions.
use cherub.Base.{
  ℕ, ◌≤◌, ◌<◌, ◌≡◌, ◌≢◌, refl, Bool, true, false, Option, none, some, List, [], ◌∷◌, ◌++◌, All, all,
  arith,
}
use cherub.Base.Bytes.{Str, lit, trim}
use cherub.Enforcement.Policy.{command}
use cherub.Enforcement.Shell.{parse_commands, collect_commands}
use cherub.Enforcement.Shell.Slices.{IsPart, parse_commands-IsPart}
use cherub.Enforcement.Shell.Fuel.{collect_commands_fuel}
use cherub.Enforcement.Shell.Plain.{join, commands_of, parse_commands-join}
use cherub.Enforcement.Extraction.{extract_url_host, extract}
use cherub.Json.{Value, string, object, entry, end}
use cherub.Tests.Toy.{command_params}

trim_runs : trim (lit "  a b \t") ≡ lit "a b"
unfolding trim
trim_runs = refl

abbrev piped : Str
piped = lit "ls /tmp | head; echo 'a;b' && x $(pwd `z`) "

abbrev piped_commands : List Str
piped_commands =
    lit "ls /tmp"
    ∷ lit "head"
    ∷ lit "echo 'a;b'"
    ∷ lit "x $(pwd `z`)"
    ∷ lit "pwd `z`"
    ∷ lit "z"
    ∷ []

-- Separators outside of quotes end a command, and substitutions are commands of their own.
piped_runs : parse_commands piped ≡ some piped_commands
unfolding parse_commands trim
piped_runs = refl

-- An unmatched quote, a process substitution and a here-document are refused.
unmatched_runs : parse_commands (lit "echo 'a") ≡ none
unfolding parse_commands trim
unmatched_runs = refl

process_runs : parse_commands (lit "diff <(a) b") ≡ none
unfolding parse_commands trim
process_runs = refl

-- A single `&` is no separator.
background_runs : parse_commands (lit "ls & rm x") ≡ some (lit "ls & rm x" ∷ [])
unfolding parse_commands trim
background_runs = refl

parse_commands-IsPart_example : All (IsPart piped) piped_commands
parse_commands-IsPart_example = parse_commands-IsPart piped piped_commands piped_runs

collect_commands_fuel_example :
    collect_commands 10 (lit "a; $(b)") [] ≡ collect_commands 50 (lit "a; $(b)") []
collect_commands_fuel_example =
    collect_commands_fuel 10 50 (lit "a; $(b)") [] (omega arith) (omega arith)

abbrev plain_parts : List Str
plain_parts = lit " rm x " ∷ lit "" ∷ lit "pwd" ∷ []

parse_commands-join_example :
    parse_commands (join (lit "ls -l") plain_parts) ≡ some (commands_of (lit "ls -l" ∷ plain_parts))
parse_commands-join_example = parse_commands-join (lit "ls -l") plain_parts refl refl

ls_extracted : extract command (command_params (lit "ls; pwd")) ≡ some (lit "ls" ∷ lit "pwd" ∷ [])
unfolding extract cherub.Enforcement.Extraction.field cherub.Json.get_str parse_commands trim
ls_extracted = refl

host_runs : extract_url_host (lit "https://a.b:8080/c") ≡ some (lit "a.b")
unfolding extract_url_host cherub.Base.Bytes.split_once_after cherub.Base.Bytes.before
host_runs = refl

-- What stands before an `@` is taken as the host.
userinfo_runs : extract_url_host (lit "https://a.b:x@c.d/") ≡ some (lit "a.b")
unfolding extract_url_host cherub.Base.Bytes.split_once_after cherub.Base.Bytes.before
userinfo_runs = refl
