-- ===== src/Env/Secrets/Tests.antt =====
-- The secrets of a small config.
use apiwright.Core.Json.{Json, JsonFields}
use apiwright.Env.Secrets.{resolve_secrets, resolved_to, unresolved}
use apiwright.Env.Secrets.Registered.{IsResolved, IsUnset, resolve_secrets-Member}
use apiwright.Env.Secrets.Collected.{IsReferred}
use apiwright.Env.Secrets.Reference.{IsReference}
use apiwright.Env.Walks.{at_string, in_object, first_field}
use apiwright.Env.Sets.{Member}
use apiwright.Env.Tree.{Mapped, MappedFields}
use apiwright.Prelude.{
  ◌≡◌, ◌≢◌, ◌⊎◌, List, arith, refl, Option, some, [], ◌∷◌, String, str_eq, if◌then◌else◌,
}

abbrev env : String → Option String
env name = if str_eq name "TOKEN" then some "s3cret" else some ""

abbrev header : String → Json
header text = Json.object (JsonFields.field "authorization" (Json.string text) JsonFields.end)

resolved_example :
    resolve_secrets env (λ names. names) (header "Bearer ${secret.TOKEN}") ("old" ∷ []) ≡ (
      resolved_to (
          Mapped.object (
            MappedFields.field "authorization" (Mapped.replaced "Bearer s3cret") MappedFields.end)),
      "old" ∷ "s3cret" ∷ [],
    )
unfolding resolve_secrets
resolved_example = refl

unresolved_example :
    resolve_secrets env (λ names. names) (header "${secret.TOKEN}${secret.USER}${secret.}") [] ≡ (
      unresolved
          ("USER" ∷ [])
          "Unresolved secret(s): USER. Set the corresponding environment variable(s) before running.",
      [],
    )
unfolding resolve_secrets
unresolved_example = refl

token-IsReference : IsReference "Bearer ${secret.TOKEN}" "TOKEN"
token-IsReference = record {
  before = "Bearer ";
  after = "";
  name_chars = ground arith;
  not_empty = λ e. cc;
  spelled = refl;
}

abbrev no_sort : List String → List String
no_sort names = names

abbrev config : Json
config = header "Bearer ${secret.TOKEN}"

resolve_secrets-Member_example :
    (IsResolved (resolve_secrets env no_sort config []).0
      × ((v : String) × (env "TOKEN" ≡ some v)
          × (v ≢ "")
          × Member v (resolve_secrets env no_sort config []).1))
    ⊎ (¬ IsResolved (resolve_secrets env no_sort config []).0
        × ((resolve_secrets env no_sort config []).1 ≡ [])
        × ((other : String) × IsReferred config other × IsUnset env other))
resolve_secrets-Member_example =
    resolve_secrets-Member env no_sort config [] "TOKEN"
      ("Bearer ${secret.TOKEN}", in_object (first_field at_string), token-IsReference)
