-- ===== src/Env/Templates/Tests.antt =====
-- The template resolver on a small config.
use apiwright.Core.Json.{Json, JsonFields}
use apiwright.Env.Templates.{Runtime, resolve_templates, resolved_to, unresolved}
use apiwright.Env.Templates.Reference.{direct_result, resolve_templates-direct_result}
use apiwright.Env.Tree.{Mapped, MappedFields}
use apiwright.Prelude.{◌≡◌, refl, some, [], ◌∷◌, String, decimal}

abbrev small : Runtime
small = record {
  sort = λ paths. paths;
  number_text = decimal;
  json_text = λ v. "{}";
  count_bits = λ n. n;
}

abbrev fields : String → String → Json
fields url port = Json.object (
    JsonFields.field "url" (Json.string url)
      (JsonFields.field "port" (Json.string port) JsonFields.end))

abbrev env : Json
env = Json.object (
    JsonFields.field "db"
      (Json.object (
        JsonFields.field "host" (Json.string "local")
          (JsonFields.field "port" (Json.number 80) JsonFields.end)))
      JsonFields.end)

resolved_example :
    resolve_templates small
      (fields "http://${env.db.host}:${env.db.port}/${token}" "${env.db.port}")
      env
    ≡ resolved_to (
        Mapped.object (
          MappedFields.field "url"
            (Mapped.replaced (some (Json.string "http://local:80/${token}")))
            (MappedFields.field "port" (Mapped.replaced (some (Json.number 80))) MappedFields.end)))
unfolding resolve_templates decimal
resolved_example = refl

unresolved_example :
    resolve_templates small (fields "${env.db.name}" "${env.db..port} ${env.user}") env
    ≡ unresolved
        ("env.db.name" ∷ "env.user" ∷ [])
        "Unresolved environment reference(s): env.db.name, env.user. Check the environment file."
unfolding resolve_templates
unresolved_example = refl

resolve_templates-direct_result_example :
    resolve_templates small (fields "http://${env.db.host}" "${env.db.port}") env
    ≡ direct_result small env (fields "http://${env.db.host}" "${env.db.port}")
resolve_templates-direct_result_example =
    resolve_templates-direct_result small env (fields "http://${env.db.host}" "${env.db.port}")
