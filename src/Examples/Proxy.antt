-- ===== src/Examples/Proxy.antt =====
-- The theorems on the egress proxy, at a concrete catalog.
use shimpz_brain.Base.{String, true, List, [], ◌∷◌, ◌≡◌, ◌⊎◌, refl, All, ok}
use shimpz_brain.Json.Types.{Value, bool}
use shimpz_brain.Json.{object, array, text, uint}
use shimpz_brain.Egress.{allowed_port, decision_host, Brain, canonical, permitted, start}
use shimpz_brain.Egress.Allowlist.{start_starts, permitted_only}
use shimpz_brain.Egress.Policy.{contains, provider_hosts}
use shimpz_brain.Egress.Policy.Hosts.{IsHost}
use shimpz_brain.Egress.Policy.Hosts.Names.{IsName, provider_hosts-IsName}

abbrev model : Value
model = object (
    ("chat", bool true)
    ∷ ("id", text "m1")
    ∷ ("input_usd_per_million_cents", uint 100)
    ∷ ("output_usd_per_million_cents", uint 200)
    ∷ ("title", text "M")
    ∷ [])

abbrev catalog : Value
catalog = object (
    ("default_provider", text "p")
    ∷ (
      "providers",
      array (
          object (
            (
              "credential_validation",
              object (("host", text "api.example.com") ∷ ("path", text "/v1") ∷ []),
            )
            ∷ ("default_model", text "m1")
            ∷ ("id", text "p")
            ∷ ("models", array (model ∷ []))
            ∷ ("title", text "P")
            ∷ [])
          ∷ []),
    )
    ∷ ("schema", uint 1)
    ∷ [])

hosts-catalog : provider_hosts catalog ≡ ok ("api.example.com" ∷ [])
unfolding provider_hosts shimpz_brain.Egress.Policy.exact_object object
    shimpz_brain.Egress.Policy.require shimpz_brain.Egress.Policy.schema_one
    shimpz_brain.Egress.Policy.field uint array shimpz_brain.Egress.Policy.hosts_from
    shimpz_brain.Egress.Policy.provider shimpz_brain.Egress.Policy.bounded_text text
    shimpz_brain.Egress.Policy.identifier shimpz_brain.Egress.Policy.model_ids
    shimpz_brain.Egress.Policy.model_ids_from shimpz_brain.Egress.Policy.model_id
    shimpz_brain.Egress.Policy.price shimpz_brain.Egress.Policy.host
    shimpz_brain.Egress.Policy.label shimpz_brain.Egress.Policy.member
    shimpz_brain.Egress.Policy.provider_endpoint shimpz_brain.Egress.Policy.split_dots
    shimpz_brain.Json.decimal shimpz_brain.Json.int
hosts-catalog = refl

provider_hosts-IsName_example : All IsName ("api.example.com" ∷ [])
provider_hosts-IsName_example = provider_hosts-IsName catalog ("api.example.com" ∷ []) hosts-catalog

abbrev brain : Brain
brain = record { allowed = "api.typesafe.ai" ∷ "api.example.com" ∷ [] }

start_starts_example : start (provider_hosts catalog) true true ≡ ok brain
start_starts_example = start_starts catalog ("api.example.com" ∷ []) hosts-catalog

admitted-target : permitted brain "API.Example.com." 443 ≡ true
unfolding permitted shimpz_brain.Egress.strip_dot shimpz_brain.Egress.to_ascii_lowercase
admitted-target = refl

permitted_only_example :
    (allowed_port ≡ allowed_port)
    × IsHost (canonical "API.Example.com.")
    × ((canonical "API.Example.com." ≡ decision_host)
        ⊎ ((hosts : List String) × (provider_hosts catalog ≡ ok hosts)
            × (contains hosts (canonical "API.Example.com.") ≡ true)))
permitted_only_example =
    permitted_only catalog true true brain "API.Example.com." 443 start_starts_example
      admitted-target
