-- ===== src/Egress/Policy.antt =====
-- egress/src/policy.rs: the provider hosts of a model catalog. A `BTreeSet` is the list of its
-- members, without repetition; reading and parsing the file happens before.
pub mod Hosts
use Prim.Native.String.{count, len, ◌++◌ as str_append}
use Prim.Native.String
use shimpz_brain.Base.{
  ℕ, String, Char, code, str_eq, starts_with, Bool, true, false, not, ◌&&◌, ◌||◌, ◌==◌, leb, Option,
  none, some, List, [], ◌∷◌, any, all, map, length, if◌then◌else◌, Result, ok, err,
}
use shimpz_brain.Base.Int.{pos}
use shimpz_brain.Base.Results.{◌>>=◌}
use shimpz_brain.Json.Types.{
  Number, int, float, Value, null, bool, num, str, arr, obj, values, pairs,
}

pub data PolicyError : Type 0 where
  policy_error : String → PolicyError

-- A condition whose failure is that error.
unfoldable pub require : Bool → String → Result (Unit {0}) PolicyError
require true detail = ok tt
require false detail = err (policy_error detail)

abbrev Fields : Type 0
Fields = List (String × Value)

-- `BTreeSet::contains` and `insert`.
abbrev pub contains : List String → String → Bool
contains names name = any (str_eq name) names

abbrev pub add_name : String → List String → List String
add_name name names = if contains names name then names else name ∷ names

-- Equality of two sets of names.
abbrev same_names : List String → List String → Bool
same_names names fields = all (contains fields) names && all (contains names) fields

unfoldable pub exact_object : Value → List String → String → Result Fields PolicyError
exact_object (obj ms) fields label =
    if same_names (map (λ p. p.0) (pairs ms)) fields
    then ok (pairs ms)
    else err (policy_error label)
exact_object _ fields label = err (policy_error label)

unfoldable pub field : Fields → String → Value
field [] name = null
field ((key, value) ∷ members) name =
    let later = field members name in if str_eq key name then value else later

unfoldable pub bounded_text : Value → ℕ → String → Result String PolicyError
bounded_text (str text) maximum label =
    if leb 1 (count text) && leb (count text) maximum then ok text else err (policy_error label)
bounded_text _ maximum label = err (policy_error label)

-- `is_ascii_lowercase() || is_ascii_digit()`. Every tested byte of a longer UTF-8 character fails, as
-- does the character here.
abbrev pub is_edge : Char → Bool
is_edge c = (leb b'a' (code c) && leb (code c) b'z') || (leb b'0' (code c) && leb (code c) b'9')

abbrev pub all_char : (Char → Bool) → String → Bool
all_char p String.[] = true
all_char p (String.◌∷◌ c s) = p c && all_char p s

abbrev pub first_is : (Char → Bool) → String → Bool
first_is p String.[] = false
first_is p (String.◌∷◌ c s) = p c

abbrev pub last_is : (Char → Bool) → String → Bool
last_is p String.[] = false
last_is p (String.◌∷◌ c String.[]) = p c
last_is p (String.◌∷◌ c (String.◌∷◌ d s)) = last_is p (String.◌∷◌ d s)

-- One LDH label.
unfoldable pub label : String → Bool
label text =
    leb 1 (len text)
    && leb (len text) 63
    && first_is is_edge text
    && last_is is_edge text
    && all_char (λ c. is_edge c || code c == b'-') text

-- `split('.')`; `piece` is what was read of the current one.
unfoldable pub split_dots : String → String → List String
split_dots piece String.[] = piece ∷ []
split_dots piece (String.◌∷◌ c s) =
    let closed = piece ∷ split_dots String.[] s in
    let longer = split_dots (str_append piece (String.◌∷◌ c String.[])) s in
    if code c == b'.' then closed else longer

unfoldable pub host : String → Bool
host text = all label (split_dots String.[] text)

unfoldable pub identifier : String → Bool
identifier text =
    first_is is_edge text
    && all_char (λ c. is_edge c || code c == b'.' || code c == b'_' || code c == b'-') text

-- `provider_endpoint`.
unfoldable pub provider_endpoint : Value → Result String PolicyError
provider_endpoint value = do
  endpoint ← exact_object value ("host" ∷ "path" ∷ []) "provider endpoint is invalid"
  host_name ← bounded_text (field endpoint "host") 253 "provider host is invalid"
  path ← bounded_text (field endpoint "path") 256 "provider path is invalid"
  if not (host host_name) || not (starts_with path "/")
      then err (policy_error "provider endpoint is invalid")
      else ok host_name

unfoldable pub price : Value → Bool
price (num (int (pos n))) = leb n 10000000
price _ = false

abbrev model_fields : List String
model_fields =
    "chat" ∷ "id" ∷ "input_usd_per_million_cents" ∷ "output_usd_per_million_cents" ∷ "title" ∷ []

is_bool : Value → Bool
is_bool (bool b) = true
is_bool _ = false

unfoldable pub model_id : Value → List String → Result String PolicyError
unfolding is_bool
model_id value seen = do
  model ← exact_object value model_fields "provider model is invalid"
  _ ← require (is_bool (field model "chat")) "model chat admission is invalid"
  id ← bounded_text (field model "id") 128 "model id is invalid"
  _ ← require (identifier id && not (contains seen id)) "model id is invalid"
  title ← bounded_text (field model "title") 120 "model title is invalid"
  if not (price (field model "input_usd_per_million_cents"))
        || not (price (field model "output_usd_per_million_cents"))
      then err (policy_error "model price is invalid")
      else ok id

-- The loop of `model_ids`.
unfoldable pub model_ids_from : List String → List Value → Result (List String) PolicyError
model_ids_from ids [] = ok ids
model_ids_from ids (model ∷ models) = do
  id ← model_id model ids
  model_ids_from (add_name id ids) models

unfoldable pub model_ids : Value → Result (List String) PolicyError
model_ids (arr models) =
    if not (leb 1 (length (values models)) && leb (length (values models)) 128)
    then err (policy_error "provider models are invalid")
    else model_ids_from [] (values models)
model_ids _ = err (policy_error "provider models are invalid")

unfoldable pub member : Value → List String → Bool
member (str text) names = contains names text
member _ names = false

abbrev provider_fields : List String
provider_fields = "credential_validation" ∷ "default_model" ∷ "id" ∷ "models" ∷ "title" ∷ []

unfoldable pub provider : Value → List String → Result (String × String) PolicyError
provider value seen = do
  found ← exact_object value provider_fields "provider is invalid"
  id ← bounded_text (field found "id") 128 "provider id is invalid"
  _ ← require (identifier id && not (contains seen id)) "provider id is invalid"
  title ← bounded_text (field found "title") 80 "provider title is invalid"
  models ← model_ids (field found "models")
  _ ← require (member (field found "default_model") models) "provider default model is invalid"
  endpoint ← provider_endpoint (field found "credential_validation")
  ok (id, endpoint)

-- `schema_one`; 1.0 has the bits 0x3FF0000000000000.
unfoldable pub schema_one : Value → Bool
schema_one (num (int (pos n))) = n == 1
schema_one (num (float bits)) = bits == 4607182418800017408
schema_one _ = false

-- The loop of `load_provider_hosts`.
unfoldable pub hosts_from :
    List String → List String → List Value → Result (List String × List String) PolicyError
hosts_from ids hosts [] = ok (ids, hosts)
hosts_from ids hosts (value ∷ rest) = do
  found ← provider value ids
  hosts_from (add_name found.0 ids) (add_name found.1 hosts) rest

provider_values : Value → Result (List Value) PolicyError
provider_values (arr providers) =
    if not (leb 1 (length (values providers)) && leb (length (values providers)) 16)
    then err (policy_error "provider catalog providers are invalid")
    else ok (values providers)
provider_values _ = err (policy_error "provider catalog providers are invalid")

-- `load_provider_hosts` over the parsed catalog.
unfoldable pub provider_hosts : Value → Result (List String) PolicyError
unfolding provider_values
provider_hosts document = do
  catalog ←
      exact_object document ("default_provider" ∷ "providers" ∷ "schema" ∷ [])
        "provider catalog is invalid"
  _ ← require (schema_one (field catalog "schema")) "provider catalog schema is invalid"
  providers ← provider_values (field catalog "providers")
  found ← hosts_from [] [] providers
  if member (field catalog "default_provider") found.0
      then ok found.1
      else err (policy_error "provider catalog default is invalid")
