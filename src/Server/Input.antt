-- ===== src/Server/Input.antt =====
-- runtime/src/server/input.rs: the readers of a closed request object. Any shape violation is one
-- 422, a contract check its own 400. The catalog is runtime/src/catalog.rs, already read.
use Prim.Native.String.{count}
use shimpz_brain.Base.{
  ℕ, String, code, str_eq, Bool, ◌&&◌, Option, none, some, List, [], ◌∷◌, leb, any, all, length,
  ◌==◌, if◌then◌else◌, Result, ok, err,
}
use shimpz_brain.Base.Results.{◌>>=◌}
use shimpz_brain.Json.Types.{Value, null, bool, str, arr, obj, values, pairs, get}
use shimpz_brain.Json.{contains}
use shimpz_brain.Errors.{BrainError, contract}
use shimpz_brain.Text.{any_char}
use shimpz_brain.Turn.Context.{ProviderId, provider_as_str, provider_parse}
use shimpz_brain.Turn.Prepare.Inputs.{ProviderConfig}

pub data RouteError : Type 0 where
  invalid : RouteError
  brain : BrainError → RouteError

abbrev pub refuse : {A : Type 0} → String → Result A RouteError
refuse detail = err (brain (contract detail))

abbrev pub min_api_key_chars : ℕ
min_api_key_chars = 16

abbrev pub max_api_key_chars : ℕ
max_api_key_chars = 8192

-- `usize::MAX`.
abbrev pub usize_max : ℕ
usize_max = 18446744073709551615

abbrev pub between : ℕ → ℕ → ℕ → Bool
between min max n = leb min n && leb n max

-- `ok_or(RouteError::Invalid)`.
unfoldable pub or_invalid : {A : Type 0} → Option A → Result A RouteError
or_invalid none = err invalid
or_invalid (some a) = ok a

abbrev pub require : Bool → Result (Unit {0}) RouteError
require holds = if holds then ok tt else err invalid

unfoldable pub closed :
    Value → List String → List String → Result (List (String × Value)) RouteError
closed (obj ms) allowed required =
    if all (λ m. contains allowed m.0) (pairs ms)
      && all (λ name. any (λ m. str_eq m.0 name) (pairs ms)) required
    then ok (pairs ms)
    else err invalid
closed _ allowed required = err invalid

unfoldable pub string_in : Option Value → ℕ → ℕ → Result String RouteError
string_in (some (str words)) min max =
    if between min max (count words) then ok words else err invalid
string_in _ min max = err invalid

unfoldable pub string : Value → String → ℕ → ℕ → Result String RouteError
string value key min max = string_in (get value key) min max

unfoldable pub optional_string_in : Option Value → ℕ → ℕ → Result (Option String) RouteError
optional_string_in (some null) min max = ok none
optional_string_in member min max = do words ← string_in member min max; ok (some words)

unfoldable pub optional_string : Value → String → ℕ → ℕ → Result (Option String) RouteError
optional_string value key min max = optional_string_in (get value key) min max

unfoldable pub boolean_in : Option Value → Result Bool RouteError
boolean_in (some (bool flag)) = ok flag
boolean_in _ = err invalid

unfoldable pub boolean : Value → String → Result Bool RouteError
boolean value key = boolean_in (get value key)

unfoldable pub list_in : Option Value → ℕ → ℕ → Result (List Value) RouteError
list_in (some (arr items)) min max =
    if between min max (length (values items)) then ok (values items) else err invalid
list_in _ min max = err invalid

unfoldable pub list : Value → String → ℕ → ℕ → Result (List Value) RouteError
list value key min max = list_in (get value key) min max

unfoldable pub optional_list_in : Option Value → ℕ → Result (Option (List Value)) RouteError
optional_list_in (some null) max = ok none
optional_list_in member max = do items ← list_in member 0 max; ok (some items)

unfoldable pub optional_list : Value → String → ℕ → Result (Option (List Value)) RouteError
optional_list value key max = optional_list_in (get value key) max

unfoldable pub object_in : Option Value → Result Value RouteError
object_in (some (obj ms)) = ok (obj ms)
object_in _ = err invalid

unfoldable pub object_of : Value → String → Result Value RouteError
object_of value key = object_in (get value key)

unfoldable pub optional_object_in : Option Value → Result (Option Value) RouteError
optional_object_in (some null) = ok none
optional_object_in member = do found ← object_in member; ok (some found)

unfoldable pub optional_object : Value → String → Result (Option Value) RouteError
optional_object value key = optional_object_in (get value key)

-- `Model` and `Provider` of runtime/src/catalog.rs.
pub record CatalogModel : Type 0 where
  pub id : String
  pub chat : Bool

pub record CatalogProvider : Type 0 where
  pub id : String
  pub models : List CatalogModel

unfoldable pub is_chat_model : List CatalogProvider → String → String → Bool
is_chat_model catalog provider model =
    any
      (λ (entry : CatalogProvider).
        str_eq entry.id provider
        && any (λ (item : CatalogModel). str_eq item.id model && item.chat) entry.models)
      catalog

unfoldable pub provider_in : Option Value → Result ProviderId RouteError
provider_in (some (str id)) = or_invalid (provider_parse id)
provider_in _ = err invalid

abbrev pub provider_fields : List String
provider_fields = "provider" ∷ "model" ∷ "api_key" ∷ []

-- The provider object without the chat-model check.
unfoldable pub provider_any : Value → Result ProviderConfig RouteError
provider_any value = do
  input ← object_of value "provider"
  _ ← closed input provider_fields provider_fields
  id ← provider_in (get input "provider")
  model ← string input "model" 1 128
  api_key ← string input "api_key" min_api_key_chars max_api_key_chars
  if any_char (λ c. code c == 0) api_key
      then refuse "invalid model provider credential"
      else ok (record { provider = id; model = model; api_key = api_key })

unfoldable pub provider : List CatalogProvider → Value → Result ProviderConfig RouteError
provider catalog value = do
  config ← provider_any value
  if is_chat_model catalog (provider_as_str config.provider) config.model
      then ok config
      else refuse "unsupported model for provider"
