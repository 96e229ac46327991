-- ===== src/Egress.antt =====
-- egress/src/lib.rs: the only internet route of the Brain. What starts the proxy, and which CONNECT
-- targets it lets through; sockets and the audit stream are not modelled.
pub mod Policy
pub mod Allowlist
use Prim.Native.String
use shimpz_brain.Base.{
  ℕ, String, Char, code, Bool, true, false, ◌&&◌, ◌||◌, ◌==◌, List, [], ◌∷◌, is_nil, if◌then◌else◌,
  Result, ok, err,
}
use shimpz_brain.Egress.Policy.{PolicyError, contains, add_name}

abbrev pub decision_host : String
decision_host = "api.typesafe.ai"

abbrev pub allowed_port : ℕ
allowed_port = 443

pub data Startup : Type 0 where
  policy custody listen : Startup

pub record Brain : Type 0 where
  pub allowed : List String

-- `Brain::new`.
unfoldable pub new : List String → Result Brain Startup
new allowed =
    if is_nil allowed || contains allowed "*" then err policy else ok (record { allowed = allowed })

-- The lowercase of a letter `A` to `Z`, and any other character as it is.
abbrev lower_from : String → String → Char → Char
lower_from (String.◌∷◌ u us) (String.◌∷◌ l ls) c =
    let rest = lower_from us ls c in if code u == code c then l else rest
lower_from _ _ c = c

unfoldable pub to_ascii_lowercase : String → String
to_ascii_lowercase String.[] = ""
to_ascii_lowercase (String.◌∷◌ c s) =
    String.◌∷◌ (lower_from "ABCDEFGHIJKLMNOPQRSTUVWXYZ" "abcdefghijklmnopqrstuvwxyz" c)
      (to_ascii_lowercase s)

-- `strip_suffix('.')`, or the text itself.
unfoldable pub strip_dot : String → String
strip_dot String.[] = ""
strip_dot (String.◌∷◌ c String.[]) = if code c == b'.' then "" else String.◌∷◌ c String.[]
strip_dot (String.◌∷◌ c (String.◌∷◌ d s)) = String.◌∷◌ c (strip_dot (String.◌∷◌ d s))

abbrev pub canonical : String → String
canonical host = strip_dot (to_ascii_lowercase host)

-- `Brain::permitted`.
unfoldable pub permitted : Brain → String → ℕ → Bool
permitted brain host port = port == allowed_port && contains brain.allowed (canonical host)

-- What is left of `start` once the profile stands: the listener binds, or not.
abbrev listening : Bool → Brain → Result Brain Startup
listening true brain = ok brain
listening false brain = err listen

abbrev guarded : Bool → Bool → Result Brain Startup → Result Brain Startup
guarded false binds made = err custody
guarded true binds (err e) = err e
guarded true binds (ok brain) = listening binds brain

-- `start`, from what loading the policy, checking custody and binding answer.
unfoldable pub start : Result (List String) PolicyError → Bool → Bool → Result Brain Startup
start (err e) custody_ok binds = err policy
start (ok providers) custody_ok binds =
    guarded custody_ok binds (new (add_name decision_host providers))
