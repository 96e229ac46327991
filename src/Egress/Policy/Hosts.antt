-- ===== src/Egress/Policy/Hosts.antt =====
-- The hosts that a valid catalog gives (egress/src/policy.rs).
pub mod Names
use shimpz_brain.Base.{String, true, List, [], ◌∷◌, ◌≡◌, arith, All, ok, Bool-cases, inl, inr}
use shimpz_brain.Base.Results.{>>=-eq-ok}
use shimpz_brain.Json.Types.{Value}
use shimpz_brain.Egress.Policy.{
  require, exact_object, field, bounded_text, contains, add_name, host, provider_endpoint,
  model_ids, provider, hosts_from, provider_values, provider_hosts,
}

abbrev pub IsHost : String → Type 0
IsHost h = host h ≡ true

provider_endpoint-IsHost : (value : Value) (h : String) → provider_endpoint value ≡ ok h → IsHost h
unfolding provider_endpoint
provider_endpoint-IsHost value h e =
    let (endpoint, _, rest) = >>=-eq-ok (exact_object value _ _) _ e in
    let (name, _, later) = >>=-eq-ok (bounded_text (field endpoint "host") _ _) _ rest in
    let (path, _, last) = >>=-eq-ok (bounded_text (field endpoint "path") _ _) _ later in
    ground arith

provider-IsHost :
    (value : Value) (seen : List String) (found : String × String)
    → provider value seen ≡ ok found
    → IsHost found.1
unfolding provider
provider-IsHost value seen found e =
    let (members, _, a) = >>=-eq-ok (exact_object value _ _) _ e in
    let (id, _, b) = >>=-eq-ok (bounded_text (field members "id") _ _) _ a in
    let (_, _, c) = >>=-eq-ok (require _ _) _ b in
    let (title, _, d) = >>=-eq-ok (bounded_text (field members "title") _ _) _ c in
    let (models, _, f) = >>=-eq-ok (model_ids (field members "models")) _ d in
    let (_, _, g) = >>=-eq-ok (require _ _) _ f in
    let (endpoint, valid, same) =
      >>=-eq-ok (provider_endpoint (field members "credential_validation")) _ g in
    ground (arith, provider_endpoint-IsHost (field members "credential_validation") endpoint valid)

pub All-add_name :
    (P : String → Type 0) (name : String) (names : List String)
    → P name
    → All P names
    → All P (add_name name names)
All-add_name P name names p all = elim (Bool-cases (contains names name)) [
  | inl e ↦ rw e all
  | inr e ↦ rw e (p, all)
]

hosts_from-IsHost :
    (rest : List Value) (ids hosts : List String) (out : List String × List String)
    → hosts_from ids hosts rest ≡ ok out
    → All IsHost hosts
    → All IsHost out.1
unfolding hosts_from
hosts_from-IsHost [] ids hosts out e all = let same : out.1 ≡ hosts = ground arith in rw same all
hosts_from-IsHost (value ∷ rest) ids hosts out e all =
    let (found, valid, later) = >>=-eq-ok (provider value ids) _ e in
    hosts_from-IsHost rest (add_name found.0 ids) (add_name found.1 hosts) out later
      (All-add_name IsHost found.1 hosts (provider-IsHost value ids found valid) all)

-- Every host of a catalog that the policy admits passed its test of a host.
pub provider_hosts-IsHost :
    (document : Value) (hosts : List String) → provider_hosts document ≡ ok hosts → All IsHost hosts
unfolding provider_hosts
provider_hosts-IsHost document hosts e =
    let (catalog, _, a) = >>=-eq-ok (exact_object document _ _) _ e in
    let (_, _, b) = >>=-eq-ok (require _ _) _ a in
    let (providers, _, c) = >>=-eq-ok (provider_values (field catalog "providers")) _ b in
    let (found, read, d) = >>=-eq-ok (hosts_from [] [] providers) _ c in
    let same : hosts ≡ found.1 = ground arith in
    rw same (hosts_from-IsHost providers [] [] found read tt)
