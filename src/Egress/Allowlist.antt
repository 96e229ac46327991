-- ===== src/Egress/Allowlist.antt =====
-- Where the proxy lets the Brain connect (egress/src/lib.rs over egress/src/policy.rs).
use shimpz_brain.Base.{
  ℕ, String, str_eq, eq_iff, Bool, true, false, ◌==◌, List, [], ◌∷◌, ◌≡◌, ◌⊎◌, refl, sym, arith,
  All, is_nil, Result, ok, err, Bool-cases, inl, inr, &&-true,
}
use shimpz_brain.Json.Types.{Value}
use shimpz_brain.Egress.Policy.{
  PolicyError, contains, add_name, label, split_dots, host, provider_hosts,
}
use shimpz_brain.Egress.Policy.Hosts.{IsHost, All-add_name, provider_hosts-IsHost}
use shimpz_brain.Egress.{
  decision_host, allowed_port, Startup, Brain, new, canonical, permitted, start, guarded,
}

All-contains :
    (P : String → Type 0) (names : List String) (name : String)
    → All P names
    → contains names name ≡ true
    → P name
All-contains P [] name all e = absurd (cc)
All-contains P (n ∷ names) name (p, all) e = elim (Bool-cases (str_eq name n)) [
  | inl same ↦ rw ((eq_iff name n).0 same) p
  | inr other ↦ All-contains P names name all (ground arith)
]

add_name-contains :
    (name other : String) (names : List String)
    → contains (add_name name names) other ≡ true
    → (other ≡ name) ⊎ (contains names other ≡ true)
add_name-contains name other names h = elim (Bool-cases (str_eq other name)) [
  | inl same ↦ inl ((eq_iff other name).0 same)
  | inr differ ↦ inr (ground arith)
]

wildcard-IsHost : IsHost "*" → ⊥
unfolding host split_dots label
wildcard-IsHost h = absurd (cc)

no_wildcard : (names : List String) → All IsHost names → contains names "*" ≡ false
no_wildcard names all = elim (Bool-cases (contains names "*")) [
  | inl e ↦ absurd (wildcard-IsHost (All-contains IsHost names "*" all e))
  | inr e ↦ e
]

decision_host-IsHost : IsHost decision_host
unfolding host split_dots label
decision_host-IsHost = refl

is_nil-add_name : (name : String) (names : List String) → is_nil (add_name name names) ≡ false
is_nil-add_name name [] = refl
is_nil-add_name name (n ∷ names) = ground arith

-- A valid catalog starts the proxy: whatever hosts the catalog gives, with custody of the audit and a
-- free port the profile stands, and its allowlist is those hosts and the decision host.
pub start_starts :
    (document : Value) (hosts : List String)
    → provider_hosts document ≡ ok hosts
    → start (provider_hosts document) true true
      ≡ ok (record { allowed = add_name decision_host hosts })
unfolding start new
start_starts document hosts e =
    let all =
      All-add_name IsHost decision_host hosts decision_host-IsHost
        (provider_hosts-IsHost document hosts e) in
    let clean = no_wildcard (add_name decision_host hosts) all in
    rw (e, is_nil-add_name decision_host hosts, clean) refl

guarded_made :
    (custody_ok binds : Bool) (made : Result Brain Startup) (brain : Brain)
    → guarded custody_ok binds made ≡ ok brain
    → made ≡ ok brain
guarded_made false binds made brain h = absurd (ground arith)
guarded_made true binds (err e) brain h = absurd (ground arith)
guarded_made true false (ok b) brain h = absurd (ground arith)
guarded_made true true (ok b) brain h = h

allowed-new :
    (allowed : List String) (brain : Brain) → new allowed ≡ ok brain → brain.allowed ≡ allowed
unfolding new
allowed-new allowed brain h = ground arith

start_parts :
    (loaded : Result (List String) PolicyError) (custody_ok binds : Bool) (brain : Brain)
    → start loaded custody_ok binds ≡ ok brain
    → (hosts : List String) × (loaded ≡ ok hosts) × (brain.allowed ≡ add_name decision_host hosts)
unfolding start
start_parts (err e) custody_ok binds brain h = absurd (ground arith)
start_parts (ok hosts) custody_ok binds brain h =
    let made = guarded_made custody_ok binds (new (add_name decision_host hosts)) brain h in
    (hosts, refl, allowed-new (add_name decision_host hosts) brain made)

-- Once the proxy has started, it lets a CONNECT through only to port 443 of a host whose lowercase
-- name, without one trailing dot, is a valid host name and is either the decision host or a host of
-- the packaged catalog.
pub permitted_only :
    (document : Value) (custody_ok binds : Bool) (brain : Brain) (target : String) (port : ℕ)
    → start (provider_hosts document) custody_ok binds ≡ ok brain
    → permitted brain target port ≡ true
    → (port ≡ allowed_port)
      × IsHost (canonical target)
      × ((canonical target ≡ decision_host)
          ⊎ ((hosts : List String) × (provider_hosts document ≡ ok hosts)
              × (contains hosts (canonical target) ≡ true)))
unfolding permitted
permitted_only document custody_ok binds brain target port h admits =
    let (hosts, loaded, same) = start_parts (provider_hosts document) custody_ok binds brain h in
    let (at_port, among) = &&-true (port == allowed_port) _ admits in
    let listed : contains (add_name decision_host hosts) (canonical target) ≡ true =
      rw (sym same) among in
    let all =
      All-add_name IsHost decision_host hosts decision_host-IsHost
        (provider_hosts-IsHost document hosts loaded) in
    (
      ground arith,
      All-contains IsHost _ (canonical target) all listed,
      elim (add_name-contains decision_host (canonical target) hosts listed) [
        | inl decided ↦ inl decided
        | inr provided ↦ inr (hosts, loaded, provided)
      ],
    )
