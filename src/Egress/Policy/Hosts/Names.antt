-- ===== src/Egress/Policy/Hosts/Names.antt =====
-- Host names as RFC 952 and 1123 describe them, apart from how egress/src/policy.rs (`label`, `host`)
-- reads them, and what that reading admits.
use Prim.Native.Char.{len_utf8}
use Prim.Native.String.{len, ◌++◌ as str_append}
use Prim.Native.String.append
use Prim.Native.String.len as LenLemmas
use text.Mathlib.TextPositions.{len_utf8-pos}
use shimpz_brain.Base.{
  ℕ, ◌+◌, ◌≤◌, String, Char, code, true, ◌||◌, ◌==◌, all, List, [], ◌∷◌, ◌++◌, map, length, ◌≡◌,
  refl, sym, subst, ap, ◌∙◌, arith, All, ok, Bool-cases, ◌⊎◌, inl, inr, append_assoc, append-nil,
}
use shimpz_brain.Json.Types.{Value}
use shimpz_brain.Egress.Policy.{
  is_edge, all_char, first_is, last_is, label, split_dots, host, provider_hosts,
}
use shimpz_brain.Egress.Policy.Hosts.{IsHost, provider_hosts-IsHost}

abbrev pub codes : String → List ℕ
codes String.[] = []
codes (String.◌∷◌ c s) = code c ∷ codes s

-- A lowercase letter or a digit.
abbrev pub IsEdge : ℕ → Type 0
IsEdge n = ((97 ≤ n) × (n ≤ 122)) ⊎ ((48 ≤ n) × (n ≤ 57))

-- An LDH label: one to 63 lowercase letters, digits and hyphens, with no hyphen at either end.
pub record IsLabel (cs : List ℕ) : Type 0 where
  pub short : length cs ≤ 63
  pub first : (n : ℕ) × (rest : List ℕ) × (cs ≡ n ∷ rest) × IsEdge n
  pub last : (n : ℕ) × (rest : List ℕ) × (cs ≡ rest ++ n ∷ []) × IsEdge n
  pub chars : All (λ n. IsEdge n ⊎ (n ≡ 45)) cs

-- Labels joined by dots.
abbrev pub dotted : List ℕ → List (List ℕ) → List ℕ
dotted label [] = label
dotted label (next ∷ labels) = label ++ 46 ∷ dotted next labels

abbrev pub IsName : String → Type 0
IsName name =
    (label : List ℕ) × (labels : List (List ℕ)) × (codes name ≡ dotted label labels)
    × IsLabel label
    × All IsLabel labels

is_edge-IsEdge : (c : Char) → is_edge c ≡ true → IsEdge (code c)
is_edge-IsEdge c h = ground arith

char_of : (c : Char) → is_edge c || code c == 45 ≡ true → IsEdge (code c) ⊎ (code c ≡ 45)
char_of c h = ground arith

chars_of :
    (s : String)
    → all_char (λ c. is_edge c || code c == 45) s ≡ true
    → All (λ n. IsEdge n ⊎ (n ≡ 45)) (codes s)
chars_of String.[] h = tt
chars_of (String.◌∷◌ c s) h = (char_of c (ground arith), chars_of s (ground arith))

first_of :
    (s : String)
    → first_is is_edge s ≡ true
    → (n : ℕ) × (rest : List ℕ) × (codes s ≡ n ∷ rest) × IsEdge n
first_of String.[] h = absurd (ground arith)
first_of (String.◌∷◌ c s) h = (code c, codes s, refl, is_edge-IsEdge c h)

last_of :
    (s : String)
    → last_is is_edge s ≡ true
    → (n : ℕ) × (rest : List ℕ) × (codes s ≡ rest ++ n ∷ []) × IsEdge n
last_of String.[] h = absurd (ground arith)
last_of (String.◌∷◌ c String.[]) h = (code c, [], refl, is_edge-IsEdge c h)
last_of (String.◌∷◌ c (String.◌∷◌ d s)) h =
    let (n, rest, same, edge) = last_of (String.◌∷◌ d s) h in
    (n, code c ∷ rest, ap (λ (l : List ℕ). code c ∷ l) same, edge)

length-codes : (s : String) → length (codes s) ≤ len s
length-codes String.[] = omega arith
length-codes (String.◌∷◌ c s) =
    let (k, one) = len_utf8-pos c in
    let rest = length-codes s in
    let sum : len (String.◌∷◌ c s) ≡ len_utf8 c + len s = LenLemmas.cons c s in rw sum (omega arith)

label-IsLabel : (s : String) → label s ≡ true → IsLabel (codes s)
unfolding label
label-IsLabel s h = record {
  short = (let bytes = length-codes s in let bound : len s ≤ 63 = ground arith in omega arith);
  first = first_of s (ground arith);
  last = last_of s (ground arith);
  chars = chars_of s (ground arith);
}

codes-append : (s t : String) → codes (str_append s t) ≡ codes s ++ codes t
codes-append String.[] t = ap codes (append.nil t)
codes-append (String.◌∷◌ c s) t =
    ap codes (append.cons c s t) ∙ ap (λ (l : List ℕ). code c ∷ l) (codes-append s t)

split_joins :
    (piece s : String)
    → (first : String) × (rest : List String) × (split_dots piece s ≡ first ∷ rest)
      × (dotted (codes first) (map codes rest) ≡ codes piece ++ codes s)
unfolding split_dots
split_joins piece String.[] = (piece, [], refl, sym (append-nil (codes piece)))
split_joins piece (String.◌∷◌ c s) = elim (Bool-cases (code c == 46)) [
  | inl dot ↦
      let (first, rest, split, joined) = split_joins String.[] s in
      let same : code c ≡ 46 = ground arith in
      (
        piece,
        first ∷ rest,
        rw dot (ap (λ (l : List String). piece ∷ l) split),
        rw (joined, same) refl,
      )
  | inr other ↦
      let longer : String = str_append piece (String.◌∷◌ c String.[]) in
      let (first, rest, split, joined) = split_joins longer s in
      (
        first,
        rest,
        rw other split,
        joined
            ∙ rw (codes-append piece (String.◌∷◌ c String.[]))
                (append_assoc (codes piece) (code c ∷ []) (codes s)),
      )
]

all_labels : (labels : List String) → all label labels ≡ true → All IsLabel (map codes labels)
all_labels [] h = tt
all_labels (l ∷ labels) h = (label-IsLabel l (ground arith), all_labels labels (ground arith))

host-IsName : (name : String) → host name ≡ true → IsName name
unfolding host
host-IsName name h =
    let (first, rest, split, joined) = split_joins String.[] name in
    let labels =
      all_labels (first ∷ rest) (subst (λ (l : List String). all label l ≡ true) split h) in
    (codes first, map codes rest, sym joined, labels.0, labels.1)

All-IsName : (names : List String) → All IsHost names → All IsName names
All-IsName [] h = tt
All-IsName (name ∷ names) (is, h) = (host-IsName name is, All-IsName names h)

-- Every host of a catalog that the policy admits is LDH labels joined by dots, each of one to 63
-- lowercase letters, digits and hyphens and with no hyphen at either end. So none has a wildcard,
-- a port, an underscore or an empty label.
pub provider_hosts-IsName :
    (document : Value) (hosts : List String) → provider_hosts document ≡ ok hosts → All IsName hosts
provider_hosts-IsName document hosts e = All-IsName hosts (provider_hosts-IsHost document hosts e)
