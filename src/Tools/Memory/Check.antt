-- ===== src/Tools/Memory/Check.antt =====
-- The memory guard's limits and the independent check (runtime/src/tools/memory.rs).
use shimpz_brain.Base.{
  ap, is_nil, ◌≤◌, ◌+◌, Bool, true, false, not, Option, none, some, List, [], ◌∷◌, ◌≡◌, ◌≢◌, ◌⊎◌,
  inl, inr, refl, any, length, All, is_some, ok, arith, Bool-cases, ◌==◌, Option-cases, map, filter,
  collect, collect-map, eq_iff, ◌∙◌, sym,
}
use shimpz_brain.Json.Types.{
  Value, null, bool, num, str, arr, obj, Values, nil, cons, end, member, values, of_values,
  values-of_values, get,
}
use shimpz_brain.Json.{has_exactly, array_of, as_array, members}
use shimpz_brain.Conversation.{ToolCall, AssistantMessage, Message}
use shimpz_brain.Python.{Python}
use shimpz_brain.Team.{Team}
use shimpz_brain.Tools.Refusal.{latest}
use shimpz_brain.Tools.Memory.{
  Change, calls_to_tool, current_message, change, proposed, review, max_memory_changes, keep,
  lasting, accepted, flag_of,
}

All-keep {κ} :
    (P : Change → Type κ) (cs : List Change) (flags : List Bool) → All P cs → All P (keep cs flags)
All-keep P [] flags h = tt
All-keep P (c ∷ cs) [] h = tt
All-keep P (c ∷ cs) (true ∷ flags) (p, h) = (p, All-keep P cs flags h)
All-keep P (c ∷ cs) (false ∷ flags) (p, h) = All-keep P cs flags h

-- Whatever all proposals have, the changes that the check keeps have.
pub accepted-All {κ} :
    (P : Change → Type κ) (changes : List Change) (verdict : Option Value)
    → All P changes
    → All P (accepted changes verdict)
unfolding accepted
accepted-All P changes verdict h = elim (Option-cases (lasting verdict)) [
  | inl e ↦ rw (e, accepted) tt
  | inr (flags, e) ↦ elim (Bool-cases (length flags == length changes)) [
    | inr q ↦ rw (e, accepted) (rw q tt)
    | inl q ↦ rw (e, accepted) (rw q (All-keep P changes flags h))
  ]
]

-- The answer of the check that the source asks for: one boolean for each proposal under `lasting`.
abbrev pub lasting_value : List Bool → Value
lasting_value flags = obj (member "lasting" (arr (of_values (map bool flags))) end)

abbrev pub pair_up : List Change → List Bool → List (Change × Bool)
pair_up [] flags = []
pair_up (c ∷ cs) [] = []
pair_up (c ∷ cs) (f ∷ flags) = (c, f) ∷ pair_up cs flags

-- The changes whose boolean is `true`.
abbrev pub confirmed : List Change → List Bool → List Change
confirmed changes flags = map (λ p. p.0) (filter (λ p. p.1) (pair_up changes flags))

-- A verdict of one boolean for each of the changes.
abbrev pub Answers : List Change → Option Value → Type 0
Answers changes verdict =
    (flags : List Bool) × (verdict ≡ some (lasting_value flags)) × (length flags ≡ length changes)

keep-confirmed : (cs : List Change) (flags : List Bool) → keep cs flags ≡ confirmed cs flags
keep-confirmed [] flags = refl
keep-confirmed (c ∷ cs) [] = refl
keep-confirmed (c ∷ cs) (true ∷ flags) = ap (λ (l : List Change). c ∷ l) (keep-confirmed cs flags)
keep-confirmed (c ∷ cs) (false ∷ flags) = keep-confirmed cs flags

flag_is : (v : Value) (b : Bool) → flag_of v ≡ some b → v ≡ bool b
unfolding flag_of
flag_is null b e = absurd (cc)
flag_is (bool c) b e = cc
flag_is (num n) b e = absurd (cc)
flag_is (str s) b e = absurd (cc)
flag_is (arr vs) b e = absurd (cc)
flag_is (obj ms) b e = absurd (cc)

flags_are :
    (vs : Values) (flags : List Bool)
    → collect flag_of (values vs) ≡ some flags
    → vs ≡ of_values (map bool flags)
flags_are nil [] e = refl
flags_are nil (f ∷ flags) e = absurd (cc)
flags_are (cons v vs) [] e = absurd (ground arith)
flags_are (cons v vs) (f ∷ flags) e =
    let first = flag_is v f (ground arith) in
    let rest = flags_are vs flags (ground arith) in rw (first, rest) refl

lasting_shape :
    (v : Value) (flags : List Bool) → lasting (some v) ≡ some flags → v ≡ lasting_value flags
unfolding lasting has_exactly array_of as_array members get
lasting_shape null flags e = absurd (cc)
lasting_shape (bool b) flags e = absurd (cc)
lasting_shape (num n) flags e = absurd (cc)
lasting_shape (str s) flags e = absurd (cc)
lasting_shape (arr vs) flags e = absurd (cc)
lasting_shape (obj end) flags e = absurd (cc)
lasting_shape (obj (member key null end)) flags e = absurd (ground arith)
lasting_shape (obj (member key (arr vs) end)) flags e =
    let named : key ≡ "lasting" = grind (arith, eq_iff) in
    let items = flags_are vs flags (ground arith) in rw (named, items) refl
lasting_shape (obj (member key w end)) flags e = absurd (ground arith)
lasting_shape (obj (member key v (member other w ms))) flags e = absurd (ground arith)

lasting-lasting_value : (flags : List Bool) → lasting (some (lasting_value flags)) ≡ some flags
unfolding lasting has_exactly array_of as_array members get flag_of
lasting-lasting_value flags =
    rw (values-of_values (map bool flags)) (collect-map bool flag_of (λ b. refl) flags)

lasting_given :
    (verdict : Option Value) (flags : List Bool)
    → lasting verdict ≡ some flags
    → verdict ≡ some (lasting_value flags)
unfolding lasting
lasting_given none flags e = absurd (ground arith)
lasting_given (some v) flags e = ap some (lasting_shape v flags e)

-- A verdict is an answer when it is exactly an object whose one member `lasting` lists as many
-- booleans as there are proposals. From an answer the check keeps the proposals whose boolean is
-- `true`, in their order; from anything else, and without a verdict, it keeps nothing.
pub accepted_checks :
    (changes : List Change) (verdict : Option Value)
    → ((flags : List Bool) × (verdict ≡ some (lasting_value flags))
        × (length flags ≡ length changes)
        × (accepted changes verdict ≡ confirmed changes flags))
      ⊎ ((accepted changes verdict ≡ []) × ¬ (Answers changes verdict))
unfolding accepted
accepted_checks changes verdict = elim (Option-cases (lasting verdict)) [
  | inl e ↦ inr (
    rw (e, accepted) refl,
    λ (flags, given, same). let read = lasting-lasting_value flags in absurd (cc),
  )
  | inr (flags, e) ↦ elim (Bool-cases (length flags == length changes)) [
    | inr q ↦ inr (
      rw (e, accepted) (rw q refl),
      λ (other, given, same).
          let read = lasting-lasting_value other in
          let equal : some other ≡ some flags = sym read ∙ (ap lasting (sym given) ∙ e) in
          absurd (ground arith),
    )
    | inl q ↦ inl (
      flags,
      lasting_given verdict flags e,
      ground arith,
      rw (e, accepted) (rw q (keep-confirmed changes flags)),
    )
  ]
]

is_nil_of_ne : (calls : List ToolCall) → calls ≢ [] → is_nil calls ≡ false
is_nil_of_ne [] h = absurd (h refl)
is_nil_of_ne (c ∷ calls) h = refl

All-of_none_refused :
    (p : ToolCall → Bool) (calls : List ToolCall)
    → any (λ c. not (p c)) calls ≡ false
    → All (λ c. p c ≡ true) calls
All-of_none_refused p [] h = tt
All-of_none_refused p (c ∷ calls) h = (ground arith, All-of_none_refused p calls (ground arith))

module _ (py : Python) (team : Team) where
  -- A response that proposes memory changes passes the guard only before any Action of the request
  -- ran, when each proposal is a valid change of the current message, and when all the changes of
  -- the turn together are at most 32.
  pub memory_review_pass :
      (messages : List Message) (allowed : Bool) (turn : AssistantMessage)
      → latest messages ≡ some turn
      → calls_to_tool turn ≢ []
      → review py team messages allowed ≡ ok none
      → (allowed ≡ true)
        × All
            (λ c.
              is_some (change py team (ToolCall.arguments c) (current_message py team messages))
              ≡ true)
            (calls_to_tool turn)
        × (length (proposed py team messages) + length (calls_to_tool turn) ≤ max_memory_changes)
  unfolding review
  memory_review_pass messages allowed turn e some_calls h =
      let calls = calls_to_tool turn in
      let there = is_nil_of_ne calls some_calls in
      (
        ground arith,
        All-of_none_refused
            (λ c.
              is_some (change py team (ToolCall.arguments c) (current_message py team messages)))
            calls (ground arith),
        ground arith,
      )
