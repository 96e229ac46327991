-- ===== src/Server/Turns/Wellformed.antt =====
-- What an admitted start and an admitted resume request are: runtime/src/server/turn_input.rs,
-- `start` and `resume`.
use Prim.Native.String.{count}
use shimpz_brain.Base.{
  ◌≤◌, ◌≡◌, subst, arith, String, Bool, false, Option, some, none, List, [], ◌∷◌, ◌++◌, any, All,
  length, is_empty, is_nil, ok, if◌then◌else◌,
}
use shimpz_brain.Base.Results.{>>=-eq-ok}
use shimpz_brain.Json.Types.{Value, null, bool, num, str, arr, obj, get}
use shimpz_brain.Turn.Prepare.Inputs.{TurnRequest, StartRequest, ResumeRequest}
use shimpz_brain.Server.Input.{refuse, closed, string, object_of}
use shimpz_brain.Server.Turns.{
  max_message_chars, context_fields, locale_in, conversation_shape, context_shape,
  admit_conversation, build, at_clock, start, results_in, resume, max_action_requests,
}
use shimpz_brain.Server.Turns.Assistants.{Front}
use shimpz_brain.Server.Turns.Clock.{clock_in}
use shimpz_brain.Server.Turns.Quoted.{
  or_left, or_right, string_short, IsQuoted, conversation-IsQuoted,
}
use shimpz_brain.Server.Turns.Bounds.{else_ok, IsTurn, build-IsTurn}

any-All : {A : Type 0} (p : A → Bool) (xs : List A) → any p xs ≡ false → All (λ x. p x ≡ false) xs
any-All p [] h = tt
any-All p (x ∷ xs) h = (or_left (p x) (any p xs) h, any-All p xs (or_right (p x) (any p xs) h))

module _ (front : Front) where
  -- An admitted start: its turn, a message that is neither blank nor too long, and the quoted history.
  pub record IsStart (r : StartRequest) : Type 0 where
    pub turn : IsTurn front r.turn
    pub words : is_empty (front.py.strip r.message) ≡ false
    pub short : count r.message ≤ max_message_chars
    pub quoted : IsQuoted front r.conversation

  -- An admitted resume: its turn, and one to 64 results, each under a name.
  pub record IsResume (r : ResumeRequest) : Type 0 where
    pub turn : IsTurn front r.turn
    pub some_results : is_nil r.results ≡ false
    pub few : length r.results ≤ max_action_requests
    pub named : All (λ (result : String × Value). is_empty result.0 ≡ false) r.results

  dated-IsTurn :
      (t : TurnRequest) (clock : Option (String × String)) (locale : Option String)
      → IsTurn front t
      → IsTurn front
          (record t { context = at_clock front clock (record t.context { locale = locale }) })
  dated-IsTurn t none locale is = record {
    few = is.few;
    apart = is.apart;
    assistants = is.assistants;
    files = is.files;
    chat = is.chat;
  }
  dated-IsTurn t (some (date, zone)) locale is = record {
    few = is.few;
    apart = is.apart;
    assistants = is.assistants;
    files = is.files;
    chat = is.chat;
  }

  -- A start request that is admitted is well formed: at most 16 Assistants with different ids, each
  -- with at most 128 Actions of different ids and schemas of at most 32,768 values together, a chat
  -- model of its provider, attachments within their bounds, a message that is not blank and has at
  -- most 65,536 characters, and at most eight quoted entries, each of the user or the assistant and
  -- of at most 512 characters of admitted text, with at most 4,096 characters together.
  pub start-IsStart : (body : Value) (r : StartRequest) → start front body ≡ ok r → IsStart r
  unfolding start string
  start-IsStart body r h =
      let (_, _, h1) =
        >>=-eq-ok
          (closed body
            (context_fields ++ ("message" ∷ "locale" ∷ "turn_clock" ∷ "conversation" ∷ []))
            (context_fields ++ ("message" ∷ "locale" ∷ "conversation" ∷ [])))
          _ h in
      let (message, read, h2) = >>=-eq-ok (string body "message" 1 max_message_chars) _ h1 in
      let (locale, _, h3) = >>=-eq-ok (locale_in (get body "locale")) _ h2 in
      let (clock, _, h4) = >>=-eq-ok (clock_in front (get body "turn_clock")) _ h3 in
      let (shown, listed, h5) = >>=-eq-ok (conversation_shape body) _ h4 in
      let (shape, _, h6) = >>=-eq-ok (context_shape front body) _ h5 in
      let (turn, built, h7) = >>=-eq-ok (build front body shape) _ h6 in
      let (_, filled, h8) =
        >>=-eq-ok
          (if is_empty (front.py.strip message) then refuse "invalid chat message" else ok tt) _
          h7 in
      let (kept, fits, last) = >>=-eq-ok (admit_conversation front shown) _ h8 in
      let (words, _) =
        else_ok (is_empty (front.py.strip message)) "invalid chat message" tt tt filled in
      let found : StartRequest = record {
        turn = record turn {
          context = at_clock front clock (record turn.context { locale = locale });
        };
        message = message;
        conversation = kept;
      } in
      let same : found ≡ r = ground arith in
      subst (λ (q : StartRequest). IsStart q) same
        (record {
          turn = dated-IsTurn turn clock locale (build-IsTurn front body shape turn built);
          words = words;
          short = string_short (get body "message") 1 max_message_chars message read;
          quoted = conversation-IsQuoted front body shown kept listed fits;
        })

  results_few :
      (value : Value) (results : List (String × Value))
      → results_in front value ≡ ok results
      → (is_nil results ≡ false) × (length results ≤ max_action_requests)
  unfolding results_in
  results_few null results h = absurd (ground arith)
  results_few (bool b) results h = absurd (ground arith)
  results_few (num n) results h = absurd (ground arith)
  results_few (str s) results h = absurd (ground arith)
  results_few (arr vs) results h = absurd (ground arith)
  results_few (obj ms) results h = ground arith

  -- A resume request that is admitted is well formed: at most 16 Assistants with different ids, each
  -- with at most 128 Actions of different ids and schemas of at most 32,768 values together, a chat
  -- model of its provider, attachments within their bounds, and one to 64 results, each under a
  -- name.
  pub resume-IsResume : (body : Value) (r : ResumeRequest) → resume front body ≡ ok r → IsResume r
  unfolding resume
  resume-IsResume body r h =
      let (_, _, h1) =
        >>=-eq-ok
          (closed body (context_fields ++ ("results" ∷ [])) (context_fields ++ ("results" ∷ []))) _
          h in
      let (found, _, h2) = >>=-eq-ok (object_of body "results") _ h1 in
      let (results, listed, h3) = >>=-eq-ok (results_in front found) _ h2 in
      let (shape, _, h4) = >>=-eq-ok (context_shape front body) _ h3 in
      let (turn, built, h5) = >>=-eq-ok (build front body shape) _ h4 in
      let (named, same) =
        else_ok (any (λ (result : String × Value). is_empty result.0) results)
          "invalid Action resume results" (record { turn = turn; results = results }) r h5 in
      let (filled, few) = results_few found results listed in
      subst (λ (q : ResumeRequest). IsResume q) same
        (record {
          turn = build-IsTurn front body shape turn built;
          some_results = filled;
          few = few;
          named = any-All (λ (result : String × Value). is_empty result.0) results named;
        })
