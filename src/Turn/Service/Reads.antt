-- ===== src/Turn/Service/Reads.antt =====
-- The rows that a finished run's commit writes are read back (runtime/src/turn/threads.rs: `load`
-- and `delivery` after `commit`), and its delivery answers the resume that it was kept for.
use shimpz_brain.Base.{
  ◌≡◌, refl, ok, arith, String, true, false, Option, none, some, List, [], ◌∷◌, map, collect,
  collect-map, All, is_nil, eq_refl, ◌>>=◌,
}
use shimpz_brain.Json.Types.{Value, values-of_values}
use shimpz_brain.Json.{array, text, as_str, as_array}
use shimpz_brain.Conversation.{Message, from_value}
use shimpz_brain.Conversation.RoundTrip.{IsStored, from_value-IsStored, from_value-to_value}
use shimpz_brain.Turn.Prepare.Inputs.{Workshop}
use shimpz_brain.Turn.Prepare.Resume.{applied, asked}
use shimpz_brain.Turn.Rows.{thread_row, row_thread, delivery_row, row_delivery, or_state}
use shimpz_brain.Turn.Service.Requests.{answered_of, same_texts, delivered_of}
use shimpz_brain.Turn.Service.Recovery.{Finished, committed_thread, cleared_thread, kept_turn}
use shimpz_brain.Turn.Service.Worker.{Worker}

same_texts_refl : (ids : List String) → same_texts ids ids ≡ true
unfolding same_texts
same_texts_refl [] = refl
same_texts_refl (id ∷ ids) = rw (eq_refl id) (same_texts_refl ids)

strings_back : (ids : List String) → collect as_str (map text ids) ≡ some ids
strings_back ids = collect-map text as_str (unfold text as_str in λ s. refl) ids

applied-not_nil :
    (ids : List String) (pending : List _) (known : List String)
    → applied ids pending known ≡ true
    → is_nil ids ≡ false
unfolding applied
applied-not_nil ids pending known h = ground arith

IsStored-read :
    (o : Option Value) (ms : List Message) → (o >>= from_value) ≡ some ms → All IsStored ms
IsStored-read none ms h = absurd (cc)
IsStored-read (some v) ms h = from_value-IsStored v ms h

module _ (shop : Workshop) (worker : Worker) (f : Finished shop) where
  pub reads_committed :
      row_thread shop.py (thread_row shop.py (committed_thread shop worker f))
      ≡ ok (committed_thread shop worker f)
  unfolding row_thread thread_row or_state
  reads_committed =
      rw (f.history_text, from_value-to_value f.messages (IsStored-read _ f.messages f.history))

  pub reads_cleared :
      row_thread shop.py (thread_row shop.py (cleared_thread shop worker f))
      ≡ ok (cleared_thread shop worker f)
  unfolding row_thread thread_row or_state
  reads_cleared =
      rw (f.history_text, from_value-to_value f.messages (IsStored-read _ f.messages f.history))

  pub reads_kept :
      row_delivery shop.py (delivery_row shop.py (kept_turn shop worker f))
      ≡ ok (kept_turn shop worker f)
  unfolding row_delivery delivery_row or_state as_array array
  reads_kept = rw (
    f.answered_text,
    values-of_values (map text (answered_of f.request)),
    strings_back (answered_of f.request),
    f.turn_text,
  )

  pub delivers_kept :
      delivered_of (some (kept_turn shop worker f)) (answered_of f.request) ≡ ok f.turn
  unfolding delivered_of
  delivers_kept = rw (
    applied-not_nil (answered_of f.request) [] (asked shop.py f.events) f.asked_for,
    same_texts_refl (answered_of f.request),
  )
