-- ===== src/Server/Turns/Clock.antt =====
-- The clock of a start request: `clock`, `valid_date` and `valid_zone` of
-- runtime/src/server/turn_input.rs.
use Prim.Native.String.{len}
use shimpz_brain.Base.{
  ℕ, zero, suc, ◌+◌, ◌*◌, ◌-◌, ◌%◌, String, Char, code, str_eq, Bool, true, not, ◌&&◌, ◌||◌, Option,
  none, some, [], ◌∷◌, leb, any, ◌==◌, if◌then◌else◌, Result, ok,
}
use shimpz_brain.Base.Results.{◌>>=◌}
use shimpz_brain.Json.Types.{Value, null}
use shimpz_brain.Server.Input.{RouteError, usize_max, between, require, closed, string}
use shimpz_brain.Server.Turns.Assistants.{Front}

abbrev pub max_zone_chars : ℕ
max_zone_chars = 64

abbrev pub default_zone : String
default_zone = "UTC"

-- `is_ascii_digit`.
abbrev pub is_digit : Char → Bool
is_digit c = between 48 57 (code c)

-- Every byte from `index` on: a hyphen at 4 and 7, a digit elsewhere.
unfoldable pub date_shaped : ℕ → String → Bool
date_shaped index String.[] = true
date_shaped index (String.◌∷◌ c s) =
    (if index == 4 || index == 7 then code c == 45 else is_digit c) && date_shaped (suc index) s

-- The number that `digits` characters write, after `skip` of them.
unfoldable pub number_from : ℕ → ℕ → ℕ → String → ℕ
number_from skip digits n String.[] = n
number_from (suc skip) digits n (String.◌∷◌ c s) = number_from skip digits n s
number_from zero zero n (String.◌∷◌ c s) = n
number_from zero (suc digits) n (String.◌∷◌ c s) =
    number_from zero digits (n * 10 + (code c - 48)) s

unfoldable pub leap : ℕ → Bool
leap year = (year % 4 == 0) && (not (year % 100 == 0) || (year % 400 == 0))

unfoldable pub days_of : ℕ → ℕ → ℕ
days_of year month =
    if any (λ m. m == month) (1 ∷ 3 ∷ 5 ∷ 7 ∷ 8 ∷ 10 ∷ 12 ∷ [])
    then 31
    else if any (λ m. m == month) (4 ∷ 6 ∷ 9 ∷ 11 ∷ [])
    then 30
    else if month == 2
    then (if leap year then 29 else 28)
    else 0

unfoldable pub valid_date : String → Bool
valid_date date =
    (len date == 10)
    && date_shaped 0 date
    && leb 1 (number_from 0 4 0 date)
    && between 1 (days_of (number_from 0 4 0 date) (number_from 5 2 0 date))
        (number_from 8 2 0 date)

module _ (front : Front) where
  unfoldable pub valid_zone : String → Bool
  valid_zone zone = str_eq zone default_zone || front.timezone zone

  unfoldable pub clock_in : Option Value → Result (Option (String × String)) RouteError
  clock_in none = ok none
  clock_in (some null) = ok none
  clock_in (some clock) = do
    _ ← closed clock ("date" ∷ "timezone" ∷ []) ("date" ∷ "timezone" ∷ [])
    date ← string clock "date" 0 usize_max
    zone ← string clock "timezone" 1 max_zone_chars
    _ ← require (valid_date date && valid_zone zone)
    ok (some (date, zone))
