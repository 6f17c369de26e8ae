-- ===== src/Base/Instants.antt =====
-- The text of an instant: `toISOString` of a number of milliseconds since 1970, up to the year 9999.
use Prim.Native.Char.{Char}
use mathlib.Core.Path.{◌≡◌, refl}
use Prim.Native.Nat.{ℕ, ◌+◌, ◌-◌, ◌*◌, ◌/◌, ◌%◌}
use Prim.Native.String.{String}
use softwareoath.Base.Tests.{leb, nat_eq, if◌then◌else◌}

unfoldable pub digit : ℕ → Char
digit n =
    if nat_eq n 0
    then "0"
    else if nat_eq n 1
    then "1"
    else if nat_eq n 2
    then "2"
    else if nat_eq n 3
    then "3"
    else if nat_eq n 4
    then "4"
    else if nat_eq n 5
    then "5"
    else if nat_eq n 6
    then "6"
    else if nat_eq n 7
    then "7"
    else if nat_eq n 8
    then "8"
    else "9"

-- A number of two digits before a text.
unfoldable pub two_digits : ℕ → String → String
two_digits n s = String.◌∷◌ (digit (n / 10 % 10)) (String.◌∷◌ (digit (n % 10)) s)

-- Year, month and day of a number of days since 1970, by the cycles of 400 years that begin in March.
unfoldable pub civil_date : ℕ → ℕ × ℕ × ℕ
civil_date days =
    let of_cycle : ℕ = (days + 719468) % 146097 in
    let year_of_cycle : ℕ =
      (of_cycle - of_cycle / 1460 + of_cycle / 36524 - of_cycle / 146096) / 365 in
    let of_year : ℕ = of_cycle - (365 * year_of_cycle + year_of_cycle / 4 - year_of_cycle / 100) in
    let month : ℕ = (5 * of_year + 2) / 153 in
    let year : ℕ = year_of_cycle + (days + 719468) / 146097 * 400 in
    let day : ℕ = of_year - (153 * month + 2) / 5 + 1 in
    if leb 10 month then (year + 1, month - 9, day) else (year, month + 3, day)

-- `2026-01-02T03:04`, before the seconds.
unfoldable pub minute_text : ℕ → String → String
minute_text minutes s =
    let date = civil_date (minutes / 1440) in
    two_digits (date.0 / 100) (
      two_digits (date.0 % 100) (
        String.◌∷◌ "-" (
          two_digits date.1 (
            String.◌∷◌ "-" (
              two_digits date.2 (
                String.◌∷◌ "T" (
                  two_digits (minutes / 60 % 24)
                    (String.◌∷◌ ":" (two_digits (minutes % 60) s)))))))))

-- `date.toISOString()`
unfoldable pub iso_text : ℕ → String
iso_text t = minute_text (t / 60000) (
    String.◌∷◌ ":" (
      two_digits (t / 1000 % 60)
        (String.◌∷◌ "." (String.◌∷◌ (digit (t / 100 % 10)) (two_digits (t % 100) "Z")))))

test_iso_text : iso_text 1767323045678 ≡ "2026-01-02T03:04:05.678Z"
unfolding iso_text minute_text two_digits digit civil_date
test_iso_text = refl
