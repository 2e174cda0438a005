-- ===== src/Gateway/Callbacks/Signature/Integers.antt =====
-- src/async_gateway/security/callback_auth.py: how the timestamp is read by `int` and printed again,
-- a sign and digits. Digits are those of ASCII, and the limit that `int` has on the length of a
-- text is left out.
use Prim.Native.Char.{Char, code}
use async_task.Prelude.{
  ℕ, ◌+◌, ◌-◌, ◌*◌, Bool, true, false, not, ◌&&◌, String, Option, none, some, leb, ◌==◌,
  if◌then◌else◌,
}
use async_task.Prelude.Text.{append, is_empty, strip}

abbrev is_digit : Char → Bool
is_digit c = leb 48 (code c) && leb (code c) 57

-- Digits with single underscores between them, without the underscores; the flag is whether a digit
-- stands before.
unfoldable digits_of : Bool → String → Option String
digits_of after String.[] = if after then some String.[] else none
digits_of after (String.◌∷◌ c s) =
    let behind_digit = digits_of true s in
    let behind_bar = digits_of false s in
    if is_digit c
    then elim behind_digit [ none ↦ none | some t ↦ some (String.◌∷◌ c t) ]
    else if code c == 95 && after
    then behind_bar
    else none

abbrev signed : Bool → Option String → Option (Bool × String)
signed negative none = none
signed negative (some digits) = some (negative, digits)

abbrev sign_of : String → Option (Bool × String)
sign_of String.[] = none
sign_of (String.◌∷◌ c s) =
    if code c == 45
    then signed true (digits_of false s)
    else if code c == 43
    then signed false (digits_of false s)
    else signed false (digits_of false (String.◌∷◌ c s))

-- `int(text)`: whether it is negative, and its digits.
unfoldable pub int_of : String → Option (Bool × String)
unfolding digits_of strip
int_of text = sign_of (strip text)

unfoldable pub value_of : ℕ → String → ℕ
value_of n String.[] = n
value_of n (String.◌∷◌ c s) = value_of (n * 10 + (code c - 48)) s

abbrev or_zero : String → String
or_zero s = if is_empty s then "0" else s

unfoldable no_zeros : String → String
no_zeros String.[] = String.[]
no_zeros (String.◌∷◌ c s) = if code c == 48 then no_zeros s else String.◌∷◌ c s

-- `str(timestamp)`
unfoldable pub printed : Bool × String → String
unfolding no_zeros
printed (negative, digits) =
    let plain = no_zeros digits in
    if negative && not (is_empty plain) then append "-" plain else or_zero plain
