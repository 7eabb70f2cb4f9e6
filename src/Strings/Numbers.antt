-- ===== src/Strings/Numbers.antt =====
-- strconv: reading an int64 and a bool from a text.
use Prim.Native.Char.{code}
use Prim.Native.String.{[], ◌∷◌}
use job_scout_ai.Prelude.{
  ℕ, ◌+◌, ◌-◌, ◌*◌, ◌^◌, String, Bool, true, false, ◌&&◌, ◌||◌, Option, none, some, ◌==◌,
  if◌then◌else◌, ltb, leb, eqb, ℤ, pos, negsuc, sub_ℕ, ◌≡◌, refl,
}
use job_scout_ai.Strings.{is_nil}

-- A value, and whether `err` is nil beside it.
abbrev pub Parsed : Type 0
Parsed = ℤ × Bool

-- The number that the digits stand for, behind those read before.
unfoldable pub digits_value : ℕ → String → Option ℕ
digits_value acc [] = some acc
digits_value acc (c ∷ s) =
    let rest = digits_value (acc * 10 + (code c - 48)) s in
    if leb 48 (code c) && leb (code c) 57 then rest else none

abbrev positive : Option ℕ → Parsed
positive none = (pos 0, false)
positive (some n) = if ltb n (2 ^ 63) then (pos n, true) else (pos (2 ^ 63 - 1), false)

abbrev negative : Option ℕ → Parsed
negative none = (pos 0, false)
negative (some n) = if leb n (2 ^ 63) then (sub_ℕ 0 n, true) else (sub_ℕ 0 (2 ^ 63), false)

abbrev some_digits : String → Option ℕ
unfolding digits_value
some_digits s = if is_nil s then none else digits_value 0 s

-- strconv.Atoi, and strconv.ParseInt in base 10 with 64 bits: a text that is no number gives 0, a number
-- out of range the end of the range.
unfoldable pub atoi : String → Parsed
unfolding digits_value
atoi [] = (pos 0, false)
atoi (c ∷ s) =
    if eqb (code c) b'-'
    then negative (some_digits s)
    else if eqb (code c) b'+'
    then positive (some_digits s)
    else positive (some_digits (c ∷ s))

-- strconv.ParseBool
unfoldable pub parse_bool : String → Option Bool
parse_bool s =
    if s == "1" || s == "t" || s == "T" || s == "true" || s == "TRUE" || s == "True"
    then some true
    else if s == "0" || s == "f" || s == "F" || s == "false" || s == "FALSE" || s == "False"
    then some false
    else none

atoi_negative : atoi "-45" ≡ (negsuc 44, true)
unfolding atoi
atoi_negative = refl

atoi_too_large : atoi "9223372036854775808" ≡ (pos 9223372036854775807, false)
unfolding atoi
atoi_too_large = refl
