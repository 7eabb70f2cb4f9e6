-- ===== src/Core/Decimal.antt =====
-- strconv.Itoa, and the verb %d of package fmt.
use Prim.Native.Char.{Char}
use Prim.Native.String.{◌∷◌}
use job_scout_ai.Prelude.{
  ℕ, zero, suc, ◌/◌, ◌%◌, ◌<◌, ◌≡◌, refl, String, arith, ltb, if◌then◌else◌, ℤ, pos, negsuc,
}
use job_scout_ai.Strings.{◌+++◌}

abbrev pub digit : ℕ → Char
digit zero = "0"
digit (suc zero) = "1"
digit (suc (suc zero)) = "2"
digit (suc (suc (suc zero))) = "3"
digit (suc (suc (suc (suc zero)))) = "4"
digit (suc (suc (suc (suc (suc zero))))) = "5"
digit (suc (suc (suc (suc (suc (suc zero)))))) = "6"
digit (suc (suc (suc (suc (suc (suc (suc zero))))))) = "7"
digit (suc (suc (suc (suc (suc (suc (suc (suc zero)))))))) = "8"
digit _ = "9"

-- The digits of `n` in front of `rest`. Each round drops a digit, so `n` rounds are enough.
pub digits_from : ℕ → ℕ → String → String
digits_from zero n rest = digit (n % 10) ∷ rest
digits_from (suc fuel) n rest =
    let more = digits_from fuel (n / 10) (digit (n % 10) ∷ rest) in
    if ltb n 10 then digit (n % 10) ∷ rest else more

-- Any more fuel gives the same digits.
pub digits_from_fuel :
    (f g n : ℕ) (rest : String)
    → n < suc f
    → n < suc g
    → digits_from f n rest ≡ digits_from g n rest
unfolding digits_from
digits_from_fuel zero zero n rest h k = refl
digits_from_fuel zero (suc g) n rest h k = ground arith
digits_from_fuel (suc f) zero n rest h k = ground arith
digits_from_fuel (suc f) (suc g) n rest h k =
    ground (arith, digits_from_fuel f g (n / 10) (digit (n % 10) ∷ rest))

unfoldable pub itoa : ℤ → String
unfolding digits_from
itoa (pos n) = digits_from n n ""
itoa (negsuc n) = "-" +++ digits_from (suc n) (suc n) ""

itoa_test : itoa (pos 1205) ≡ "1205"
unfolding itoa
itoa_test = refl
