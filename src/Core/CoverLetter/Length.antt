-- ===== src/Core/CoverLetter/Length.antt =====
-- The letter of internal/core/cover_letter.go fits into the 1200 runes that the program allows.
use Prim.Native.Char.{Char}
use Prim.Native.String.{[], ◌∷◌, count}
use text.Mathlib.TextLemmas.{length-cons}
use job_scout_ai.Prelude.{ℕ, zero, suc, ◌≤◌, String, Bool, arith}
use job_scout_ai.Host.{Host}
use job_scout_ai.Strings.{is_space, trim_left, trim_right, trim_space, take_runes, join}
use job_scout_ai.Core.CoverLetter.{CoverLetterInput, letter_parts, lengthen, cut, generate}

count-take_runes : (n : ℕ) (s : String) → count (take_runes n s) ≤ n
unfolding take_runes
count-take_runes zero s = omega arith
count-take_runes (suc n) [] = omega arith
count-take_runes (suc n) (c ∷ s) =
    omega (arith, length-cons c (take_runes n s), count-take_runes n s)

count-trim_left : (p : Char → Bool) (s : String) → count (trim_left p s) ≤ count s
unfolding trim_left
count-trim_left p [] = omega arith
count-trim_left p (c ∷ s) = ground (arith, length-cons c s, count-trim_left p s)

count-trim_right : (p : Char → Bool) (s : String) → count (trim_right p s) ≤ count s
unfolding trim_right
count-trim_right p [] = omega arith
count-trim_right p (c ∷ s) =
    ground (arith, length-cons c s, length-cons c (trim_right p s), count-trim_right p s)

count-trim_space : (s : String) → count (trim_space s) ≤ count s
unfolding trim_space
count-trim_space s =
    omega (arith, count-trim_right is_space (trim_left is_space s), count-trim_left is_space s)

count-cut : (s : String) → count (cut s) ≤ 1200
unfolding cut
count-cut s = ground (arith, count-trim_space (take_runes 1200 s), count-take_runes 1200 s)

-- Every letter has at most 1200 runes, whatever the vacancy, the resume and the reasons.
pub count-generate : (h : Host) (input : CoverLetterInput) → count (generate h input) ≤ 1200
unfolding generate
count-generate h input = count-cut (lengthen (join (letter_parts h input) "\n\n"))
