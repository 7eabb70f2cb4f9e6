-- ===== src/Strings.antt =====
-- The functions of Go's package `strings` that the program calls, over native texts. Invalid UTF-8
-- is not represented, so a text is its sequence of code points.
pub mod Trim
pub mod Affixes
pub mod Numbers
use Prim.Native.Char.{Char, code}
use Prim.Native.String
use Prim.Native.String.{[], ◌∷◌}
use job_scout_ai.Prelude.{
  ℕ, String, [], ◌∷◌, Bool, true, false, ◌&&◌, ◌||◌, List, leb, eqb, if◌then◌else◌,
}

-- unicode.IsSpace
unfoldable pub is_space : Char → Bool
is_space c =
    let n = code c in
    (leb 9 n && leb n 13)
    || eqb n 32
    || eqb n 0x85
    || eqb n 0xa0
    || eqb n 0x1680
    || (leb 0x2000 n && leb n 0x200a)
    || eqb n 0x2028
    || eqb n 0x2029
    || eqb n 0x202f
    || eqb n 0x205f
    || eqb n 0x3000

infixr 60 ◌+++◌
abbrev pub ◌+++◌ : String → String → String
s +++ t = String.◌++◌ s t

abbrev pub is_nil : String → Bool
is_nil [] = true
is_nil (c ∷ s) = false

unfoldable pub trim_left : (Char → Bool) → String → String
trim_left p [] = []
trim_left p (c ∷ s) = let rest = trim_left p s in if p c then rest else c ∷ s

unfoldable pub trim_right : (Char → Bool) → String → String
trim_right p [] = []
trim_right p (c ∷ s) = let rest = trim_right p s in if is_nil rest && p c then [] else c ∷ rest

-- strings.TrimSpace
unfoldable pub trim_space : String → String
unfolding trim_left trim_right is_space
trim_space s = trim_right is_space (trim_left is_space s)

-- strings.HasPrefix(s, t), with the prefix first
unfoldable pub has_prefix : String → String → Bool
has_prefix [] s = true
has_prefix (c ∷ t) [] = false
has_prefix (c ∷ t) (d ∷ s) = eqb (code c) (code d) && has_prefix t s

-- strings.Contains(s, t)
unfoldable pub contains : String → String → Bool
unfolding has_prefix
contains [] t = has_prefix t []
contains (c ∷ s) t = has_prefix t (c ∷ s) || contains s t

-- strings.Join
unfoldable pub join : List String → String → String
join [] sep = []
join (s ∷ []) sep = s
join (s ∷ t ∷ r) sep = s +++ sep +++ join (t ∷ r) sep

abbrev cons_word : String → List String → List String
cons_word [] r = r
cons_word (c ∷ w) r = (c ∷ w) ∷ r

-- The word that `s` begins with, and the words behind the space that ends it.
fields_from : (Char → Bool) → String → String × List String
fields_from p [] = ([], [])
fields_from p (c ∷ s) =
    let (word, rest) = fields_from p s in
    if p c then ([], cons_word word rest) else (c ∷ word, rest)

-- strings.Fields
unfoldable pub fields : String → List String
unfolding fields_from is_space
fields s = let (word, rest) = fields_from is_space s in cons_word word rest

abbrev cons_first : Char → List String → List String
cons_first c [] = (c ∷ []) ∷ []
cons_first c (w ∷ r) = (c ∷ w) ∷ r

-- strings.Split at a separator of one character
unfoldable pub split : String → Char → List String
split [] sep = [] ∷ []
split (c ∷ s) sep =
    let rest = split s sep in if eqb (code c) (code sep) then [] ∷ rest else cons_first c rest

-- strings.Map, and so strings.ToLower over unicode.ToLower
unfoldable pub map_chars : (Char → Char) → String → String
map_chars f [] = []
map_chars f (c ∷ s) = f c ∷ map_chars f s

-- strings.TrimSuffix at a suffix of one character
unfoldable pub trim_suffix : String → Char → String
trim_suffix [] d = []
trim_suffix (c ∷ []) d = if eqb (code c) (code d) then [] else c ∷ []
trim_suffix (c ∷ e ∷ s) d = c ∷ trim_suffix (e ∷ s) d

-- The first runes: string([]rune(s)[:n])
unfoldable pub take_runes : ℕ → String → String
take_runes ℕ.zero s = []
take_runes (ℕ.suc n) [] = []
take_runes (ℕ.suc n) (c ∷ s) = c ∷ take_runes n s
