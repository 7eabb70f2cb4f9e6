-- ===== src/Host.antt =====
-- What the program takes from tables that stand outside the repository: the HTML entities of
-- package html, the Unicode classes and case mapping behind `strings.ToLower` and
-- `unicode.IsLetter`, the case folding of `strings.EqualFold`, the quoting of `%q`, SHA-256 and FNV, the calendar, and the URL parser. The model takes them as one value.
use Prim.Native.Char.{Char}
use job_scout_ai.Prelude.{ℕ, String, Bool, List, Option}

-- The fields of `url.URL` that the program reads, and the `String` method.
pub record Url : Type 0 where
  pub scheme : String
  pub host : String
  pub path : String
  pub raw_query : String
  pub fragment : String
  pub opaque : String

pub record Host : Type 0 where
  pub unescape_string : String → String  -- html.UnescapeString
  pub to_lower : Char → Char  -- unicode.ToLower
  pub is_letter : Char → Bool  -- unicode.IsLetter
  pub is_digit : Char → Bool  -- unicode.IsDigit
  pub equal_fold : String → String → Bool  -- strings.EqualFold
  pub quote : String → String  -- the verb %q of package fmt
  pub sha256_hex : List String → String  -- of the texts, each followed by a zero byte
  pub fnv64a_hex : String → String  -- the digits that %x gives for hash/fnv's New64a
  pub escape_string : String → String  -- html.EscapeString
  pub parse_time : String → String → Option ℕ  -- time.Parse, by layout
  pub format_date : ℕ → String  -- (time.Time).Format("2006-01-02")
  pub parse_url : String → Option Url  -- url.Parse
  pub url_string : Url → String  -- (*URL).String
  pub hostname : Url → String  -- (*URL).Hostname
