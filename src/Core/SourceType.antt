-- ===== src/Core/SourceType.antt =====
-- internal/core/types.go and parse.go: where vacancies come from. Go's string types hold any text, so
-- each enumeration of this folder has a constructor `other` for a text that is no declared constant;
-- the zero value is `other ""`.
use job_scout_ai.Prelude.{
  String, Bool, true, false, List, [], ◌∷◌, Result, ok, err, message, if◌then◌else◌,
}
use job_scout_ai.Strings.{◌+++◌}
use job_scout_ai.Core.Spelling.{read}

pub data SourceType : Type 0 where
  headhunter_api manual_url telegram_message email_import company_career_page : SourceType
  other : String → SourceType

unfoldable pub to_text : SourceType → String
to_text headhunter_api = "HEADHUNTER_API"
to_text manual_url = "MANUAL_URL"
to_text telegram_message = "TELEGRAM_MESSAGE"
to_text email_import = "EMAIL_IMPORT"
to_text company_career_page = "COMPANY_CAREER_PAGE"
to_text (other s) = s

abbrev declared : List SourceType
declared = headhunter_api ∷ manual_url ∷ telegram_message ∷ email_import ∷ company_career_page ∷ []

-- The conversion SourceType(value).
unfoldable pub of_text : String → SourceType
unfolding read to_text
of_text = read to_text other declared

unfoldable pub valid : SourceType → Bool
valid (other s) = false
valid headhunter_api = true
valid _ = true

unfoldable pub parse : String → Result SourceType
unfolding of_text valid
parse value =
    let t = of_text value in
    if valid t then ok t else err (message ("invalid source type: " +++ value))
