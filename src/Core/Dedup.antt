-- ===== src/Core/Dedup.antt =====
-- internal/core/dedup.go.
use job_scout_ai.Prelude.{String, Bool, true, false, Option, none, some}
use job_scout_ai.Strings.{◌+++◌}
use job_scout_ai.Core.SourceType
use job_scout_ai.Core.SourceType.{SourceType}
use job_scout_ai.Core.Types.{Vacancy}

-- A DedupReason that is neither of the two constants is `other`.
pub data DedupReason : Type 0 where
  source_external_id content_hash other : DedupReason

pub record DedupDecision : Type 0 where
  pub is_duplicate : Bool
  pub primary_vacancy_id : String
  pub reason : String
  pub explanation : String

abbrev pub undecided : DedupDecision
undecided = record { is_duplicate = false; primary_vacancy_id = ""; reason = ""; explanation = "" }

unfoldable pub explain_dedup : DedupReason → Option Vacancy → SourceType → DedupDecision
unfolding SourceType.to_text
explain_dedup reason none source_type = undecided
explain_dedup source_external_id (some primary) source_type = record {
  is_duplicate = false;
  primary_vacancy_id = primary.id;
  reason = "SOURCE_EXTERNAL_ID";
  explanation =
      "vacancy already exists for source "
      +++ SourceType.to_text source_type
      +++ " and external id";
}
explain_dedup content_hash (some primary) source_type = record {
  is_duplicate = true;
  primary_vacancy_id = primary.id;
  reason = "CONTENT_HASH";
  explanation = "vacancy content matches primary vacancy " +++ primary.id;
}
explain_dedup other (some primary) source_type = undecided
