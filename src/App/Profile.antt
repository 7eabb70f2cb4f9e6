-- ===== src/App/Profile.antt =====
-- internal/app/app.go: the profile, and the sources that the service seeds.
use job_scout_ai.Prelude.{
  String, [], ◌∷◌, Bool, true, false, List, Option, none, some, any, find, if◌then◌else◌, ◌==◌,
  Result, ok, err, message,
}
use job_scout_ai.Strings.{◌+++◌}
use job_scout_ai.Core.Types.{CandidateProfile, JobSource, Value, text, number, Time, is_zero}
use job_scout_ai.Core.SourceType
use job_scout_ai.Core.SourceType.{SourceType}
use job_scout_ai.Store.Exec.{Exec, pure, raise, attempt, new_id, ◌>>=◌, ◌>>◌}
use job_scout_ai.Store.Memory.{
  get_candidate_profile, upsert_candidate_profile, upsert_job_source, id_or_new,
}
use job_scout_ai.Store.Lists.{list_job_sources}
use job_scout_ai.App.{App}

abbrev current_id : Result CandidateProfile → String → String
current_id (ok current) id = current.id
current_id (err e) id = id

abbrev current_created : Result CandidateProfile → Time → Time
current_created (ok current) t = if is_zero t then current.created_at else t
current_created (err e) t = t

-- The two reads of the current profile answer alike, since nothing is written between them.
unfoldable pub save_profile : CandidateProfile → Exec CandidateProfile
unfolding ◌>>=◌ attempt get_candidate_profile id_or_new upsert_candidate_profile
save_profile profile = do
  current ← attempt get_candidate_profile
  id ← id_or_new (current_id current profile.id)
  upsert_candidate_profile
      (record profile { id = id; created_at = current_created current profile.created_at })
  get_candidate_profile

abbrev pub is_type : SourceType → JobSource → Bool
is_type type source = SourceType.to_text source.type == SourceType.to_text type

unfoldable pub has_source_type : List JobSource → SourceType → Bool
unfolding any SourceType.to_text
has_source_type sources type = any (is_type type) sources

unfoldable pub new_source : String → SourceType → String → List (String × Value) → JobSource
new_source id type name configuration = record {
  id = id;
  type = type;
  name = name;
  enabled = true;
  configuration = configuration;
  last_successful_sync_at = none;
  last_error_at = none;
  created_at = 0;
  updated_at = 0;
}

unfoldable pub seed_source :
    List JobSource → SourceType → String → List (String × Value) → Exec (Unit {0})
unfolding ◌>>=◌ has_source_type new_source upsert_job_source
seed_source sources type name configuration =
    if has_source_type sources type
    then pure tt
    else do id ← new_id; upsert_job_source (new_source id type name configuration)

unfoldable pub seed_core_sources : App → Exec (Unit {0})
unfolding ◌>>=◌ list_job_sources seed_source
seed_core_sources app = do
  sources ← list_job_sources false
  seed_source sources SourceType.headhunter_api "HeadHunter"
      (("host", text "hh.ru") ∷ ("pageSize", number app.cfg.hh_page_size) ∷ [])
  seed_source sources SourceType.manual_url "Manual URL" []

-- The switch of ensureSourceByType: a source made on the spot has no page size.
unfoldable pub make_source : SourceType → Exec JobSource
unfolding ◌>>=◌ new_source upsert_job_source SourceType.to_text
make_source SourceType.headhunter_api = do
  id ← new_id
  let source = new_source id SourceType.headhunter_api "HeadHunter" (("host", text "hh.ru") ∷ [])
  upsert_job_source source
  pure source
make_source SourceType.manual_url = do
  id ← new_id
  let source = new_source id SourceType.manual_url "Manual URL" []
  upsert_job_source source
  pure source
make_source type = raise (message ("unsupported source type: " +++ SourceType.to_text type))

abbrev pub or_made : SourceType → Option JobSource → Exec JobSource
or_made type (some source) = pure source
or_made type none = make_source type

unfoldable pub ensure_source_by_type : SourceType → Exec JobSource
unfolding ◌>>=◌ list_job_sources find make_source SourceType.to_text
ensure_source_by_type type = do
  sources ← list_job_sources false
  or_made type (find (is_type type) sources)
