-- ===== src/App/Search/Counts.antt =====
-- internal/app/app.go, RunSearch: what the counters of a search say.
use job_scout_ai.Prelude.{
  ℕ, zero, suc, ◌+◌, ◌*◌, ◌≤◌, String, ◌≡◌, refl, List, [], ◌∷◌, Option, none, some, Result, ok,
  err, Error, arith, pos, pos_part, length, is_empty, leb_ℤ,
}
use job_scout_ai.Hh
use job_scout_ai.Hh.{SearchResponse, SearchVacancySummary, VacancyDetails, to_raw_vacancy}
use job_scout_ai.Core.Types.{CandidateProfile, JobSource, Time}
use job_scout_ai.Store.{World}
use job_scout_ai.Store.Exec.{Exec, ask}
use job_scout_ai.Store.Exec.Ends.{
  Ends, Triple, Keeps, Triple-bind, Triple-pure, Triple-if, Triple-ask, Triple-attempt,
  Triple-weaken,
}
use job_scout_ai.Store.Memory.{upsert_job_source}
use job_scout_ai.Store.Lists.{VacancyWithMatch}
use job_scout_ai.App.{App}
use job_scout_ai.App.Search.{
  SearchSummary, Outcome, no_results, count_result, failed, import_details, import_items,
  import_page, import_pages, run_headhunter_source, after_source, search_sources, ended, add_found,
}
use job_scout_ai.App.Search.Asked.{import-Asked, modify-Asked}
use job_scout_ai.App.Search.Counters.{
  Counted, unasked, Counted-error, Counted-import, asked_item, asked_page, more_pages,
  found_Counted,
}

-- The counters when a loop has ended.
abbrev Ended : ℕ → ℕ → Outcome → World → Type 0
Ended start bound o = Counted start bound o.summary

-- A search never ends in an error of its own: the errors it meets are in its outcome.
abbrev Total : {A : Type 0} → (World → Type 0) → Exec A → (A → World → Type 0) → Type 0
Total P m Q = Triple P m Q (λ w. ⊥)

module _ (app : App) (client : Hh.Client) (profile : CandidateProfile) (time : Time) where
  module _ (source : JobSource) (start pages : ℕ) where
    result-Counted :
        (s : SearchSummary) (r : Result VacancyWithMatch) (w : World)
        → Counted (suc start) pages s w
        → Counted start pages (count_result app client s r) w
    result-Counted s (ok item) w c =
        Counted-import app.cfg.scoring.review_threshold start pages s w item c
    result-Counted s (err e) w c = Counted-error start pages s w c

    details-Counted :
        (item : SearchVacancySummary) (s : SearchSummary) (r : Result VacancyDetails)
        → Total
            (Counted (suc start) pages s)
            (import_details app client source profile time item s r)
            (Counted start pages)
    unfolding import_details
    details-Counted item s (err e) = Triple-pure (failed s) (Counted-error start pages s)
    details-Counted item s (ok details) =
        Triple-bind (λ r. Counted (suc start) pages s) _ _
          (Triple-attempt _ (
            unasked (suc start) pages s _ λ n.
              import-Asked app source
                (to_raw_vacancy app.host details source.id item.id item.alternate_url time)
                profile))
          λ r. Triple-pure (count_result app client s r) (λ w c. result-Counted s r w c)

    items-Counted :
        (items : List SearchVacancySummary) (s : SearchSummary)
        → Total
            (Counted start pages s)
            (import_items app client source profile time items s)
            (Counted start pages)
    unfolding import_items
    items-Counted [] s = Triple-pure s (λ w c. c)
    items-Counted (item ∷ items) s =
        Triple-bind (λ r. Counted (suc start) pages s) (ask (client.get_vacancy item.id)) _
          (Triple-ask (client.get_vacancy item.id) (asked_item s))
          λ r.
            Triple-bind (Counted start pages) _ _ (details-Counted item s r) (items-Counted items)

  module _ (query : String) (source : JobSource) (start bound : ℕ) where
    page-Counted :
        (rest : SearchSummary → Exec Outcome) (page : ℕ) (s : SearchSummary)
        (r : Result SearchResponse) {pages : ℕ}
        → pages ≤ bound
        → ((s : SearchSummary) → Total (Counted start pages s) (rest s) (Ended start bound))
        → Total
            (Counted start pages s)
            (import_page app client query profile time source rest page s r)
            (Ended start bound)
    unfolding import_page
    page-Counted rest page s (err e) h next =
        Triple-pure (ended s (some e)) (λ w. more_pages bound s w h)
    page-Counted rest page s (ok resp) {pages} h next =
        let s' = add_found app client page resp s in
        Triple-if (is_empty resp.items) _ _
          (λ _.
            Triple-pure (ended s' none)
              λ w c. more_pages bound s' w h (found_Counted app client page resp s w c))
          λ _.
            Triple-bind (Counted start pages) _ _
              (Triple-weaken _ (items-Counted source start pages resp.items s')
                (λ w. found_Counted app client page resp s w) (λ t w c. c) (λ w c. c))
              λ t.
                Triple-if (leb_ℤ resp.pages (pos (page + 1))) _ _
                  (λ _. Triple-pure (ended t none) (λ w. more_pages bound t w h)) (λ _. next t)

    pages-Counted :
        (left page : ℕ) (s : SearchSummary) {pages : ℕ}
        → pages + left ≤ bound
        → Total
            (Counted start pages s)
            (import_pages app client query profile time source left page s)
            (Ended start bound)
    unfolding import_pages
    pages-Counted zero page s h =
        Triple-pure (ended s none) (λ w. more_pages bound s w (omega arith))
    pages-Counted (suc left) page s {pages} h =
        Triple-bind (λ r. Counted start (suc pages) s) _ _ (Triple-ask _ (asked_page s))
          λ r.
            page-Counted (import_pages app client query profile time source left (page + 1)) page s
              r (omega arith) (λ t. pages-Counted left (page + 1) t (omega arith))

  module _ (query : String) (start : ℕ) where
    abbrev max_pages : ℕ
    max_pages = pos_part app.cfg.hh_max_pages

    written-Counted :
        (source : JobSource) (pages : ℕ) (s : SearchSummary)
        → Keeps (Counted start pages s) (upsert_job_source source)
    unfolding upsert_job_source
    written-Counted source pages s = unasked start pages s _ (λ n. modify-Asked _)

    after-Counted :
        (source : JobSource) (rest : SearchSummary → Exec Outcome) (pages bound : ℕ)
        (s : SearchSummary) (failure : Option Error)
        → pages ≤ bound
        → ((s : SearchSummary) → Total (Counted start pages s) (rest s) (Ended start bound))
        → Total
            (Counted start pages s)
            (after_source app client query profile time source rest s failure)
            (Ended start bound)
    unfolding after_source
    after-Counted source rest pages bound s (some e) h next =
        Triple-bind (λ r. Counted start pages s) _ _ (Triple-attempt _ (written-Counted _ pages s))
          λ r. Triple-pure (ended s (some e)) (λ w. more_pages bound s w h)
    after-Counted source rest pages bound s none h next =
        Triple-bind (λ r. Counted start pages s) _ _ (Triple-attempt _ (written-Counted _ pages s))
          (λ r. next s)

    sources-Counted :
        (sources : List JobSource) (pages bound : ℕ) (s : SearchSummary)
        → pages + max_pages * length sources ≤ bound
        → Total
            (Counted start pages s)
            (search_sources app client query profile time sources s)
            (Ended start bound)
    unfolding search_sources run_headhunter_source
    sources-Counted [] pages bound s h =
        Triple-pure (ended s none) (λ w. more_pages bound s w (omega arith))
    sources-Counted (source ∷ sources) pages bound s h =
        Triple-bind (Ended start (pages + max_pages)) _ _
          (pages-Counted query source start (pages + max_pages) max_pages 0 s (omega arith))
          λ o.
            after-Counted source (search_sources app client query profile time sources)
              (pages + max_pages) bound o.summary o.failure (omega arith)
              (λ t. sources-Counted sources (pages + max_pages) bound t (omega arith))

answered :
    (start bound : ℕ) (r : Result Outcome) (w : World)
    → Ends (λ w. ⊥) (Ended start bound) (r, w)
    → (o : Outcome) × (r ≡ ok o) × Counted start bound o.summary w
answered start bound (ok o) w c = (o, refl, c)
answered start bound (err e) w c = absurd c

-- The counters of a search over some sources, from a given moment: what was imported or failed is, item by
-- item, a request, and beside these there is at most one request for each permitted page of each source.
-- An imported vacancy is a duplicate, filtered out or neither, and at most as many are recommended as
-- were imported. The search answers, whatever fails on its way.
pub search_sources-Counted :
    (app : App) (client : Hh.Client) (query : String) (profile : CandidateProfile) (time : Time)
    (sources : List JobSource) (w : World)
    → let (r, w') = search_sources app client query profile time sources no_results w in
      (o : Outcome) × (r ≡ ok o)
      × Counted w.requests (pos_part app.cfg.hh_max_pages * length sources) o.summary w'
search_sources-Counted app client query profile time sources w =
    let (r, w') = search_sources app client query profile time sources no_results w in
    answered w.requests _ r w' (
      (sources-Counted app client profile time query w.requests sources 0
          (pos_part app.cfg.hh_max_pages * length sources) no_results (omega arith)).at
        w
        (record {
          split = omega arith;
          best = omega arith;
          least = omega arith;
          most = omega arith;
        }))
