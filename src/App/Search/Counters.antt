-- ===== src/App/Search/Counters.antt =====
-- internal/app/app.go, RunSearch: the counters of a search against its requests.
use mathlib.Core.Path.{subst}
use job_scout_ai.Prelude.{
  ℕ, zero, suc, ◌+◌, ◌≤◌, String, ◌≡◌, refl, sym, Bool, true, false, Result, ok, err, arith, ℤ,
  ◌==◌, eq_iff, Bool-cases, inl, inr,
}
use job_scout_ai.Hh
use job_scout_ai.Hh.{SearchResponse, SearchVacancySummary, VacancyDetails, to_raw_vacancy}
use job_scout_ai.Core.VacancyStatus
use job_scout_ai.Store.{World}
use job_scout_ai.Store.Exec.{Exec}
use job_scout_ai.Store.Exec.Ends.{Ends, Keeps}
use job_scout_ai.Store.Lists.{VacancyWithMatch}
use job_scout_ai.App.{App}
use job_scout_ai.App.Search.{
  SearchSummary, count_imported, one_if, is_good_match, failed, add_found,
}
use job_scout_ai.App.Search.Asked.{Asked}

-- Each item of a page costs one request and is imported or counted as an error; so the requests are
-- those items, and besides at most one for each page.
pub record Counted (start pages : ℕ) (s : SearchSummary) (w : World) : Type 0 where
  pub split : s.duplicates + s.filtered ≤ s.imported
  pub best : s.recommended ≤ s.imported
  pub least : start + s.imported + s.errors ≤ w.requests
  pub most : w.requests ≤ start + pages + s.imported + s.errors

one_if_le : (b : Bool) → one_if b ≤ 1
one_if_le true = omega arith
one_if_le false = omega arith

not_both : (s : String) → one_if (s == "DUPLICATE") + one_if (s == "FILTERED_OUT") ≤ 1
not_both s = elim (Bool-cases (s == "DUPLICATE")) [
  | inl y ↦
      subst (λ t. one_if (t == "DUPLICATE") + one_if (t == "FILTERED_OUT") ≤ 1)
        (sym ((eq_iff s "DUPLICATE").0 y)) (omega arith)
  | inr n ↦ rw n (omega (arith, one_if_le (s == "FILTERED_OUT")))
]

module _ (start pages : ℕ) (s : SearchSummary) where
  same_count :
      (w w' : World) → Counted start pages s w → w'.requests ≡ w.requests → Counted start pages s w'
  same_count w w' c e = record {
    split = c.split;
    best = c.best;
    least = omega (arith, c.least, e);
    most = omega (arith, c.most, e);
  }

  same_Ends :
      {A : Type 0} (w : World) (r : Result A) (w' : World)
      → Counted start pages s w
      → Ends (Asked w.requests) (λ _. Asked w.requests) (r, w')
      → Ends (Counted start pages s) (λ _. Counted start pages s) (r, w')
  same_Ends w (ok a) w' c h = same_count w w' c h.count
  same_Ends w (err e) w' c h = same_count w w' c h.count

  -- What asks nothing keeps the count.
  pub unasked :
      {A : Type 0} (m : Exec A) → ((n : ℕ) → Keeps (Asked n) m) → Keeps (Counted start pages s) m
  unasked m k = record {
    at = λ w c.
        let (r, w') = m w in same_Ends w r w' c ((k w.requests).at w (record { count = refl }));
  }

  pub Counted-error : (w : World) → Counted (suc start) pages s w → Counted start pages (failed s) w
  Counted-error w c = record {
    split = c.split;
    best = c.best;
    least = omega (arith, c.least);
    most = omega (arith, c.most);
  }

module _ (threshold : ℤ) (start pages : ℕ) (s : SearchSummary) (w : World) where
  pub Counted-import :
      (item : VacancyWithMatch)
      → Counted (suc start) pages s w
      → Counted start pages (count_imported threshold s item) w
  unfolding count_imported VacancyStatus.same VacancyStatus.to_text
  Counted-import item c = record {
    split = omega (arith, c.split, not_both (VacancyStatus.to_text item.vacancy.status));
    best = omega (arith, c.best, one_if_le (is_good_match threshold item.match));
    least = omega (arith, c.least);
    most = omega (arith, c.most);
  }

pub asked_item :
    {start pages : ℕ} (s : SearchSummary) (w : World)
    → Counted start pages s w
    → Counted (suc start) pages s (record w { requests = suc w.requests })
asked_item s w c = record {
  split = c.split;
  best = c.best;
  least = omega (arith, c.least);
  most = omega (arith, c.most);
}

pub asked_page :
    {start pages : ℕ} (s : SearchSummary) (w : World)
    → Counted start pages s w
    → Counted start (suc pages) s (record w { requests = suc w.requests })
asked_page s w c = record {
  split = c.split;
  best = c.best;
  least = omega (arith, c.least);
  most = omega (arith, c.most);
}

pub more_pages :
    {start pages : ℕ} (bound : ℕ) (s : SearchSummary) (w : World)
    → pages ≤ bound
    → Counted start pages s w
    → Counted start bound s w
more_pages bound s w h c = record {
  split = c.split;
  best = c.best;
  least = c.least;
  most = omega (arith, c.most);
}

pub found_Counted :
    (app : App) (client : Hh.Client) {start pages : ℕ} (page : ℕ) (resp : SearchResponse)
    (s : SearchSummary) (w : World)
    → Counted start pages s w
    → Counted start pages (add_found app client page resp s) w
found_Counted app client zero resp s w c = record {
  split = c.split;
  best = c.best;
  least = c.least;
  most = c.most;
}
found_Counted app client (suc page) resp s w c = c
