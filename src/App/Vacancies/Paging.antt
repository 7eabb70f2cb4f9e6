-- ===== src/App/Vacancies/Paging.antt =====
-- The pages that the service asks the store for.
use native.Mathlib.Nat.{mul-le-mul}
use job_scout_ai.Prelude.{
  false, ◌*◌, ◌≤◌, ◌<◌, ◌^◌, ◌≡◌, ap, List, Option, ok, err, refl, panicked, length, take, drop,
  length-take, arith, ℤ, pos, ◌≤ℤ◌,
}
use job_scout_ai.Core.VacancyStatus.{VacancyStatus}
use job_scout_ai.Store.{World}
use job_scout_ai.Store.Exec.{gets, lift, ◌>>=◌}
use job_scout_ai.Store.Lists.{VacancyWithMatch, vacancy_items, list_vacancies, page_of}
use job_scout_ai.Store.Lists.Pages.{page_of-slice}
use job_scout_ai.App.Vacancies.{normalize_pagination, vacancies_page}

normalize_pagination_bounds :
    (page per_page : ℤ)
    → page ≤ℤ pos 92233720368547758
    → let (n, k) = normalize_pagination page per_page in
      (1 ≤ k) × (k ≤ 100) × (n ≤ 92233720368547758)
unfolding normalize_pagination
normalize_pagination_bounds page per_page le = ground arith

page_answers :
    (page per_page : ℤ) (status : Option VacancyStatus) (w : World)
    → page ≤ℤ pos 92233720368547758
    → (items : List VacancyWithMatch) × (vacancies_page page per_page status w ≡ (ok items, w))
      × (length items ≤ 100)
unfolding vacancies_page list_vacancies gets lift ◌>>=◌
page_answers page per_page status w le =
    let (n, k) = normalize_pagination page per_page in
    let (one, few, low) = normalize_pagination_bounds page per_page le in
    let small : n * k < 2 ^ 63 = omega (arith, mul-le-mul low few) in
    let all =
      vacancy_items w.db
        (record { page = n; per_page = k; status = status; recommended_only = false }) in
    (
      take k (drop (n * k) all),
      ap (λ r. (r, w)) (page_of-slice n k all small),
      omega (arith, length-take k (drop (n * k) all), few),
    )

page_panics :
    (status : Option VacancyStatus) (w : World)
    → vacancies_page (pos 92233720368547759) (pos 100) status w
      ≡ (err (panicked "slice bounds out of range"), w)
unfolding vacancies_page list_vacancies gets lift ◌>>=◌ normalize_pagination page_of
page_panics status w = refl

-- Up to page 92233720368547758, a list of vacancies never fails, whatever the page and the size that the
-- client names: it answers at most 100 vacancies and changes nothing. This page is the last one with that: on
-- the next one, with 100 vacancies to a page, the product of both leaves 64 bits and the handler panics.
pub vacancies_page_total :
    (page per_page : ℤ) (status : Option VacancyStatus) (w : World)
    → page ≤ℤ pos 92233720368547758
    → ((items : List VacancyWithMatch) × (vacancies_page page per_page status w ≡ (ok items, w))
        × (length items ≤ 100))
      × (vacancies_page (pos 92233720368547759) (pos 100) status w
          ≡ (err (panicked "slice bounds out of range"), w))
vacancies_page_total page per_page status w le =
    (page_answers page per_page status w le, page_panics status w)
