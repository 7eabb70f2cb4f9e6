-- ===== src/Migrate/Order.antt =====
-- internal/migrate/migrate.go, discover: the order of the migrations, and which they are.
use Prim.Native.String.{compare, [], ◌∷◌}
use Prim.Native.Char.{Char, code}
use Prim.Native.String.{then as then_}
use Prim.Native.String.compare as Compare
use Prim.Native.Nat.{Ordering, compare as compare_ℕ}
use job_scout_ai.Prelude.{
  ℕ, String, ◌≡◌, ◌∙◌, ap, refl, ◌↔◌, Bool, true, false, ◌&&◌, ◌||◌, List, [], ◌∷◌, All, In,
  In-under, In-swap, keep, ltb, eqb, arith, Bool-cases, inl, inr,
}
use job_scout_ai.Migrate.{Migration, insert_by_version, sort_by_version}

abbrev is_gt : Ordering → Bool
is_gt Ordering.gt = true
is_gt _ = false

-- The first text comes behind the second one, letter by letter.
abbrev pub is_behind : String → String → Bool
is_behind s t = is_gt (compare s t)

then_behind :
    (a b : ℕ) (o : Ordering) → is_gt (then_ (compare_ℕ a b) o) ≡ (ltb b a || (eqb a b && is_gt o))
then_behind a b Ordering.lt = ground arith
then_behind a b Ordering.eq = ground arith
then_behind a b Ordering.gt = ground arith

behind-cons :
    (c d : Char) (s t : String)
    → is_behind (c ∷ s) (d ∷ t)
      ≡ (ltb (code d) (code c) || (eqb (code c) (code d) && is_behind s t))
behind-cons c d s t =
    ap is_gt (Compare.cons-cons c d s t) ∙ then_behind (code c) (code d) (compare s t)

not_both_behind : (s t : String) → is_behind s t ≡ true → is_behind t s ≡ false
not_both_behind [] [] e = ap is_gt Compare.nil-nil
not_both_behind [] (d ∷ t) e = absurd (cc (e, ap is_gt (Compare.nil-cons d t)))
not_both_behind (c ∷ s) [] e = ap is_gt (Compare.nil-cons c s)
not_both_behind (c ∷ s) (d ∷ t) e =
    ground (arith, behind-cons c d s t, behind-cons d c t s, not_both_behind s t)

behind_trans :
    (s t u : String) → is_behind s t ≡ false → is_behind t u ≡ false → is_behind s u ≡ false
behind_trans [] t [] e f = ap is_gt Compare.nil-nil
behind_trans [] t (b ∷ u) e f = ap is_gt (Compare.nil-cons b u)
behind_trans (c ∷ s) [] u e f = absurd (cc (e, ap is_gt (Compare.cons-nil c s)))
behind_trans (c ∷ s) (d ∷ t) [] e f = absurd (cc (f, ap is_gt (Compare.cons-nil d t)))
behind_trans (c ∷ s) (d ∷ t) (b ∷ u) e f =
    ground
      (arith, behind-cons c d s t, behind-cons d b t u, behind-cons c b s u, behind_trans s t u)

-- No version stands behind a later one of the list.
abbrev pub InOrder : List Migration → Type 0
InOrder [] = Unit
InOrder (m ∷ ms) = All (λ n. is_behind m.version n.version ≡ false) ms × InOrder ms

module _ (P : Migration → Type 0) where
  All-insert :
      (m : Migration) (ms : List Migration) → P m → All P ms → All P (insert_by_version m ms)
  unfolding insert_by_version
  All-insert m [] p h = (p, tt)
  All-insert m (n ∷ ns) p h =
      elim (compare m.version n.version)
        as (λ o. All P (elim o [ Ordering.gt ↦ n ∷ insert_by_version m ns | _ ↦ m ∷ n ∷ ns ])) [
          | Ordering.lt ↦ (p, h)
          | Ordering.eq ↦ (p, h)
          | Ordering.gt ↦ (h.0, All-insert m ns p h.1)
        ]

behind_all :
    (s t : String) (ms : List Migration)
    → is_behind s t ≡ false
    → All (λ n. is_behind t n.version ≡ false) ms
    → All (λ n. is_behind s n.version ≡ false) ms
behind_all s t [] e h = tt
behind_all s t (n ∷ ns) e h = (behind_trans s t n.version e h.0, behind_all s t ns e h.1)

insert-InOrder :
    (m : Migration) (ms : List Migration) → InOrder ms → InOrder (insert_by_version m ms)
unfolding insert_by_version
insert-InOrder m [] h = (tt, tt)
insert-InOrder m (n ∷ ns) h =
    by_order (insert_by_version m ns) (insert-InOrder m ns h.1)
      (λ e. All-insert (λ k. is_behind n.version k.version ≡ false) m ns e h.0)
      (compare m.version n.version) refl
  where
    in_front : is_behind m.version n.version ≡ false → InOrder (m ∷ n ∷ ns)
    in_front e = ((e, behind_all m.version n.version ns e h.0), h)

    by_order :
        (rest : List Migration)
        → InOrder rest
        → (is_behind n.version m.version ≡ false
            → All (λ k. is_behind n.version k.version ≡ false) rest)
        → (o : Ordering) → compare m.version n.version ≡ o
        → InOrder (elim o [ Ordering.gt ↦ n ∷ rest | _ ↦ m ∷ n ∷ ns ])
    by_order rest sorted later Ordering.lt e = in_front (ap is_gt e)
    by_order rest sorted later Ordering.eq e = in_front (ap is_gt e)
    by_order rest sorted later Ordering.gt e =
        (later (not_both_behind m.version n.version (ap is_gt e)), sorted)

pub sort-InOrder : (ms : List Migration) → InOrder (sort_by_version ms)
unfolding sort_by_version
sort-InOrder [] = tt
sort-InOrder (m ∷ ms) = insert-InOrder m (sort_by_version ms) (sort-InOrder ms)

All-keep :
    (P : Migration → Type 0) (p : Migration → Bool) (ms : List Migration)
    → All P ms
    → All P (keep p ms)
unfolding keep
All-keep P p [] h = tt
All-keep P p (m ∷ ms) h = elim (Bool-cases (p m)) [
  | inl y ↦ rw y (h.0, All-keep P p ms h.1)
  | inr n ↦ rw n (All-keep P p ms h.1)
]

pub keep-InOrder : (p : Migration → Bool) (ms : List Migration) → InOrder ms → InOrder (keep p ms)
unfolding keep
keep-InOrder p [] h = tt
keep-InOrder p (m ∷ ms) h = elim (Bool-cases (p m)) [
  | inl y ↦ rw y (All-keep _ p ms h.0, keep-InOrder p ms h.1)
  | inr n ↦ rw n (keep-InOrder p ms h.1)
]

-- Sorting neither loses nor adds a migration.
insert-In :
    (m : Migration) (ms : List Migration) (k : Migration)
    → In k (insert_by_version m ms) ↔ In k (m ∷ ms)
unfolding insert_by_version
insert-In m [] k = (λ i. i, λ i. i)
insert-In m (n ∷ ns) k =
    let (to, from) = insert-In m ns k in
    elim (compare m.version n.version)
      as (λ o.
        In k (elim o [ Ordering.gt ↦ n ∷ insert_by_version m ns | _ ↦ m ∷ n ∷ ns ])
        ↔ In k (m ∷ n ∷ ns)) [
          | Ordering.lt ↦ (λ i. i, λ i. i)
          | Ordering.eq ↦ (λ i. i, λ i. i)
          | Ordering.gt ↦ (
            λ i. In-swap k n m ns (In-under k n (insert_by_version m ns) (m ∷ ns) to i),
            λ i. In-under k n (m ∷ ns) (insert_by_version m ns) from (In-swap k m n ns i),
          )
        ]

pub sort-In : (ms : List Migration) (k : Migration) → In k (sort_by_version ms) ↔ In k ms
unfolding sort_by_version
sort-In [] k = (λ i. i, λ i. i)
sort-In (m ∷ ms) k =
    let (to, from) = insert-In m (sort_by_version ms) k in
    let (down, up) = sort-In ms k in
    (
      λ i. In-under k m (sort_by_version ms) ms down (to i),
      λ i. from (In-under k m ms (sort_by_version ms) up i),
    )
