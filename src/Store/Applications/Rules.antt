-- ===== src/Store/Applications/Rules.antt =====
-- The actions of the store, seen by the applications: a rule for each.
use job_scout_ai.Prelude.{
  List, ℕ, suc, ◌≤◌, String, ◌≡◌, refl, sym, ◌∙◌, inl, inr, true, false, ◌&&◌, none, some, lookup,
  insert, values, lookup-insert, lookup-insert_self, any, arith, eq_iff, ◌==◌, Bool-cases,
}
use job_scout_ai.Strings.{is_nil}
use job_scout_ai.Telegram.{Call}
use job_scout_ai.Core.Types.{Application, Time}
use job_scout_ai.Core.ApplicationStatus
use job_scout_ai.Core.ApplicationStatus.{ApplicationStatus}
use job_scout_ai.Store.{Db, World}
use job_scout_ai.Store.Exec.{Exec, pure, new_id, now}
use job_scout_ai.Store.Exec.Ends.{Triple, Keeps, Triple-finds, Triple-bind, Triple-weaken}
use mathlib.Core.Path.{subst}
use job_scout_ai.Store.Memory.{
  is_active, conflicts_with, save_application, filled_application, upsert_application, id_or_new,
  get_application,
}
use job_scout_ai.Store.Applications.{Sound, Follows, Fresh, Leads, stay, move}
use job_scout_ai.Store.Applications.Write.{insert-Sound, insert-Follows}

module _ (start : World) where
  -- The applications are sound and follow those of an earlier moment, since which identifiers may
  -- have been drawn from the same sequence.
  pub record Good (w : World) : Type 0 where
    pub sound : Sound w.db.applications
    pub follows : Follows start.db.applications w.db.applications
    pub fresh : Fresh w
    pub same_ids : w.ids ≡ start.ids
    pub later : start.drawn ≤ w.drawn

  pub Good-new_id : (w : World) → Good w → Good (record w { drawn = suc w.drawn })
  Good-new_id w g = record {
    sound = g.sound;
    follows = g.follows;
    fresh = record {
      not_empty = λ n h. g.fresh.not_empty n (omega arith);
      distinct = λ n m h k. g.fresh.distinct n m (omega arith) (omega arith);
      unused = λ n h. g.fresh.unused n (omega arith);
    };
    same_ids = g.same_ids;
    later = omega (arith, g.later);
  }

  pub Good-now : (w : World) → Good w → Good (record w { read = suc w.read })
  Good-now w g = record {
    sound = g.sound;
    follows = g.follows;
    fresh = record {
      not_empty = g.fresh.not_empty;
      distinct = g.fresh.distinct;
      unused = g.fresh.unused;
    };
    same_ids = g.same_ids;
    later = g.later;
  }

  -- A request to a service outside.
  pub Good-outside :
      (w : World) (requests : ℕ) (outbox : List Call)
      → Good w
      → Good (record w { requests = requests; outbox = outbox })
  Good-outside w requests outbox g = record {
    sound = g.sound;
    follows = g.follows;
    fresh = record {
      not_empty = g.fresh.not_empty;
      distinct = g.fresh.distinct;
      unused = g.fresh.unused;
    };
    same_ids = g.same_ids;
    later = g.later;
  }

  -- A write elsewhere.
  pub Good-elsewhere :
      (w : World) (db : Db)
      → db.applications ≡ w.db.applications
      → Good w
      → Good (record w { db = db })
  Good-elsewhere w db e g = record {
    sound = rw e g.sound;
    follows = rw e g.follows;
    fresh = record {
      not_empty = g.fresh.not_empty;
      distinct = g.fresh.distinct;
      unused = λ n h. rw e (g.fresh.unused n h);
    };
    same_ids = g.same_ids;
    later = g.later;
  }

  -- The write of `a` is allowed: its entry, if there is one, may move to its state.
  pub record Allowed (a : Application) (w : World) : Type 0 where
    pub named : is_nil a.id ≡ false
    pub declared : ApplicationStatus.valid a.status ≡ true
    pub leads : (c : Application) → lookup a.id w.db.applications ≡ some c → Leads c.status a.status
    pub taken : (n : ℕ) → w.drawn ≤ n → (a.id == w.ids n) ≡ false

  abbrev pub Stored : Application → World → Type 0
  Stored a w = lookup a.id w.db.applications ≡ some a

  Good-insert :
      (a : Application) (w : World)
      → Good w
      → Allowed a w
      → (is_active a && any (conflicts_with a) (values w.db.applications)) ≡ false
      → Good (record w { db = record w.db { applications = insert a.id a w.db.applications } })
  Good-insert a w g l free = record {
    sound = insert-Sound w.db.applications a g.sound l.named l.declared free;
    follows = insert-Follows w.db.applications a start.db.applications g.follows l.leads;
    fresh = record {
      not_empty = g.fresh.not_empty;
      distinct = g.fresh.distinct;
      unused = λ n h.
          lookup-insert a.id (w.ids n) a w.db.applications ∙ rw (l.taken n h) (g.fresh.unused n h);
    };
    same_ids = g.same_ids;
    later = g.later;
  }

  save-Triple :
      (a : Application)
      → Triple
          (λ w. Good w × Allowed a w)
          (save_application a)
          (λ b w. Good w × Stored b w × (b.status ≡ a.status))
          Good
  unfolding save_application
  save-Triple a = record {
    at = λ w (g, l).
        elim (Bool-cases (is_active a && any (conflicts_with a) (values w.db.applications))) [
          | inl taken ↦ rw taken g
          | inr free ↦
              rw free (Good-insert a w g l free, lookup-insert_self a.id a w.db.applications, refl)
        ];
  }

  -- Filling in the times and trimming the texts changes neither the key nor the state.
  filled-Allowed :
      (a : Application) (id : String) (t : Time) (w : World)
      → id ≡ a.id
      → Allowed a w
      → Allowed (filled_application a id t) w
  unfolding filled_application
  filled-Allowed a id t w e l =
      rw e (record { named = l.named; declared = l.declared; leads = l.leads; taken = l.taken })

  filled_status :
      (a : Application) (id : String) (t : Time) → (filled_application a id t).status ≡ a.status
  unfolding filled_application
  filled_status a id t = refl

  abbrev pub Ready : Application → World → Type 0
  Ready a w = Good w × Allowed a w

  id-Triple :
      (a : Application) → Triple (Ready a) (id_or_new a.id) (λ id w. Ready a w × (id ≡ a.id)) Good
  unfolding id_or_new pure
  id-Triple a = record { at = λ w (g, l). rw l.named ((g, l), refl) }

  now-Triple :
      (a : Application) (id : String)
      → Triple (λ w. Ready a w × (id ≡ a.id)) now (λ t w. Ready a w × (id ≡ a.id)) Good
  unfolding now
  now-Triple a id = record {
    at = λ w ((g, l), e). (
      (
        Good-now w g,
        record { named = l.named; declared = l.declared; leads = l.leads; taken = l.taken },
      ),
      e,
    );
  }

  -- UpsertApplication of an allowed application stores it, or fails and writes nothing.
  pub upsert-Triple :
      (a : Application)
      → Triple
          (Ready a)
          (upsert_application a)
          (λ b w. Good w × Stored b w × (b.status ≡ a.status))
          Good
  unfolding upsert_application
  upsert-Triple a =
      Triple-bind (λ id w. Ready a w × (id ≡ a.id)) (id_or_new a.id) _ (id-Triple a)
        λ id.
          Triple-bind (λ t w. Ready a w × (id ≡ a.id)) now _ (now-Triple a id)
            λ t.
              Triple-weaken _ (save-Triple (filled_application a id t))
                (λ w ((g, l), e). (g, filled-Allowed a id t w e l))
                (λ b w (g, s, e). (g, s, e ∙ filled_status a id t)) (λ w g. g)

  -- The write of a stored application with a new state that its state may move to.
  step-Allowed :
      (a b : Application) (w : World)
      → b.id ≡ a.id
      → ApplicationStatus.valid b.status ≡ true
      → Leads a.status b.status
      → Good w
      → Stored a w
      → Allowed b w
  step-Allowed a b w same valid leads g s = record {
    named = rw same (g.sound.named a.id a s);
    declared = valid;
    leads =
        λ c e. let p : a ≡ c = cc in subst (λ (x : Application). Leads x.status b.status) p leads;
    taken = λ n h. ground (arith, g.fresh.unused n h, eq_iff b.id (w.ids n));
  }

  -- The application is stored as `a`, in the state `s`.
  abbrev pub At : Application → ApplicationStatus → World → Type 0
  At a s w = Good w × Stored a w × (a.status ≡ s)

  -- Writing the stored application with a state that its state may move to.
  pub step-Triple :
      (a b : Application) (s t : ApplicationStatus)
      → b.id ≡ a.id
      → b.status ≡ t
      → ApplicationStatus.valid t ≡ true
      → ApplicationStatus.can_transition s t ≡ true
      → Triple (At a s) (upsert_application b) (λ c. At c t) Good
  step-Triple a b s t same to valid can =
      Triple-weaken _ (upsert-Triple b)
        (λ w (g, e, from).
          (g, step-Allowed a b w same (rw to valid) (rw (from, to) (move stay t can)) g e))
        (λ c w (g, e, q). (g, e, q ∙ to)) (λ w g. g)

  pub now-At : (a : Application) (s : ApplicationStatus) → Triple (At a s) now (λ t. At a s) Good
  unfolding now
  now-At a s = record { at = λ w (g, e, p). (Good-now w g, e, p) }

  -- From here on only the applications' invariant counts.
  pub forget :
      {A : Type 0} (a : Application) (s : ApplicationStatus) (m : Exec A)
      → Keeps Good m
      → Triple (At a s) m (λ _. Good) Good
  forget a s m k = Triple-weaken m k (λ w (g, e, p). g) (λ x w g. g) (λ w g. g)

  pub get-Triple : (id : String) → Triple Good (get_application id) (λ a w. At a a.status w) Good
  unfolding get_application
  get-Triple id =
      Triple-finds _ _
        (λ a w e g. (
          g,
          subst (λ k. lookup k w.db.applications ≡ some a) (sym (g.sound.keyed id a e)) e,
          refl,
        ))
        (λ w g. g)

  -- The identifier that was just drawn names no application.
  pub record Unnamed (id : String) (w : World) : Type 0 where
    pub good : Good w
    pub absent : lookup id w.db.applications ≡ none
    pub not_empty : is_nil id ≡ false
    pub taken : (n : ℕ) → w.drawn ≤ n → (id == w.ids n) ≡ false

  pub new_id-Triple : Triple Good new_id Unnamed Good
  unfolding new_id
  new_id-Triple = record {
    at = λ w g. record {
      good = Good-new_id w g;
      absent = g.fresh.unused w.drawn (omega arith);
      not_empty = g.fresh.not_empty w.drawn (omega arith);
      taken = λ n h. ground (
        arith,
        eq_iff (w.ids w.drawn) (w.ids n),
        g.fresh.distinct w.drawn n (omega arith) (omega arith),
      );
    };
  }

  -- A new application may be written under it.
  pub Unnamed-Ready :
      (a : Application) (w : World)
      → ApplicationStatus.valid a.status ≡ true
      → Unnamed a.id w
      → Ready a w
  Unnamed-Ready a w valid u = (
    u.good,
    record {
      named = u.not_empty;
      declared = valid;
      leads = λ c e. absurd (cc (u.absent));
      taken = u.taken;
    },
  )
