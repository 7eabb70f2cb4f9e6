-- ===== src/App/Events.antt =====
-- internal/app: what reaches the service from outside, requests of its API and updates of its bot.
use job_scout_ai.Prelude.{List, [], ◌∷◌, Result, ok, err}
use job_scout_ai.Telegram
use job_scout_ai.Telegram.{Update}
use job_scout_ai.Store.{World}
use job_scout_ai.Store.Exec.Ends.{Ends}
use job_scout_ai.Store.Applications.{Sound, Follows, Fresh}
use job_scout_ai.Store.Applications.Rules.{Good}
use job_scout_ai.App.{App}
use job_scout_ai.App.Workflow.Sound.{begin}
use job_scout_ai.App.Http.{Request, Decoders}
use job_scout_ai.App.Http.Router.{serve}
use job_scout_ai.App.Http.Sound.{serve-Good}
use job_scout_ai.App.Bot.{handle_telegram_update}
use job_scout_ai.App.Bot.Sound.{update-Keeps}

pub data Event : Type 0 where
  http : Request → Event
  telegram : Update → Event

module _ (app : App) (json : Decoders) (client : Telegram.Client) where
  unfoldable pub event : Event → World → World
  unfolding serve handle_telegram_update
  event (http r) w = (serve app json r w).1
  event (telegram u) w = (handle_telegram_update app client u w).1

  -- The world after events, one by one, whatever is answered.
  unfoldable pub events : List Event → World → World
  unfolding event
  events [] w = w
  events (e ∷ es) w = events es (event e w)

  either_end :
      {A : Type 0} (P : World → Type 0) (r : Result A) (w : World) → Ends P (λ _. P) (r, w) → P w
  either_end P (ok a) w h = h
  either_end P (err e) w h = h

  event-Good : (start : World) (e : Event) (w : World) → Good start w → Good start (event e w)
  unfolding event
  event-Good start (http r) w g =
      let (a, w') = serve app json r w in
      either_end (Good start) a w' ((serve-Good app json r).at w g)
  event-Good start (telegram u) w g =
      let (a, w') = handle_telegram_update app client u w in
      either_end (Good start) a w' ((update-Keeps app client u).at w g)

  events-Good :
      (start : World) (es : List Event) (w : World) → Good start w → Good start (events es w)
  unfolding events
  events-Good start [] w g = g
  events-Good start (e ∷ es) w g = events-Good start es (event e w) (event-Good start e w g)

-- Whatever requests reach the API and whatever updates reach the bot, in any order, answered or refused, from
-- stored applications that are sound and with identifiers still to be drawn that are fresh: the applications
-- are sound again (stored under their own identifiers, with declared statuses, at most one active for a
-- vacancy and profile), none is lost, and applicationTransitions leads from the status of each at the
-- beginning to its status at the end.
pub events-Sound :
    (app : App) (json : Decoders) (client : Telegram.Client) (es : List Event) (w : World)
    → Sound w.db.applications
    → Fresh w
    → Sound (events app json client es w).db.applications
      × Follows w.db.applications (events app json client es w).db.applications
events-Sound app json client es w sound fresh =
    let g = events-Good app json client w es w (begin app w sound fresh) in (g.sound, g.follows)
