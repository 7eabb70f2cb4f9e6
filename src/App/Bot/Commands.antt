-- ===== src/App/Bot/Commands.antt =====
-- internal/app/bot.go: what a text or the data of a button asks for.
use Prim.Native.String.{[], ◌∷◌}
use job_scout_ai.Prelude.{String, [], ◌∷◌, ◌||◌, List, Option, none, some, if◌then◌else◌, ◌==◌}
use job_scout_ai.Strings.{◌+++◌, trim_space, has_prefix, fields, join, map_chars}
use job_scout_ai.Strings.Affixes.{trim_prefix, before, cut}
use job_scout_ai.Telegram.{User}
use job_scout_ai.Core.Decimal.{itoa}
use job_scout_ai.Core.ApplicationStatus.{ApplicationStatus}
use job_scout_ai.App.{App}
use job_scout_ai.App.Decision.{first_non_empty}

unfoldable pub telegram_actor : User → String
unfolding first_non_empty itoa
telegram_actor user =
    first_non_empty (user.first_name ∷ user.username ∷ ("telegram:" +++ itoa user.id) ∷ [])

-- The words of a command, the first without the slash and what follows an "@".
abbrev pub command_of : List String → String × String
unfolding trim_prefix before join
command_of [] = ("", "")
command_of (word ∷ words) = (before "@" (trim_prefix word "/"), join words " ")

unfoldable pub split_command : App → String → String × String
unfolding trim_space has_prefix fields map_chars trim_prefix before join
split_command app text =
    let text = trim_space text in
    let (command, arg) = command_of (fields text) in
    if has_prefix "/" text then (map_chars app.host.to_lower command, arg) else ("", "")

-- The buttons' data, taken apart at the first two colons.
abbrev pub with_prefix : String → Option (String × String) → Option (String × String × String)
with_prefix prefix none = none
with_prefix prefix (some (id, action)) = some (prefix, id, action)

abbrev pub parts_of : Option (String × String) → Option (String × String × String)
parts_of none = none
parts_of (some (prefix, rest)) = with_prefix prefix (cut ":" rest)

-- What a button asks for.
pub data Action : Type 0 where
  prepare skip approve cancel submitted : (id : String) → Action
  outcome : (id : String) → ApplicationStatus → Action
  unknown : Action

abbrev pub vacancy_action : String → String → Action
vacancy_action id action =
    if action == "prep" || action == "like"
    then prepare id
    else if action == "skip"
    then skip id
    else unknown

abbrev pub application_action : String → String → Action
application_action id action =
    if action == "approve"
    then approve id
    else if action == "cancel"
    then cancel id
    else if action == "submitted"
    then submitted id
    else if action == "hr"
    then outcome id ApplicationStatus.hr_contact
    else if action == "interview"
    then outcome id ApplicationStatus.interview
    else if action == "offer"
    then outcome id ApplicationStatus.offer
    else if action == "reject"
    then outcome id ApplicationStatus.rejected
    else unknown

abbrev pub action_of_parts : Option (String × String × String) → Action
action_of_parts none = unknown
action_of_parts (some (prefix, id, action)) =
    if prefix == "vac"
    then vacancy_action id action
    else if prefix == "app"
    then application_action id action
    else unknown

-- The switches of handleTelegramCallback.
unfoldable pub callback_action : String → Action
unfolding cut
callback_action s = action_of_parts (parts_of (cut ":" s))
