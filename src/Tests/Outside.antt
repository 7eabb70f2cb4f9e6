-- ===== src/Tests/Outside.antt =====
-- The client of HeadHunter and the migrations at work.
use Prim.Native.String.{[], ◌∷◌}
use job_scout_ai.Prelude.{
  ℕ, zero, suc, String, ◌≡◌, refl, [], ◌∷◌, ◌++◌, false, List, none, some, Result, ok, message,
  arith, pos, eqb, if◌then◌else◌,
}
use job_scout_ai.Strings.{◌+++◌}
use job_scout_ai.Hh.Requests.{
  Reply, response, Outside, Net, enter, start, wait_for, get_json, limit_wait, second,
}
use job_scout_ai.Hh.Requests.Spaced.{AllApart, Slots, calls, requests_apart}
use job_scout_ai.Hh.Requests.Retried.{Sends, attempts_bounded}
use job_scout_ai.Hh.Requests.Recovered.{call-Recovers}
use job_scout_ai.Migrate
use job_scout_ai.Migrate.{Migration, DirEntry, State, up, entries_of, discover, versions}
use job_scout_ai.Migrate.Applied.{Due, Applies, wanted, up_applied}
use job_scout_ai.Migrate.Again.{up_again}

-- The server answers the first request with 503 and all others with a text.
abbrev answer : ℕ → Reply
answer zero = response 503 "503 Service Unavailable" "" ""
answer (suc n) = response 200 "200 OK" "" "found"

abbrev headhunter : Outside
headhunter = record {
  reply = answer;
  drift = λ n. 10;
  cancel = λ n. none;
  parse_http_time = λ s. none;
}

abbrev fresh : Net
fresh = record {
  time = 1000000000;
  ticks = 0;
  waits = 0;
  sent = 0;
  last_start = 0;
  starts = [];
  sent_at = [];
}

abbrev decode : String → Result String
decode s = ok s

call_gives : get_json headhunter decode (pos 500) fresh ≡ (
  ok "found",
  record fresh {
    time = 1500000050;
    ticks = 5;
    waits = 1;
    sent = 2;
    last_start = 1500000040;
    starts = 1500000040 ∷ 1000000010 ∷ [];
    sent_at = 1500000050 ∷ 1000000020 ∷ [];
  },
)
unfolding get_json
call_gives = refl

requests_apart_example :
    let net = calls headhunter 500 (decode ∷ decode ∷ []) fresh in
    AllApart 500 net.starts × Slots net.starts net.sent_at
requests_apart_example =
    requests_apart headhunter 500 (omega arith) (decode ∷ decode ∷ []) fresh refl refl

attempts_bounded_example : Sends headhunter decode 3 0 (get_json headhunter decode (pos 500) fresh)
attempts_bounded_example = attempts_bounded headhunter decode (pos 500) fresh

call-Recovers_example : (get_json headhunter decode (pos 500) fresh).0 ≡ ok "found"
call-Recovers_example =
    call-Recovers headhunter decode (pos 500) fresh (λ n. refl) 1 "found" (omega arith)
      (refl, (omega arith, omega arith, refl))

-- Two callers that are both under the lock before either of them is back from its wait start at the same
-- moment of a clock that stands still.
abbrev still : Outside
still = record headhunter { drift = λ n. 0 }

abbrev busy : Net
busy = record fresh { last_start = 999999900; starts = 999999900 ∷ [] }

first_waits : (enter still (pos 500) busy).0 ≡ some 400
unfolding enter
first_waits = refl

second_waits : (enter still (pos 500) (enter still (pos 500) busy).1).0 ≡ some 400
unfolding enter
second_waits = refl

start_together :
    (start still (start still (wait_for still (pos 400) busy).1)).starts
    ≡ 1000000400 ∷ 1000000400 ∷ 999999900 ∷ []
unfolding start wait_for
start_together = refl

-- A long wait that a server asks for becomes a second.
retry_after_wraps : limit_wait headhunter "9223372037" 0 ≡ pos second
unfolding limit_wait
retry_after_wraps = refl

abbrev file : String → DirEntry
file name = record { name = name; is_dir = false }

-- A schema is the list of the texts that made it.
abbrev migrations : Migrate.Outside (List String)
migrations = record {
  read_dir =
      λ dir. ok (file "0002_more.sql" ∷ file "0001_init.sql" ∷ file "0001_init.down.sql" ∷ []);
  read_file = λ path. ok path;
  join = λ dir name. dir +++ "/" +++ name;
  is_not_exist = λ e. false;
  error_text = λ e. "error";
  to_lower = λ s. s;
  execute = λ body schema. ok (schema ++ body ∷ []);
  trouble = λ n. none;
  commit = λ n. Migrate.done;
}

abbrev blank : State (List String)
blank = record { schema = []; rows = none; statements = 0 }

-- Where the third statement of its transaction fails, a migration leaves nothing behind.
rolled_back :
    (up
      (record migrations { trouble = λ n. if eqb n 7 then some (message "lost") else none })
      "m"
      blank).1.schema
    ≡ "m/0001_init.sql" ∷ []
unfolding up
rolled_back = refl

applied_in_order : (up migrations "m" blank).1.schema ≡ "m/0001_init.sql" ∷ "m/0002_more.sql" ∷ []
unfolding up
applied_in_order = refl

up_applied_example :
    Due migrations "m" blank (wanted migrations "m" blank)
    × Applies migrations (wanted migrations "m" blank) blank (up migrations "m" blank)
up_applied_example = up_applied migrations "m" blank

up_again_example :
    (entries_of (up migrations "m" (up migrations "m" blank).1).1.rows
      ≡ entries_of (up migrations "m" blank).1.rows)
    × ((up migrations "m" (up migrations "m" blank).1).1.schema
        ≡ (up migrations "m" blank).1.schema)
unfolding up
up_again_example = up_again migrations "m" blank refl
