-- ===== src/RunFeed.antt =====
-- go/agent-runtime/runfeed/runfeed.go and go/agent-runtime/memory/runfeed.go: the replayable live feed of
-- a Run, in its single-process Store. Each reading of the clock is an argument, an instant is its
-- nanoseconds with 0 the zero time, and the sequence of a Run stays below 2 ^ 63. JSON validity is the
-- parameter `valid`.
pub mod Retention
pub mod Logs
pub mod Pages
pub mod Following
use gaoge_agent_runtime.Prelude.{
  ℕ, zero, suc, ◌+◌, ◌==◌, ltb, leb, String, Bool, true, false, not, ◌&&◌, ◌||◌, Option, none, some,
  List, [], ◌∷◌, ◌++◌, text_dec, text_eq, is_blank, trim_space, byte_length, if◌then◌else◌, Map,
  empty_map, put, delete, Result, ok, err, ite,
}
use gaoge_agent_runtime.Prelude.Int.{ℤ, pos, negsuc, pos_part, is_negative}

pub record Draft : Type 0 where
  pub type : String
  pub delta : String
  pub message : String
  pub body : String
  pub revision : ℕ
  pub status : String
  pub terminal : Bool

pub record Event : Type 0 where
  pub seq : ℕ
  pub run_id : String
  pub type : String
  pub delta : String
  pub message : String
  pub body : String
  pub revision : ℕ
  pub status : String
  pub terminal : Bool
  pub created_at : ℕ

-- `runFeedRecord`; its zero value stands for a missing Run.
pub record FeedRecord : Type 0 where
  pub sequence : ℕ
  pub terminal : Bool
  pub events : List Event
  pub expires_at : ℕ

-- `ErrInvalidInput` and `CursorExpiredError`.
pub data Error : Type 0 where
  invalid_input : Error
  cursor_expired : ℕ → ℕ → Error

-- `RunFeedStore.records`.
abbrev pub Store : Type 0
Store = Map FeedRecord

abbrev pub zero_record : FeedRecord
zero_record = record { sequence = 0; terminal = false; events = []; expires_at = 0 }

abbrev pub record_or_zero : Option FeedRecord → FeedRecord
record_or_zero none = zero_record
record_or_zero (some r) = r

-- What `expireEventsLocked` leaves of one record: nothing, the sequence alone, or all of it.
unfoldable pub expired_record : Option FeedRecord → ℕ → Option FeedRecord
expired_record none now = none
expired_record (some r) now =
    if leb r.expires_at now
    then if r.terminal then none else some (record r { events = []; expires_at = 0 })
    else some r

-- `expireEventsLocked`.
unfoldable pub expire_events : Store → String → ℕ → Store
unfolding expired_record
expire_events s id now k = ite (text_dec k id) (expired_record (s id) now) (s k)

-- The event that `Append` makes of a draft.
abbrev pub event_of : String → Draft → ℕ → ℕ → Event
event_of id d seq at = record {
  seq = seq;
  run_id = id;
  type = d.type;
  delta = d.delta;
  message = d.message;
  body = d.body;
  revision = d.revision;
  status = d.status;
  terminal = d.terminal;
  created_at = at;
}

abbrev pub appended : FeedRecord → Event → ℕ → FeedRecord
appended r e expires_at = record {
  sequence = e.seq;
  terminal = e.terminal;
  events = r.events ++ e ∷ [];
  expires_at = expires_at;
}

-- The tests of `Append`.
unfoldable pub append_refused : (String → Bool) → String → Draft → ℤ → Bool
append_refused valid id d retention =
    text_eq id ""
    || is_blank d.type
    || pos_part retention == 0
    || (ltb 0 (byte_length d.body) && not (valid d.body))

-- `Append`, with the readings of the clock for the expiry of the old events and for the new retention.
unfoldable pub append :
    (String → Bool) → Store → String → Draft → ℕ → ℤ → ℕ → ℕ → Store × Result Error Event
unfolding append_refused expire_events
append valid s run_id d created_at retention now later =
    if append_refused valid id d retention then (s, err invalid_input) else (
      put (expire_events s id now) id (appended old event (later + pos_part retention)),
      ok event,
    )
  where
    id : String
    id = trim_space run_id

    old : FeedRecord
    old = record_or_zero (expire_events s id now id)

    event : Event
    event = event_of id d (old.sequence + 1) created_at

-- `cursorExpired`.
unfoldable pub is_cursor_expired : FeedRecord → ℕ → Bool
is_cursor_expired r after =
    if leb r.sequence after
    then false
    else elim r.events [ [] ↦ true | ◌∷◌ e es ↦ ltb (after + 1) e.seq ]

-- `limit`: none, or how many events may follow the first.
abbrev pub more_of : ℤ → Option ℕ
more_of (pos zero) = none
more_of (pos (suc n)) = some n
more_of (negsuc n) = none

-- The loop of `List`.
unfoldable pub collect : ℕ → Option ℕ → List Event → List Event
collect after more [] = []
collect after none (e ∷ es) =
    let rest = collect after none es in if leb e.seq after then rest else e ∷ rest
collect after (some zero) (e ∷ es) =
    let rest = collect after (some zero) es in if leb e.seq after then rest else e ∷ []
collect after (some (suc n)) (e ∷ es) =
    let skipped = collect after (some (suc n)) es in
    let rest = collect after (some n) es in if leb e.seq after then skipped else e ∷ rest

-- `List`.
unfoldable pub list : Store → String → ℤ → ℤ → ℕ → Store × Result Error (List Event)
unfolding is_cursor_expired collect
list s run_id after limit now =
    if text_eq id "" || is_negative after
    then (s, err invalid_input)
    else if is_cursor_expired current (pos_part after)
    then (expire_events s id now, err (cursor_expired (pos_part after) current.sequence))
    else (expire_events s id now, ok (collect (pos_part after) (more_of limit) current.events))
  where
    id : String
    id = trim_space run_id

    current : FeedRecord
    current = record_or_zero (expire_events s id now id)

-- `ReleaseTerminal`.
unfoldable pub release_terminal : Store → String → ℤ → ℕ → ℕ → Store × Result Error (Unit {0})
release_terminal s run_id retention now later =
    if text_eq id "" || pos_part retention == 0
    then (s, err invalid_input)
    else elim (expire_events s id now id) [
      | none ↦ (expire_events s id now, ok tt)
      | some r ↦ if r.sequence == 0 then (expire_events s id now, ok tt) else (
        put (expire_events s id now) id
            (record r { terminal = true; expires_at = later + pos_part retention }),
        ok tt,
      )
    ]
  where
    id : String
    id = trim_space run_id

-- `normalizeDraft` and `validDraft`.
unfoldable pub normalize_draft : Draft → Draft
normalize_draft d = record d {
  type = trim_space d.type;
  message = trim_space d.message;
  status = trim_space d.status;
}

unfoldable pub valid_draft : (String → Bool) → Draft → Bool
valid_draft valid d = not (text_eq d.type "") && (byte_length d.body == 0 || valid d.body)

-- `Feed`: what it holds besides its Store and clock.
pub record Feed : Type 0 where
  pub retention : ℤ
  pub batch_size : ℤ

-- `Publish`, `Replay` and `ReleaseTerminal` of a Feed.
unfoldable pub publish :
    (String → Bool) → Feed → Store → String → Draft → ℕ → ℕ → ℕ → Store × Result Error Event
unfolding normalize_draft
publish valid f s run_id d at now later =
    if text_eq (trim_space run_id) "" || not (valid_draft valid (normalize_draft d))
    then (s, err invalid_input)
    else append valid s (trim_space run_id) (normalize_draft d) at f.retention now later

unfoldable pub replay : Feed → Store → String → ℤ → ℕ → Store × Result Error (List Event)
replay f s run_id after now =
    if text_eq (trim_space run_id) "" || is_negative after
    then (s, err invalid_input)
    else list s (trim_space run_id) after f.batch_size now

unfoldable pub release : Feed → Store → String → ℕ → ℕ → Store × Result Error (Unit {0})
release f s run_id now later =
    if text_eq (trim_space run_id) ""
    then (s, err invalid_input)
    else release_terminal s (trim_space run_id) f.retention now later
