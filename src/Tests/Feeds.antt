-- ===== src/Tests/Feeds.antt =====
-- The theorems on go/agent-runtime/memory/runfeed.go and go/agent-runtime/runfeed/runfeed.go, applied to a
-- feed whose first event is forgotten.
use gaoge_agent_runtime.Prelude.{
  ℕ, ◌<◌, ◌≡◌, refl, arith, String, Bool, true, false, List, [], ◌∷◌, length, drop, ok, err,
  text_dec, trim_space, byte_length, empty_map,
}
use gaoge_agent_runtime.Prelude.Int.{pos}
use gaoge_agent_runtime.RunFeed.{
  Draft, Event, Store, Feed, cursor_expired, record_or_zero, event_of, expire_events,
  expired_record, append, append_refused, list, is_cursor_expired, collect,
}
use gaoge_agent_runtime.RunFeed.Retention.{IsNumbered}
use gaoge_agent_runtime.RunFeed.Logs.{
  KeepsAll, log_or_new, Call, appends, call, logs_after, run_calls, feed_calls-KeepsAll,
}
use gaoge_agent_runtime.RunFeed.Pages.{feed_gap}
use gaoge_agent_runtime.RunFeed.Following.{follow, IsBeginning, follow-IsBeginning}
use mathlib.Core.List.{append-nil}

abbrev any_text : String → Bool
any_text t = true

abbrev no_logs : String → List Event
no_logs id = []

abbrev draft : Draft
draft = record {
  type = "run.delta";
  delta = "d";
  message = "";
  body = "{}";
  revision = 1;
  status = "running";
  terminal = false;
}

-- The first event expires at 15, before the second one comes.
abbrev feed_calls : List Call
feed_calls = appends "run-1" draft 9 (pos 5) 10 10 ∷ appends "run-1" draft 19 (pos 5) 20 20 ∷ []

abbrev feed_store : Store
feed_store = (run_calls any_text empty_map no_logs feed_calls).0

abbrev feed_logs : String → List Event
feed_logs = (run_calls any_text empty_map no_logs feed_calls).1

feed_calls-KeepsAll_example : KeepsAll feed_store feed_logs
feed_calls-KeepsAll_example =
    feed_calls-KeepsAll any_text feed_calls empty_map no_logs (λ id r p. absurd (ground arith))

feed_store-KeepsAll : KeepsAll feed_store feed_logs
feed_store-KeepsAll =
    feed_calls-KeepsAll any_text feed_calls empty_map no_logs (λ id r p. absurd (ground arith))

abbrev second : Event
second = event_of "run-1" draft 2 19

second_listed : (list feed_store "run-1" (pos 1) (pos 4) 21).1 ≡ ok (second ∷ [])
unfolding run_calls call logs_after append append_refused expire_events expired_record list
    is_cursor_expired collect text_dec trim_space byte_length
second_listed = refl

first_forgotten : (list feed_store "run-1" (pos 0) (pos 4) 21).1 ≡ err (cursor_expired 0 2)
unfolding run_calls call logs_after append append_refused expire_events expired_record list
    is_cursor_expired collect text_dec trim_space byte_length
first_forgotten = refl

feed_gap_example :
    ◌≡◌ {A = ℕ} 0 0
    × ◌≡◌ {A = ℕ} 2 (
        length (
          log_or_new
            (expire_events feed_store (trim_space "run-1") 21 (trim_space "run-1"))
            (feed_logs (trim_space "run-1"))))
    × (0 < 2)
    × ((l : ℕ) × ((record_or_zero
            (expire_events feed_store (trim_space "run-1") 21 (trim_space "run-1"))).events
          ≡ drop l (
              log_or_new
                (expire_events feed_store (trim_space "run-1") 21 (trim_space "run-1"))
                (feed_logs (trim_space "run-1"))))
        × (0 < l))
feed_gap_example =
    feed_gap feed_store feed_logs "run-1" (pos 0) (pos 4) 21 0 2 feed_store-KeepsAll first_forgotten

abbrev feed : Feed
feed = record { retention = pos 5; batch_size = pos 4 }

follow-IsBeginning_example :
    IsNumbered 2 (follow feed "run-1" 1 ((feed_store, 12) ∷ (feed_store, 22) ∷ []))
    × IsBeginning
        (follow feed "run-1" 1 ((feed_store, 12) ∷ (feed_store, 22) ∷ []))
        (drop 1 (feed_logs (trim_space "run-1")))
follow-IsBeginning_example =
    follow-IsBeginning feed "run-1" (feed_logs (trim_space "run-1")) 1
      ((feed_store, 12) ∷ (feed_store, 22) ∷ [])
      (
        (feed_logs, feed_store-KeepsAll, ([], append-nil (feed_logs (trim_space "run-1")))),
        ((feed_logs, feed_store-KeepsAll, ([], append-nil (feed_logs (trim_space "run-1")))), tt),
      )
