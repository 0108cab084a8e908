-- ===== src/RunFeed/Pages.antt =====
-- go/agent-runtime/memory/runfeed.go: what `List` gives of the log of a Run.
-- beginning, and which begins anew once a terminal Run is forgotten as a whole.
use gaoge_agent_runtime.Prelude.{
  ℕ, ◌<◌, String, true, List, length, drop, ◌≡◌, ◌∙◌, arith, trim_space, ok, err,
}
use gaoge_agent_runtime.Prelude.Int.{ℤ, pos_part}
use gaoge_agent_runtime.RunFeed.{
  Event, Store, cursor_expired, record_or_zero, expire_events, is_cursor_expired, more_of, list,
}
use gaoge_agent_runtime.RunFeed.Retention.{page, IsNumbered, collect-page, cursor_expired-lost}
-- Every record keeps the end of the log of its Run.
use gaoge_agent_runtime.RunFeed.Logs.{KeepsAll, log_or_new, current-Keeps}

pub log-IsNumbered :
    (s : Store) (logs : String → List Event) (id : String) (now : ℕ)
    → KeepsAll s logs
    → IsNumbered 1
        (log_or_new (expire_events s (trim_space id) now (trim_space id)) (logs (trim_space id)))
log-IsNumbered s logs id now h = (current-Keeps s logs (trim_space id) now h).numbered

-- A page of `List`, on a Store that keeps the ends of the logs: the events of the Run's log after the
-- position, as many as the limit allows.
pub feed_page :
    (s : Store) (logs : String → List Event) (id : String) (after limit : ℤ) (now : ℕ)
    (es : List Event)
    → KeepsAll s logs
    → (list s id after limit now).1 ≡ ok es
    → es
      ≡ page
          (pos_part after)
          (more_of limit)
          (log_or_new (expire_events s (trim_space id) now (trim_space id)) (logs (trim_space id)))
unfolding list
feed_page s logs id after limit now es h e = ground (
  arith,
  collect-page (record_or_zero (expire_events s (trim_space id) now (trim_space id))) _
      (pos_part after) (more_of limit) (current-Keeps s logs (trim_space id) now h),
)

-- `List` refuses a position only when the Store has forgotten the event after it: the error names the
-- position and the length of the log, and the Store keeps the log only from beyond the position on.
pub feed_gap :
    (s : Store) (logs : String → List Event) (id : String) (after limit : ℤ) (now a head : ℕ)
    → KeepsAll s logs
    → (list s id after limit now).1 ≡ err (cursor_expired a head)
    → let current = expire_events s (trim_space id) now (trim_space id) in
      let log = log_or_new current (logs (trim_space id)) in
      (a ≡ pos_part after)
      × (head ≡ length log)
      × (a < head)
      × ((l : ℕ) × ((record_or_zero current).events ≡ drop l log) × (a < l))
unfolding list
feed_gap s logs id after limit now a head h e =
    let current = expire_events s (trim_space id) now (trim_space id) in
    let k = current-Keeps s logs (trim_space id) now h in
    let refused : is_cursor_expired (record_or_zero current) (pos_part after) ≡ true =
      ground arith in
    let gap =
      cursor_expired-lost (record_or_zero current) (log_or_new current (logs (trim_space id)))
        (pos_part after) k refused in
    let same : a ≡ pos_part after = ground arith in
    let top : head ≡ (record_or_zero current).sequence = ground arith in
    (
      same,
      top ∙ k.counted,
      omega (arith, same, top, k.counted, gap.1),
      (k.lost, k.kept, omega (arith, same, gap.0)),
    )
