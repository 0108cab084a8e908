-- ===== src/RunFeed/Logs.antt =====
-- go/agent-runtime/memory/runfeed.go: the Store as a log of events for each Run, of which it may forget the
-- beginning, and which begins anew once a terminal Run is forgotten as a whole.
use gaoge_agent_runtime.Prelude.{
  ℕ, ◌+◌, String, Bool, true, Option, none, some, List, [], ◌∷◌, ◌++◌, length, drop_all,
  drop-append, ◌≡◌, ◌⊎◌, inl, inr, refl, sym, ap, ◌∙◌, leb, ite, ◌||◌, ◌==◌, arith, put, text_dec,
  trim_space, ok, err, Option-cases, Bool-cases, length-append, text_eq,
}
use mathlib.Core.Path.{subst}
use gaoge_agent_runtime.Prelude.Int.{ℤ, pos_part}
use gaoge_agent_runtime.RunFeed.{
  Draft, Event, FeedRecord, zero_record, Store, record_or_zero, expired_record, expire_events,
  event_of, appended, append_refused, append, list, release_terminal,
}
use gaoge_agent_runtime.RunFeed.Retention.{Keeps, IsNumbered-snoc}

-- Every record keeps the end of the log of its Run.
abbrev pub KeepsAll : Store → (String → List Event) → Type 0
KeepsAll s logs = (id : String) (r : FeedRecord) → s id ≡ some r → Keeps r (logs id)

-- The log of a Run whose record may be gone.
abbrev pub log_or_new : Option FeedRecord → List Event → List Event
log_or_new none log = []
log_or_new (some r) log = log

abbrev pub with_log : (String → List Event) → String → List Event → String → List Event
with_log logs id log k = ite (text_dec k id) log (logs k)

expired-Keeps :
    (o : Option FeedRecord) (now : ℕ) (r : FeedRecord) (log : List Event)
    → ((x : FeedRecord) → o ≡ some x → Keeps x log)
    → expired_record o now ≡ some r
    → Keeps r log
unfolding expired_record
expired-Keeps none now r log h e = cc
expired-Keeps (some x) now r log h e = elim (Bool-cases (leb x.expires_at now)) [
  | inr fresh ↦ h r (ground arith)
  | inl due ↦
      let k = h x refl in
      record {
        lost = length log;
        within = omega arith;
        kept = ground (arith, drop_all log);
        counted = ground (arith, k.counted);
        numbered = k.numbered;
      }
]

zero-Keeps : Keeps zero_record []
zero-Keeps = record { lost = 0; within = omega arith; kept = refl; counted = refl; numbered = tt }

-- The record that an operation works on, after the expiry, keeps the end of the Run's log.
pub current-Keeps :
    (s : Store) (logs : String → List Event) (id : String) (now : ℕ)
    → KeepsAll s logs
    → Keeps
        (record_or_zero (expire_events s id now id))
        (log_or_new (expire_events s id now id) (logs id))
unfolding expire_events
current-Keeps s logs id now h = elim (Option-cases (expire_events s id now id)) [
  | inl gone ↦ rw gone zero-Keeps
  | inr (r, p) ↦ rw p (expired-Keeps (s id) now r (logs id) (h id) (ground arith))
]

expire_events-KeepsAll :
    (s : Store) (logs : String → List Event) (id : String) (now : ℕ)
    → KeepsAll s logs
    → KeepsAll (expire_events s id now) logs
unfolding expire_events
expire_events-KeepsAll s logs id now h k r e = elim (text_dec k id) [
  | yes same ↦ expired-Keeps (s k) now r (logs k) (h k) (ground arith)
  | no other ↦ h k r (ground arith)
]

appended-Keeps :
    (r : FeedRecord) (log : List Event) (e : Event) (expires_at : ℕ)
    → Keeps r log
    → e.seq ≡ r.sequence + 1
    → Keeps (appended r e expires_at) (log ++ e ∷ [])
appended-Keeps r log e expires_at h p = record {
  lost = h.lost;
  within = omega (arith, h.within, length-append log (e ∷ []));
  kept = ap (λ es. es ++ e ∷ []) h.kept ∙ drop-append h.lost log (e ∷ []) h.within;
  counted = omega (arith, p, h.counted, length-append log (e ∷ []));
  numbered = IsNumbered-snoc 1 log e h.numbered (omega (arith, p, h.counted));
}

put-KeepsAll :
    (s : Store) (logs : String → List Event) (id : String) (r : FeedRecord) (log : List Event)
    → KeepsAll s logs
    → Keeps r log
    → KeepsAll (put s id r) (with_log logs id log)
put-KeepsAll s logs id r log h k i x e = elim (text_dec i id) [
  | yes same ↦
      let here : r ≡ x = ground arith in
      let there : log ≡ with_log logs id log i = ground arith in
      subst (Keeps x) there (subst (λ z. Keeps z log) here k)
  | no other ↦
      let there : logs i ≡ with_log logs id log i = ground arith in
      subst (Keeps x) there (h i x (ground arith))
]

put_same-KeepsAll :
    (s : Store) (logs : String → List Event) (id : String) (r : FeedRecord)
    → KeepsAll s logs
    → Keeps r (logs id)
    → KeepsAll (put s id r) logs
put_same-KeepsAll s logs id r h k i x e = elim (text_dec i id) [
  | yes same ↦
      let here : r ≡ x = ground arith in
      subst (λ z. Keeps z (logs i)) here (subst (λ j. Keeps r (logs j)) (sym same) k)
  | no other ↦ h i x (ground arith)
]

KeepsAll-same :
    (s t : Store) (logs logs' : String → List Event)
    → t ≡ s
    → logs' ≡ logs
    → KeepsAll s logs
    → KeepsAll t logs'
KeepsAll-same s t logs logs' p q h =
    subst (λ z. KeepsAll z logs') (sym p) (subst (KeepsAll s) (sym q) h)

marked-Keeps :
    (r : FeedRecord) (log : List Event) (at : ℕ)
    → Keeps r log
    → Keeps (record r { terminal = true; expires_at = at }) log
marked-Keeps r log at h = record {
  lost = h.lost;
  within = h.within;
  kept = h.kept;
  counted = h.counted;
  numbered = h.numbered;
}

-- A call of the Store, with the readings of its clock.
pub data Call : Type 0 where
  appends : String → Draft → ℕ → ℤ → ℕ → ℕ → Call
  lists : String → ℤ → ℤ → ℕ → Call
  releases : String → ℤ → ℕ → ℕ → Call

module _ (valid : String → Bool) where
  -- The store after a call.
  unfoldable pub call : Store → Call → Store
  unfolding append list release_terminal
  call s (appends id d at retention now later) = (append valid s id d at retention now later).0
  call s (lists id after limit now) = (list s id after limit now).0
  call s (releases id retention now later) = (release_terminal s id retention now later).0

  -- The logs after a call: an append that succeeds adds its event to the log of the Run, which begins anew
  -- when the Store had forgotten the Run.
  unfoldable pub logs_after : Store → (String → List Event) → Call → String → List Event
  logs_after s logs (appends id d at retention now later) =
      elim (append valid s id d at retention now later).1 [
        | err e ↦ logs
        | ok event ↦ with_log logs (trim_space id) (
            log_or_new (expire_events s (trim_space id) now (trim_space id)) (logs (trim_space id))
            ++ event ∷ [])
      ]
  logs_after s logs (lists id after limit now) = logs
  logs_after s logs (releases id retention now later) = logs

  unfoldable pub run_calls :
      Store → (String → List Event) → List Call → Store × (String → List Event)
  unfolding call logs_after
  run_calls s logs [] = (s, logs)
  run_calls s logs (c ∷ cs) = run_calls (call s c) (logs_after s logs c) cs

  append-KeepsAll :
      (s : Store) (logs : String → List Event) (id : String) (d : Draft) (at : ℕ) (retention : ℤ)
      (now later : ℕ)
      → KeepsAll s logs
      → KeepsAll
          (call s (appends id d at retention now later))
          (logs_after s logs (appends id d at retention now later))
  unfolding call logs_after append
  append-KeepsAll s logs id d at retention now later h =
      elim (Bool-cases (append_refused valid (trim_space id) d retention)) [
        | inl bad ↦ KeepsAll-same s _ logs _ (ground arith) (ground arith) h
        | inr good ↦ KeepsAll-same _ _ _ _ (ground arith) (ground arith) (
            put-KeepsAll (expire_events s (trim_space id) now) logs (trim_space id) _ _
              (expire_events-KeepsAll s logs (trim_space id) now h)
              (appended-Keeps (record_or_zero (expire_events s (trim_space id) now (trim_space id)))
                (log_or_new (expire_events s (trim_space id) now (trim_space id))
                  (logs (trim_space id)))
                (event_of (trim_space id) d
                  ((record_or_zero (expire_events s (trim_space id) now (trim_space id))).sequence
                    + 1)
                  at)
                (later + pos_part retention) (current-Keeps s logs (trim_space id) now h) refl))
      ]

  release-KeepsAll :
      (s : Store) (logs : String → List Event) (id : String) (retention : ℤ) (now later : ℕ)
      → KeepsAll s logs
      → KeepsAll (release_terminal s id retention now later).0 logs
  unfolding release_terminal
  release-KeepsAll s logs id retention now later h =
      let old = expire_events s (trim_space id) now in
      let g = expire_events-KeepsAll s logs (trim_space id) now h in
      elim (Bool-cases (text_eq (trim_space id) "" || pos_part retention == 0)) [
        | inl bad ↦ KeepsAll-same s _ logs _ (ground arith) refl h
        | inr good ↦ elim (Option-cases (old (trim_space id))) [
          | inl gone ↦ KeepsAll-same old _ logs _ (ground arith) refl g
          | inr (r, p) ↦ elim (Bool-cases (r.sequence == 0)) [
            | inl unused ↦ KeepsAll-same old _ logs _ (ground arith) refl g
            | inr used ↦
                KeepsAll-same
                  (put old (trim_space id)
                    (record r { terminal = true; expires_at = later + pos_part retention }))
                  _ logs _ (ground arith) refl
                  (put_same-KeepsAll old logs (trim_space id) _ g
                    (marked-Keeps r _ (later + pos_part retention) (g (trim_space id) r p)))
          ]
        ]
      ]

  list-store :
      (s : Store) (id : String) (after limit : ℤ) (now : ℕ)
      → ((list s id after limit now).0 ≡ s)
        ⊎ ((list s id after limit now).0 ≡ expire_events s (trim_space id) now)
  unfolding list
  list-store s id after limit now = ground arith

  call-KeepsAll :
      (s : Store) (logs : String → List Event) (c : Call)
      → KeepsAll s logs
      → KeepsAll (call s c) (logs_after s logs c)
  unfolding call logs_after
  call-KeepsAll s logs (appends id d at retention now later) h =
      append-KeepsAll s logs id d at retention now later h
  call-KeepsAll s logs (lists id after limit now) h = elim (list-store s id after limit now) [
    | inl same ↦ KeepsAll-same s _ logs _ same refl h
    | inr passed ↦
        KeepsAll-same _ _ logs _ passed refl (expire_events-KeepsAll s logs (trim_space id) now h)
  ]
  call-KeepsAll s logs (releases id retention now later) h =
      release-KeepsAll s logs id retention now later h

  -- Over any history of calls the Store keeps, for each Run that it knows, the end of the Run's log, with the
  -- log numbered from 1 without a gap and the sequence its length.
  pub feed_calls-KeepsAll :
      (cs : List Call) (s : Store) (logs : String → List Event)
      → KeepsAll s logs
      → KeepsAll (run_calls s logs cs).0 (run_calls s logs cs).1
  unfolding run_calls
  feed_calls-KeepsAll [] s logs h = h
  feed_calls-KeepsAll (c ∷ cs) s logs h =
      feed_calls-KeepsAll cs (call s c) (logs_after s logs c) (call-KeepsAll s logs c h)
