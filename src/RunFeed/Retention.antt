-- ===== src/RunFeed/Retention.antt =====
-- go/agent-runtime/memory/runfeed.go: what a record keeps of the log of its Run.
use gaoge_agent_runtime.Prelude.{
  ℕ, zero, suc, ◌+◌, ◌-◌, ◌≤◌, ◌<◌, leb, true, false, Option, none, some, List, [], ◌∷◌, ◌++◌,
  length, take, drop, drop_nil, drop-drop, length-drop, ◌≡◌, ◌⊎◌, inl, inr, refl, sym, ◌∙◌, ap,
  arith, Bool-cases,
}
use mathlib.Core.Path.{subst}
use gaoge_agent_runtime.RunFeed.{Event, FeedRecord, is_cursor_expired, collect}

-- The events are numbered from `n` on, without a gap.
abbrev pub IsNumbered : ℕ → List Event → Type 0
IsNumbered n [] = Unit
IsNumbered n (e ∷ es) = (e.seq ≡ n) × IsNumbered (suc n) es

-- A record keeps the end of a log that is numbered from 1: all but `lost` of its events.
pub record Keeps (r : FeedRecord) (log : List Event) : Type 0 where
  pub lost : ℕ
  pub within : lost ≤ length log
  pub kept : r.events ≡ drop lost log
  pub counted : r.sequence ≡ length log
  pub numbered : IsNumbered 1 log

-- The page of the log that a reader asks for.
abbrev pub bound : Option ℕ → List Event → List Event
bound none xs = xs
bound (some n) xs = take (suc n) xs

abbrev pub page : ℕ → Option ℕ → List Event → List Event
page after more log = bound more (drop after log)

pub IsNumbered-snoc :
    (n : ℕ) (log : List Event) (e : Event)
    → IsNumbered n log
    → e.seq ≡ n + length log
    → IsNumbered n (log ++ e ∷ [])
IsNumbered-snoc n [] e h p = (omega arith, tt)
IsNumbered-snoc n (x ∷ log) e (q, h) p = (q, IsNumbered-snoc (suc n) log e h (omega arith))

pub IsNumbered-drop :
    (k n : ℕ) (log : List Event) → IsNumbered n log → IsNumbered (k + n) (drop k log)
IsNumbered-drop zero n log h = ground (arith, h)
IsNumbered-drop (suc k) n [] h = tt
IsNumbered-drop (suc k) n (x ∷ log) h =
    subst (λ m. IsNumbered m (drop k log)) (omega arith) (IsNumbered-drop k (suc n) log h.1)

-- The bound of the loop alone.
collect-bound :
    (after : ℕ) (more : Option ℕ) (es : List Event)
    → collect after more es ≡ bound more (collect after none es)
unfolding collect
collect-bound after none [] = refl
collect-bound after (some n) [] = refl
collect-bound after none (e ∷ es) = refl
collect-bound after (some zero) (e ∷ es) = ground (arith, collect-bound after (some zero) es)
collect-bound after (some (suc n)) (e ∷ es) =
    ground (arith, collect-bound after (some n) es, collect-bound after (some (suc n)) es)

-- Past the cursor the loop takes what comes.
collect_all :
    (es : List Event) (m after : ℕ) → IsNumbered m es → after < m → collect after none es ≡ es
unfolding collect
collect_all [] m after h b = refl
collect_all (e ∷ es) m after (p, h) b = ground (arith, collect_all es (suc m) after h)

-- Before it, it skips.
collect-drop :
    (es : List Event) (k after : ℕ)
    → IsNumbered (suc k) es
    → k ≤ after
    → collect after none es ≡ drop (after - k) es
unfolding collect
collect-drop [] k after h b = sym (drop_nil (after - k))
collect-drop (e ∷ es) k after (p, h) b = elim (Bool-cases (leb (suc k) after)) [
  | inl skip ↦
      let n : after - k ≡ suc (after - suc k) = ground arith in
      rw n (ground (arith, collect-drop es (suc k) after h))
  | inr stop ↦
      let n : after - k ≡ 0 = ground arith in
      rw n (ground (arith, collect_all es (suc (suc k)) after h))
]

kept-IsNumbered :
    (r : FeedRecord) (log : List Event) (h : Keeps r log) → IsNumbered (suc h.lost) r.events
kept-IsNumbered r log h = subst (IsNumbered (suc h.lost)) (sym h.kept) (
    subst (λ m. IsNumbered m (drop h.lost log)) (omega arith)
      (IsNumbered-drop h.lost 1 log h.numbered))

-- The events of a record: none, or one that follows the lost ones.
first_kept :
    (r : FeedRecord) (log : List Event) (h : Keeps r log)
    → ((r.events ≡ []) × (h.lost ≡ length log))
      ⊎ ((e : Event) × (es : List Event) × (r.events ≡ e ∷ es) × (e.seq ≡ suc h.lost))
first_kept r log h =
    go r.events (omega (arith, ap (length {A = Event}) h.kept, length-drop h.lost log, h.within))
      (kept-IsNumbered r log h)
  where
    go :
        (es : List Event)
        → length es + h.lost ≡ length log
        → IsNumbered (suc h.lost) es
        → ((es ≡ []) × (h.lost ≡ length log))
          ⊎ ((e : Event) × (rest : List Event) × (es ≡ e ∷ rest) × (e.seq ≡ suc h.lost))
    go [] n k = inl (refl, omega arith)
    go (e ∷ es) n k = inr (e, es, refl, k.0)

not_expired-lost :
    (r : FeedRecord) (log : List Event) (after : ℕ) (h : Keeps r log)
    → is_cursor_expired r after ≡ false
    → h.lost ≤ after
unfolding is_cursor_expired
not_expired-lost r log after h e = elim (first_kept r log h) [
  | inl (none_kept, all_lost) ↦ ground (arith, h.counted, h.within)
  | inr (x, xs, p, q) ↦ ground (arith, h.counted, h.within)
]

-- A reader whose cursor is not refused gets the page of the log; and a refused one asked for an event that
-- the record has lost.
pub collect-page :
    (r : FeedRecord) (log : List Event) (after : ℕ) (more : Option ℕ)
    → Keeps r log
    → is_cursor_expired r after ≡ false
    → collect after more r.events ≡ page after more log
collect-page r log after more h e =
    let l = not_expired-lost r log after h e in
    collect-bound after more r.events
    ∙ ap (bound more) (
        collect-drop r.events h.lost after (kept-IsNumbered r log h) l
        ∙ ap (drop (after - h.lost)) h.kept
        ∙ drop-drop h.lost (after - h.lost) log
        ∙ ap (λ n. drop n log) (omega arith))

pub cursor_expired-lost :
    (r : FeedRecord) (log : List Event) (after : ℕ) (h : Keeps r log)
    → is_cursor_expired r after ≡ true
    → (after < h.lost) × (after < length log)
unfolding is_cursor_expired
cursor_expired-lost r log after h e = elim (first_kept r log h) [
  | inl (none_kept, all_lost) ↦ ground (arith, h.counted, h.within)
  | inr (x, xs, p, q) ↦ ground (arith, h.counted, h.within)
]
