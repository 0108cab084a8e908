-- ===== src/RunFeed/Following.antt =====
-- go/agent-runtime/runfeed/runfeed.go: `deliverAvailable` and the loop of `follow`, for a subscriber that
-- takes every event. Each round of the loop is one poll of the Store.
use gaoge_agent_runtime.Prelude.{
  ℕ, zero, suc, ◌+◌, ◌≤◌, String, Bool, true, false, Option, none, some, List, [], ◌∷◌, ◌++◌,
  length, take, drop, ◌≡◌, inl, inr, refl, sym, ap, ◌∙◌, arith, ok, err, Result-cases, Option-cases,
  Bool-cases, if◌then◌else◌, All, dec_lt, trim_space, take-append-drop, drop-append, drop-drop,
  drop_all,
}
use mathlib.Core.List.{append_assoc, append-nil}
use gaoge_agent_runtime.Prelude.Int.{ℤ, pos}
use gaoge_agent_runtime.RunFeed.{Event, Store, Feed, list, more_of, expire_events}
use gaoge_agent_runtime.RunFeed.Retention.{IsNumbered, IsNumbered-drop, page}
use gaoge_agent_runtime.RunFeed.Logs.{KeepsAll, log_or_new}
use gaoge_agent_runtime.RunFeed.Pages.{log-IsNumbered, feed_page}
use mathlib.Core.Path.{subst}

-- What one round sends, where the cursor is then, and whether the stream ends.
pub record Round : Type 0 where
  pub sent : List Event
  pub cursor : ℕ
  pub terminal : Bool

-- The loop of `deliverAvailable` over one page.
unfoldable pub deliver : ℕ → List Event → Round
deliver after [] = record { sent = []; cursor = after; terminal = false }
deliver after (e ∷ es) =
    let rest = deliver e.seq es in
    if e.terminal
    then record { sent = e ∷ []; cursor = e.seq; terminal = true }
    else record { sent = e ∷ rest.sent; cursor = rest.cursor; terminal = rest.terminal }

-- The events that `follow` sends over some polls, each of a Store at a reading of its clock.
unfoldable pub follow : Feed → String → ℕ → List (Store × ℕ) → List Event
unfolding deliver
follow f id after [] = []
follow f id after ((s, now) ∷ polls) = elim (list s id (pos after) f.batch_size now).1 [
  | err e ↦ []
  | ok page ↦
      let round = deliver after page in
      if round.terminal then round.sent else round.sent ++ follow f id round.cursor polls
]

take-IsNumbered : (k n : ℕ) (es : List Event) → IsNumbered n es → IsNumbered n (take k es)
take-IsNumbered zero n es h = tt
take-IsNumbered (suc k) n [] h = tt
take-IsNumbered (suc k) n (e ∷ es) (p, h) = (p, take-IsNumbered k (suc n) es h)

page-IsNumbered :
    (after : ℕ) (more : Option ℕ) (log : List Event)
    → IsNumbered 1 log
    → IsNumbered (suc after) (page after more log)
page-IsNumbered after none log h =
    subst (λ m. IsNumbered m (drop after log)) (omega arith) (IsNumbered-drop after 1 log h)
page-IsNumbered after (some n) log h =
    take-IsNumbered (suc n) (suc after) (drop after log)
      (subst (λ m. IsNumbered m (drop after log)) (omega arith) (IsNumbered-drop after 1 log h))

IsNumbered-append :
    (n : ℕ) (xs ys : List Event)
    → IsNumbered n xs
    → IsNumbered (length xs + n) ys
    → IsNumbered n (xs ++ ys)
IsNumbered-append n [] ys h k = subst (λ m. IsNumbered m ys) (omega arith) k
IsNumbered-append n (x ∷ xs) ys (p, h) k =
    (p, IsNumbered-append (suc n) xs ys h (subst (λ m. IsNumbered m ys) (omega arith) k))

deliver-IsNumbered :
    (after : ℕ) (es : List Event)
    → IsNumbered (suc after) es
    → IsNumbered (suc after) (deliver after es).sent
      × ((deliver after es).cursor ≡ length (deliver after es).sent + after)
unfolding deliver
deliver-IsNumbered after [] h = (tt, omega arith)
deliver-IsNumbered after (e ∷ es) (p, h) = elim (Bool-cases e.terminal) [
  | inl last ↦ rw last ((p, tt), omega (arith, p))
  | inr more ↦
      let k = deliver-IsNumbered e.seq es (subst (λ n. IsNumbered (suc n) es) (sym p) h) in
      rw more
        ((p, subst (λ n. IsNumbered (suc n) (deliver e.seq es).sent) p k.0), omega (arith, p, k.1))
]

-- The first list is a beginning of the second.
abbrev pub IsBeginning : List Event → List Event → Type 0
IsBeginning xs ys = (rest : List Event) × (xs ++ rest ≡ ys)

take-IsBeginning : (n : ℕ) (xs : List Event) → IsBeginning (take n xs) xs
take-IsBeginning n xs = (drop n xs, take-append-drop n xs)

IsBeginning-trans :
    (xs ys zs : List Event) → IsBeginning xs ys → IsBeginning ys zs → IsBeginning xs zs
IsBeginning-trans xs ys zs (r, p) (q, e) =
    (r ++ q, sym (append_assoc xs r q) ∙ ap (λ es. es ++ q) p ∙ e)

drop_past : (n : ℕ) (xs : List Event) → length xs ≤ n → drop n xs ≡ []
drop_past zero [] h = refl
drop_past zero (x ∷ xs) h = absurd (omega arith)
drop_past (suc n) [] h = refl
drop_past (suc n) (x ∷ xs) h = drop_past n xs (omega arith)

drop-IsBeginning :
    (n : ℕ) (xs ys : List Event) → IsBeginning xs ys → IsBeginning (drop n xs) (drop n ys)
drop-IsBeginning n xs ys (r, p) = elim (dec_lt (length xs) n) [
  | no within ↦ (r, drop-append n xs r (omega (arith, within)) ∙ ap (drop n) p)
  | yes past ↦
      let none_left = drop_past n xs (omega (arith, past)) in
      subst (λ es. IsBeginning es (drop n ys)) (sym none_left) (drop n ys, refl)
]

page-IsBeginning :
    (after : ℕ) (more : Option ℕ) (log : List Event)
    → IsBeginning (page after more log) (drop after log)
page-IsBeginning after none log = ([], append-nil (drop after log))
page-IsBeginning after (some n) log = take-IsBeginning (suc n) (drop after log)

deliver-IsBeginning : (after : ℕ) (es : List Event) → IsBeginning (deliver after es).sent es
unfolding deliver
deliver-IsBeginning after [] = ([], refl)
deliver-IsBeginning after (e ∷ es) = elim (Bool-cases e.terminal) [
  | inl last ↦
      let all : e ∷ [] ≡ (deliver after (e ∷ es)).sent = ground arith in
      subst (λ xs. IsBeginning xs (e ∷ es)) all (es, refl)
  | inr more ↦
      let all : e ∷ (deliver e.seq es).sent ≡ (deliver after (e ∷ es)).sent = ground arith in
      let b = deliver-IsBeginning e.seq es in
      subst (λ xs. IsBeginning xs (e ∷ es)) all (b.0, ap (λ xs. e ∷ xs) b.1)
]

-- What follows a beginning of what a log has after a position.
after_beginning :
    (k : ℕ) (log xs rest : List Event) → xs ++ rest ≡ drop k log → rest ≡ drop (length xs + k) log
after_beginning k log xs rest p =
    ap (λ es. es ++ rest) (sym (drop_all xs))
    ∙ drop-append (length xs) xs rest (omega arith)
    ∙ ap (drop (length xs)) p
    ∙ drop-drop k (length xs) log
    ∙ ap (λ n. drop n log) (omega arith)

IsBeginning-append :
    (k : ℕ) (log xs ys : List Event)
    → IsBeginning xs (drop k log)
    → IsBeginning ys (drop (length xs + k) log)
    → IsBeginning (xs ++ ys) (drop k log)
IsBeginning-append k log xs ys (r, p) (q, e) =
    (q, append_assoc xs ys q ∙ ap (λ es. xs ++ es) (e ∙ sym (after_beginning k log xs r p)) ∙ p)

-- A poll of a Store that keeps, of a Run's log as far as it had come then, the end.
abbrev pub IsKeptOf : String → List Event → Store × ℕ → Type 0
IsKeptOf id log (s, now) =
    (logs : String → List Event) × KeepsAll s logs × IsBeginning (logs (trim_space id)) log

-- A page is a beginning of what the log has after the position.
log_page-IsBeginning :
    (s : Store) (logs : String → List Event) (id : String) (after : ℕ) (limit : ℤ) (now : ℕ)
    (log es : List Event)
    → KeepsAll s logs
    → IsBeginning (logs (trim_space id)) log
    → (list s id (pos after) limit now).1 ≡ ok es
    → IsBeginning es (drop after log)
log_page-IsBeginning s logs id after limit now log es k b p =
    let known =
      log_or_new (expire_events s (trim_space id) now (trim_space id)) (logs (trim_space id)) in
    let known_of : IsBeginning known log =
      elim (Option-cases (expire_events s (trim_space id) now (trim_space id))) [
        | inl gone ↦ rw gone (log, refl)
        | inr (r, there) ↦ rw there b
      ] in
    subst (λ xs. IsBeginning xs (drop after log))
      (sym (feed_page s logs id (pos after) limit now es k p))
      (IsBeginning-trans _ (drop after known) (drop after log)
        (page-IsBeginning after (more_of limit) known) (drop-IsBeginning after known log known_of))

module _ (f : Feed) (id : String) (log : List Event) where
  -- The events that are sent from a position on are those of the log, numbered.
  AreSent : ℕ → List Event → Type 0
  AreSent after es = IsNumbered (suc after) es × IsBeginning es (drop after log)

  page-AreSent :
      (after : ℕ) (s : Store) (now : ℕ) (es : List Event)
      → IsKeptOf id log (s, now)
      → (list s id (pos after) f.batch_size now).1 ≡ ok es
      → AreSent after (deliver after es).sent
        × ((deliver after es).cursor ≡ length (deliver after es).sent + after)
  unfolding AreSent
  page-AreSent after s now es (logs, k, b) p =
      let n =
        subst (IsNumbered (suc after))
          (sym (feed_page s logs id (pos after) f.batch_size now es k p))
          (page-IsNumbered after (more_of f.batch_size) _ (log-IsNumbered s logs id now k)) in
      let d = deliver-IsNumbered after es n in
      (
        (
          d.0,
          IsBeginning-trans (deliver after es).sent es (drop after log)
              (deliver-IsBeginning after es)
              (log_page-IsBeginning s logs id after f.batch_size now log es k b p),
        ),
        d.1,
      )

  AreSent-append :
      (after cursor : ℕ) (xs ys : List Event)
      → AreSent after xs
      → cursor ≡ length xs + after
      → AreSent cursor ys
      → AreSent after (xs ++ ys)
  unfolding AreSent
  AreSent-append after cursor xs ys (n, b) at later =
      let (m, c) = subst (λ k. AreSent k ys) at later in
      (
        IsNumbered-append (suc after) xs ys n (subst (λ k. IsNumbered k ys) (omega arith) m),
        IsBeginning-append after log xs ys b c,
      )

  -- Over any polls, each of a Store that keeps the end of one log of the Run as far as the log had come then, what
  -- a subscriber is sent is a beginning of what the log has after its cursor, numbered from the one after the
  -- cursor on: no event is left out, changed or sent twice, and they are in order. The polls may find events
  -- forgotten, or the Run as a whole, but not a Run whose log has begun anew.
  pub follow-IsBeginning :
      (after : ℕ) (polls : List (Store × ℕ))
      → All (IsKeptOf id log) polls
      → IsNumbered (suc after) (follow f id after polls)
        × IsBeginning (follow f id after polls) (drop after log)
  unfolding follow AreSent
  follow-IsBeginning after [] h = (tt, (drop after log, refl))
  follow-IsBeginning after ((s, now) ∷ polls) (kept, h) =
      elim (Result-cases (list s id (pos after) f.batch_size now).1) [
        | inl (e, p) ↦
            let all : [] ≡ follow f id after ((s, now) ∷ polls) = ground arith in
            subst (AreSent after) all (tt, (drop after log, refl))
        | inr (es, p) ↦
            let d = page-AreSent after s now es kept p in
            elim (Bool-cases (deliver after es).terminal) [
              | inl last ↦
                  let all : (deliver after es).sent ≡ follow f id after ((s, now) ∷ polls) =
                    ground arith in
                  subst (AreSent after) all d.0
              | inr more ↦
                  let all : (deliver after es).sent ++ follow f id (deliver after es).cursor polls
                      ≡ follow f id after ((s, now) ∷ polls) =
                    ground arith in
                  subst (AreSent after) all (
                    AreSent-append after (deliver after es).cursor (deliver after es).sent
                      (follow f id (deliver after es).cursor polls) d.0 d.1
                      (follow-IsBeginning (deliver after es).cursor polls h))
            ]
      ]
