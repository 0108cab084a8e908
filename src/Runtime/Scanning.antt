-- ===== src/Runtime/Scanning.antt =====
-- go/agent-runtime/kernel/apply_evidence.go: the scan of the journal, page by page.
use gaoge_agent_runtime.Prelude.{
  ℕ, zero, suc, ◌+◌, ◌-◌, ◌≤◌, ◌<◌, min, ltb, String, Bool, false, some, List, [], ◌∷◌, ◌++◌,
  length, take, drop, ◌≡◌, inl, inr, refl, sym, ap, ◌∙◌, arith, Result, ok, err, ◌>>=◌,
  Result-cases, Bool-cases, ltb→lt, ltb→ge, is_blank, trim_space, drop-drop, drop-take-length,
  take-append-drop, drop_all,
}
use mathlib.Core.Path.{subst}
use gaoge_agent_runtime.Kernel.{Error, Event, Snapshot, live}
use gaoge_agent_runtime.Memory
use gaoge_agent_runtime.Memory.{Store, journal}
use gaoge_agent_runtime.Memory.Journal.{
  NumberedFrom, NumberedFrom-drop, NumberedFrom-take, length-page,
}
use gaoge_agent_runtime.Runtime.{list_events}
use gaoge_agent_runtime.Runtime.Identified.{
  ProofCodec, Position, match_event, scan_page, is_misplaced, scan_pages,
}

module _ (proofs : ProofCodec) (expected : ℕ) (operation_id digest : String) where
  -- The match over a whole list of events.
  unfoldable pub match_events : List Event → Bool → Result Error Bool
  match_events [] matched = ok matched
  match_events (e ∷ es) matched =
      match_event proofs expected operation_id digest e matched >>= match_events es

  pub match_events-append :
      (xs ys : List Event) (matched : Bool)
      → match_events (xs ++ ys) matched ≡ (match_events xs matched >>= match_events ys)
  unfolding match_events
  match_events-append [] ys matched = refl
  match_events-append (x ∷ xs) ys matched =
      elim (Result-cases (match_event proofs expected operation_id digest x matched)) [
        | inl (e, p) ↦ ground arith
        | inr (b, p) ↦ ground (arith, match_events-append xs ys b)
      ]

  abbrev at_stop : ℕ → Result Error Bool → Result Error Position
  at_stop stop (ok b) = ok (record { after = stop; matched = b })
  at_stop stop (err e) = err e

  -- A page that is numbered on from the position, and ends before the head, is read whole.
  scan_page-match_events :
      (head : ℕ) (es : List Event) (after stop : ℕ) (matched : Bool)
      → NumberedFrom (suc after) es
      → length es + after ≡ stop
      → stop ≤ head
      → scan_page proofs expected operation_id digest head es after matched
        ≡ at_stop stop (match_events es matched)
  unfolding scan_page match_events
  scan_page-match_events head [] after stop matched n e b =
      let same : after ≡ stop = omega arith in
      ap (λ k. ok (record { after = k; matched = matched })) same
  scan_page-match_events head (e ∷ es) after stop matched (p, n) q b =
      elim (Result-cases (match_event proofs expected operation_id digest e matched)) [
        | inl (x, r) ↦ ground arith
        | inr (now, r) ↦ ground (
          arith,
          scan_page-match_events head es e.seq stop now
              (subst (λ k. NumberedFrom (suc k) es) (sym p) n) (omega (arith, p)) b,
        )
      ]

  -- The rest of the journal after a page, at the position that the page leaves.
  drop_page :
      (es : List Event) (after k : ℕ)
      → drop (length (take k (drop after es)) + after) es ≡ drop k (drop after es)
  drop_page es after k =
      ap (λ n. drop n es) (omega arith)
      ∙ sym (drop-drop after (length (take k (drop after es))) es)
      ∙ drop-take-length k (drop after es)

  -- A page is placed right when it begins at the position.
  page_placed :
      (es : List Event) (after : ℕ)
      → NumberedFrom (suc after) es
      → 0 < length es
      → is_misplaced proofs expected operation_id digest es after ≡ false
  unfolding is_misplaced
  page_placed [] after n b = absurd (omega arith)
  page_placed (e ∷ es) after (p, n) b = ground arith

  -- The page of the Runtime at a position within a well-formed journal.
  next_page :
      (s : Store) (run_id : String) (snap : Snapshot) (after : ℕ)
      → is_blank run_id ≡ false
      → trim_space run_id ≡ run_id
      → s.records run_id ≡ some snap
      → list_events s run_id after 512 ≡ ok (take 512 (drop after (journal s run_id)))
  unfolding list_events Memory.list_events
  next_page s run_id snap after named trimmed found = ground arith

  -- With a round of fuel for each event that is left, the scan reads the whole journal once.
  pub scan_pages-match_events :
      (fuel : ℕ) (s : Store) (run_id : String) (snap : Snapshot) (after : ℕ) (matched : Bool)
      → is_blank run_id ≡ false
      → trim_space run_id ≡ run_id
      → s.records run_id ≡ some snap
      → NumberedFrom 1 (journal s run_id)
      → length (journal s run_id) ≤ fuel + after
      → after ≤ length (journal s run_id)
      → scan_pages proofs expected operation_id digest fuel s live run_id
          (length (journal s run_id))
          after
          matched
        ≡ match_events (drop after (journal s run_id)) matched
  unfolding scan_pages match_events
  scan_pages-match_events zero s run_id snap after matched named trimmed found n f b =
      let over : after ≡ length (journal s run_id) = omega (arith, f, b) in
      let rest : drop after (journal s run_id) ≡ [] =
        ap (λ k. drop k (journal s run_id)) over ∙ drop_all (journal s run_id) in
      ground (arith, rest)
  scan_pages-match_events (suc fuel) s run_id snap after matched named trimmed found n f b =
      let all = journal s run_id in
      let page = take 512 (drop after all) in
      let size : length page ≡ min 512 (length all - after) = length-page 512 after all in
      elim (Bool-cases (ltb after (length all))) [
        | inl more ↦
            let early : after < length all = ltb→lt after (length all) more in
            let stop = length page + after in
            let some_left : 0 < length page = omega (arith, size, early) in
            let numbered : NumberedFrom (suc after) page =
              NumberedFrom-take 512 (suc after) (drop after all) (
                subst (λ k. NumberedFrom k (drop after all)) (omega arith)
                  (NumberedFrom-drop after 1 all n)) in
            let placed = page_placed page after numbered some_left in
            let within : stop ≤ length all = omega (arith, size, early) in
            let whole =
              scan_page-match_events (length all) page after stop matched numbered refl within in
            let read = next_page s run_id snap after named trimmed found in
            let split : match_events (drop after all) matched
                ≡ (match_events page matched >>= match_events (drop 512 (drop after all))) =
              sym (ap (λ xs. match_events xs matched) (take-append-drop 512 (drop after all)))
              ∙ match_events-append page (drop 512 (drop after all)) matched in
            elim (Result-cases (match_events page matched)) [
              | inl (x, q) ↦ ground (arith, split)
              | inr (now, q) ↦
                  let next =
                    scan_pages-match_events fuel s run_id snap stop now named trimmed found n
                      (omega (arith, f)) within in
                  let left = drop_page all after 512 in ground (arith, split, next, left)
            ]
        | inr over ↦
            let rest : drop after all ≡ [] =
              ap (λ k. drop k all) (omega (arith, ltb→ge after (length all) over, b))
              ∙ drop_all all in
            ground (arith, rest)
      ]
