-- ===== src/RunRelation/Reconciling.antt =====
-- go/agent-runtime/memory/runrelation.go and go/agent-runtime/continuation/scheduler.go: the scan of all
-- relations, page after page.
use gaoge_agent_runtime.Prelude.{
  ℕ, zero, suc, ◌≤◌, ◌<◌, ◌≡◌, inl, inr, refl, String, true, false, Option, none, some, List, [],
  ◌∷◌, ◌++◌, arith, Bool-cases, Option-cases, ok, err, sym, ap, ◌∙◌, ltb, length, take, drop, map,
  All, ltb→lt, ltb→ge, length-drop, take-append-drop, if◌then◌else◌,
}
use mathlib.Core.List.{map-append}
use gaoge_agent_runtime.Prelude.Order.{text_lt, text_lt_trans, text_lt_irrefl, text_lt_empty}
use gaoge_agent_runtime.RunRelation.{
  valid_relation, Store, ReconciliationPage, ReconciliationCandidate, candidate, ids_after, last_id,
  max_reconcile_page_size, list_reconcile_page,
}
use gaoge_agent_runtime.RunRelation.Index.{contains, Ascending, IsIndexed}

-- `Scheduler.reconcileCursor` after a page.
unfoldable pub next_reconcile_cursor : ReconciliationPage → String
next_reconcile_cursor page = if page.has_more then page.next_cursor else ""

-- The candidates of the pages from a cursor on, until the cursor wraps; `none` when the fuel runs out.
unfoldable pub scan : ℕ → Store → String → ℕ → Option (List ReconciliationCandidate)
unfolding next_reconcile_cursor
scan zero s cursor limit = none
scan (suc fuel) s cursor limit = elim (list_reconcile_page s cursor limit) [
  | err e ↦ none
  | ok page ↦
      let rest = scan fuel s (next_reconcile_cursor page) limit in
      if page.has_more
      then elim rest [ none ↦ none | some later ↦ some (page.candidates ++ later) ]
      else some page.candidates
]

Above : String → List String → Type 0
Above x = All (λ y. text_lt x y ≡ true)

-- The last identifier of ascending ones above the cursor is not below what the cursor is not below.
last_id-not_below :
    (x c : String) (zs : List String)
    → text_lt c x ≡ false
    → Above c zs
    → Ascending zs
    → text_lt (last_id c zs) x ≡ false
unfolding last_id Above
last_id-not_below x c [] h a b = h
last_id-not_below x c (z ∷ zs) h a b =
    last_id-not_below x z zs (ground (arith, text_lt_trans c z x a.0)) b.0 b.1

ids_after_all : (c : String) (ys : List String) → Above c ys → ids_after c ys ≡ ys
unfolding ids_after Above
ids_after_all c [] a = refl
ids_after_all c (y ∷ ys) a = ground arith

Above-take : (k : ℕ) (c : String) (ys : List String) → Above c ys → Above c (take k ys)
unfolding Above
Above-take zero c ys a = tt
Above-take (suc k) c [] a = tt
Above-take (suc k) c (y ∷ ys) a = (a.0, Above-take k c ys a.1)

Ascending-take : (k : ℕ) (ys : List String) → Ascending ys → Ascending (take k ys)
unfolding Above
Ascending-take zero ys a = tt
Ascending-take (suc k) [] a = tt
Ascending-take (suc k) (y ∷ ys) a = (Above-take k y ys a.0, Ascending-take k ys a.1)

-- The page's last identifier leaves the rest of the identifiers.
ids_after-last_id :
    (k : ℕ) (c : String) (ys : List String)
    → Above c ys
    → Ascending ys
    → ids_after (last_id c (take k ys)) ys ≡ drop k ys
unfolding ids_after last_id Above
ids_after-last_id zero c ys a b = ids_after_all c ys a
ids_after-last_id (suc k) c [] a b = refl
ids_after-last_id (suc k) c (y ∷ ys) a b =
    let below =
      last_id-not_below y y (take k ys) (text_lt_irrefl y) (Above-take k y ys b.0)
        (Ascending-take k ys b.1) in
    ground (arith, below, ids_after-last_id k y ys b.0 b.1)

weaken_lower : (c y : String) (ys : List String) → text_lt c y ≡ true → Above y ys → Above c ys
unfolding Above
weaken_lower c y [] h a = tt
weaken_lower c y (z ∷ zs) h a = (text_lt_trans c y z h a.0, weaken_lower c y zs h a.1)

ids_after-Above : (c : String) (xs : List String) → Ascending xs → Above c (ids_after c xs)
unfolding ids_after Above
ids_after-Above c [] b = tt
ids_after-Above c (x ∷ xs) b = elim (Bool-cases (text_lt c x)) [
  | inl l ↦ let all : Above c (x ∷ xs) = (l, weaken_lower c x xs l b.0) in ground (arith, all)
  | inr g ↦ let rest = ids_after-Above c xs b.1 in ground (arith, rest)
]

ids_after-Ascending : (c : String) (xs : List String) → Ascending xs → Ascending (ids_after c xs)
unfolding ids_after
ids_after-Ascending c [] b = tt
ids_after-Ascending c (x ∷ xs) b = ground (arith, b, ids_after-Ascending c xs b.1)

-- A page goes on where the one before it ended.
next-ids_after :
    (k : ℕ) (c : String) (xs : List String)
    → Ascending xs
    → ids_after (last_id c (take k (ids_after c xs))) xs ≡ drop k (ids_after c xs)
unfolding ids_after Above
next-ids_after zero c [] b = refl
next-ids_after (suc k) c [] b = refl
next-ids_after k c (x ∷ xs) b = elim (Bool-cases (text_lt c x)) [
  | inl l ↦
      let whole = ids_after-last_id k c (x ∷ xs) (l, weaken_lower c x xs l b.0) b in
      ground (arith, whole)
  | inr g ↦
      let below =
        last_id-not_below x c (take k (ids_after c xs)) g
          (Above-take k c (ids_after c xs) (ids_after-Above c xs b.1))
          (Ascending-take k (ids_after c xs) (ids_after-Ascending c xs b.1)) in
      let rest = next-ids_after k c xs b.1 in ground (arith, below, rest)
]

take_all {ℓ} : {A : Type ℓ} (k : ℕ) (xs : List A) → length xs ≤ k → take k xs ≡ xs
take_all zero [] h = refl
take_all zero (x ∷ xs) h = absurd (omega arith)
take_all (suc k) [] h = refl
take_all (suc k) (x ∷ xs) h = ap (◌∷◌ x) (take_all k xs (omega arith))

scan-ids_after :
    (fuel : ℕ) (s : Store) (c : String) (limit : ℕ)
    → IsIndexed s
    → 0 < limit
    → limit ≤ max_reconcile_page_size
    → length (ids_after c s.child_ids) < fuel
    → scan fuel s c limit ≡ some (map (candidate s) (ids_after c s.child_ids))
unfolding scan list_reconcile_page next_reconcile_cursor
scan-ids_after zero s c limit h low high f = absurd (omega arith)
scan-ids_after (suc fuel) s c limit h low high f =
    let ys = ids_after c s.child_ids in
    elim (Bool-cases (ltb limit (length ys))) [
      | inl more ↦
          let next = last_id c (take limit ys) in
          let left = next-ids_after limit c s.child_ids h.ascending in
          let shorter : length (drop limit ys) < fuel =
            omega (arith, length-drop limit ys, ltb→lt limit (length ys) more, f) in
          let later = scan-ids_after fuel s next limit h low high (ground (arith, left)) in
          let parts =
            sym (map-append (candidate s) (take limit ys) (drop limit ys))
            ∙ ap (map (candidate s)) (take-append-drop limit ys) in
          ground (arith, later, left, parts)
      | inr last ↦
          let all = take_all limit ys (ltb→ge limit (length ys) last) in ground (arith, all)
    ]

lower_of_contains :
    (c : String) (xs : List String)
    → ((y : String) → contains y xs ≡ true → text_lt c y ≡ true)
    → Above c xs
unfolding Above
lower_of_contains c [] h = tt
lower_of_contains c (x ∷ xs) h =
    (h x (ground arith), lower_of_contains c xs (λ y p. h y (ground arith)))

stored_above :
    (s : Store) (id : String) → IsIndexed s → contains id s.child_ids ≡ true → text_lt "" id ≡ true
unfolding valid_relation
stored_above s id h p = elim (Option-cases (s.by_child id)) [
  | inl missing ↦ absurd (ground (arith, h.listed id))
  | inr (r, found) ↦
      let child = h.named id r found in
      let valid = h.valid id r found in
      text_lt_empty id (λ blank. ground (arith, child, valid, blank))
]

-- The scan ends: on a well-formed Store, with a page limit from 1 to 128, the pages from the start wrap after at
-- most one page for each relation and one more, and hold every relation once, in the order of the children.
pub scan_all :
    (s : Store) (limit : ℕ)
    → IsIndexed s
    → 0 < limit
    → limit ≤ max_reconcile_page_size
    → scan (suc (length s.child_ids)) s "" limit ≡ some (map (candidate s) s.child_ids)
scan_all s limit h low high =
    let start =
      ids_after_all "" s.child_ids
        (lower_of_contains "" s.child_ids (λ id p. stored_above s id h p)) in
    scan-ids_after (suc (length s.child_ids)) s "" limit h low high (omega (arith, ap length start))
    ∙ ap (λ ids. some (map (candidate s) ids)) start
