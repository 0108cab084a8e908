-- ===== src/Budget/Ancestry.antt =====
-- go/agent-runtime/budget/ledger.go: the walk over the ancestors of a Run, and the order of registration.
use gaoge_agent_runtime.Prelude.{
  ℕ, zero, suc, ◌+◌, ◌<◌, ◌≡◌, ◌≢◌, ◌⊎◌, inl, inr, refl, arith, sym, String, Bool, true, false,
  none, some, [], ◌∷◌, length, ok, Option-cases, dec_lt, text_dec, ite,
}
use mathlib.Core.Path.{subst}
use gaoge_agent_runtime.Prelude.Tables.{Table, lookup, assign, lookup-assign}
use gaoge_agent_runtime.Budget.Ledger.{RunBudget, Ledger, parent_of, is_ancestor, contains}
use gaoge_agent_runtime.Budget.Coordinator.{register_run}

-- The place of a Run in the order of registration, from 1; 0 when it is not registered.
unfoldable pub place_from : ℕ → String → Table RunBudget → ℕ
place_from n id [] = 0
place_from n id ((k, b) ∷ t) = ite (text_dec id k) n (place_from (suc n) id t)

abbrev pub place : String → Table RunBudget → ℕ
place = place_from 1

place_bound :
    (n : ℕ) (id : String) (t : Table RunBudget)
    → place_from n id t < n + length t ⊎ (place_from n id t ≡ 0)
unfolding place_from
place_bound n id [] = inr refl
place_bound n id ((k, b) ∷ t) = elim (text_dec id k) [
  | yes same ↦ inl (ground arith)
  | no other ↦ elim (place_bound (suc n) id t) [
    | inl l ↦ inl (ground (arith, l))
    | inr z ↦ inr (ground (arith, z))
  ]
]

-- Each Run is registered after its parent, which is registered if it is not blank.
abbrev pub IsAncestral : Table RunBudget → Type 0
IsAncestral t =
    (id : String) (b : RunBudget)
    → lookup id t ≡ some b
    → (b.parent_run_id ≡ "")
      ⊎ ((0 < place b.parent_run_id t) × (place b.parent_run_id t < place id t))

lookup-place :
    (n : ℕ) (id : String) (t : Table RunBudget) → 0 < n → place_from n id t ≡ 0 → lookup id t ≡ none
unfolding place_from lookup
lookup-place n id [] h p = refl
lookup-place n id ((k, b) ∷ t) h p = elim (text_dec id k) [
  | yes same ↦ absurd (ground arith)
  | no other ↦ ground (arith, lookup-place (suc n) id t)
]

-- The parent of a Run that is not blank is blank, or placed before the Run.
parent-place :
    (t : Table RunBudget) (id : String)
    → IsAncestral t
    → (parent_of t id ≡ "") ⊎ (place (parent_of t id) t < place id t)
parent-place t id h = elim (Option-cases (lookup id t)) [
  | inl missing ↦ inl (ground arith)
  | inr (b, found) ↦ elim (h id b found) [
    | inl root ↦ inl (ground arith)
    | inr (low, high) ↦
        let same : parent_of t id ≡ b.parent_run_id = ground arith in
        inr (subst (λ p. place p t < place id t) (sym same) high)
  ]
]

is_ancestor_blank :
    (n : ℕ) (t : Table RunBudget) (parent : String) → is_ancestor (suc n) t parent "" ≡ some false
unfolding is_ancestor
is_ancestor_blank n t parent = ground arith

-- The walk ends in two rounds more than the place of the Run, and more rounds change nothing.
is_ancestor-ends :
    (m n : ℕ) (t : Table RunBudget) (parent child : String)
    → IsAncestral t
    → suc (place child t) < m
    → suc (place child t) < n
    → (b : Bool) × (is_ancestor m t parent child ≡ some b) × (is_ancestor n t parent child ≡ some b)
unfolding is_ancestor
is_ancestor-ends zero n t parent child h p q = absurd (omega arith)
is_ancestor-ends (suc zero) n t parent child h p q = absurd (omega arith)
is_ancestor-ends (suc (suc m)) zero t parent child h p q = absurd (omega arith)
is_ancestor-ends (suc (suc m)) (suc zero) t parent child h p q = absurd (omega arith)
is_ancestor-ends (suc (suc m)) (suc (suc n)) t parent child h p q =
    let above : (b : Bool) × (is_ancestor (suc m) t parent (parent_of t child) ≡ some b)
        × (is_ancestor (suc n) t parent (parent_of t child) ≡ some b) =
      elim (parent-place t child h) [
        | inl blank ↦ rw blank (false, is_ancestor_blank m t parent, is_ancestor_blank n t parent)
        | inr lower ↦
            is_ancestor-ends (suc m) (suc n) t parent (parent_of t child) h (omega arith)
              (omega arith)
      ] in
    elim (text_dec child "") [
      | yes blank ↦ (false, ground arith, ground arith)
      | no named ↦ elim (text_dec child parent) [
        | yes same ↦ (true, ground arith, ground arith)
        | no other ↦ (above.0, ground (arith, above.1), ground (arith, above.2))
      ]
    ]

place_within : (id : String) (t : Table RunBudget) → place id t < suc (length t)
place_within id t = elim (place_bound 1 id t) [
  | inl l ↦ omega (arith, l)
  | inr z ↦ omega (arith, z)
]

-- In a ledger whose Runs are registered after their parents the walk of `contains` over the ancestors of a Run
-- ends by itself: with a round for each registered Run and two more, or with any more rounds, it does not run out
-- of rounds, and what it finds is the answer of `contains`.
pub contains-is_ancestor :
    (fuel : ℕ) (l : Ledger) (parent child : String)
    → IsAncestral l.runs
    → suc (length l.runs) < fuel
    → parent ≢ ""
    → is_ancestor fuel l.runs parent child ≡ some (contains l parent child)
unfolding contains
contains-is_ancestor fuel l parent child h f named =
    let found =
      is_ancestor-ends fuel (suc (suc (length l.runs))) l.runs parent child h
        (omega (arith, place_within child l.runs)) (omega (arith, place_within child l.runs)) in
    ground (arith, found.1, found.2)

place_from-assign :
    (n : ℕ) (k id : String) (b : RunBudget) (t : Table RunBudget)
    → lookup k t ≡ none
    → place_from n id (assign k b t) ≡ ite (text_dec id k) (n + length t) (place_from n id t)
unfolding place_from assign lookup
place_from-assign n k id b [] h = ground arith
place_from-assign n k id b ((i, x) ∷ t) h =
    let rest = place_from-assign (suc n) k id b t (ground arith) in ground (arith, rest)

place_absent :
    (n : ℕ) (id : String) (t : Table RunBudget) → lookup id t ≡ none → place_from n id t ≡ 0
unfolding place_from lookup
place_absent n id [] h = refl
place_absent n id ((k, b) ∷ t) h = ground (arith, place_absent (suc n) id t)

place_kept :
    (k id : String) (b : RunBudget) (t : Table RunBudget)
    → lookup k t ≡ none
    → id ≢ k
    → place id (assign k b t) ≡ place id t
place_kept k id b t new other = ground (arith, place_from-assign 1 k id b t new)

place_positive :
    (id : String) (b : RunBudget) (t : Table RunBudget) → lookup id t ≡ some b → 0 < place id t
place_positive id b t found = elim (text_dec id id) [
  | no other ↦ absurd (other refl)
  | yes same ↦ elim (dec_lt 0 (place id t)) [
    | yes low ↦ low
    | no high ↦
        let gone = lookup-place 1 id t (omega arith) (omega (arith, high)) in absurd (ground arith)
  ]
]

registered-IsAncestral :
    (run_id : String) (b : RunBudget) (t : Table RunBudget)
    → IsAncestral t
    → lookup run_id t ≡ none
    → (b.parent_run_id ≡ "") ⊎ ((x : RunBudget) × (lookup b.parent_run_id t ≡ some x))
    → IsAncestral (assign run_id b t)
registered-IsAncestral run_id b t h new parent id c found = elim (text_dec id run_id) [
  | yes same ↦
      let added : c ≡ b = ground (arith, lookup-assign run_id id b t) in
      elim parent [
        | inl root ↦ inl (ground arith)
        | inr (x, there) ↦
            let apart : b.parent_run_id ≢ run_id = λ z. absurd (ground arith) in
            let kept = place_kept run_id b.parent_run_id b t new apart in
            let low = place_positive b.parent_run_id x t there in
            let last = place_from-assign 1 run_id run_id b t new in
            let top : place id (assign run_id b t) ≡ suc (length t) = ground (arith, last) in
            rw added (
              inr (
                omega (arith, kept, low),
                omega (arith, kept, top, place_within b.parent_run_id t),
              ))
      ]
  | no other ↦
      let before : lookup id t ≡ some c = ground (arith, lookup-assign run_id id b t) in
      elim (h id c before) [
        | inl root ↦ inl root
        | inr (low, high) ↦
            let apart : c.parent_run_id ≢ run_id = λ z.
              let gone = place_absent 1 run_id t new in
              let zero_place : place c.parent_run_id t ≡ 0 = ground arith in
              omega (arith, zero_place, low) in
            let kept = place_kept run_id c.parent_run_id b t new apart in
            let same = place_kept run_id id b t new other in
            inr (omega (arith, kept, low), omega (arith, kept, same, high))
      ]
]

-- A registration keeps the order: after it each Run still is registered after its parent.
pub register_run-IsAncestral :
    (run_id : String) (b : RunBudget) (l m : Ledger)
    → IsAncestral l.runs
    → register_run run_id b l ≡ ok m
    → IsAncestral m.runs
unfolding register_run
register_run-IsAncestral run_id b l m h e = elim (Option-cases (lookup run_id l.runs)) [
  | inr (old, found) ↦ let same : m.runs ≡ l.runs = ground arith in subst IsAncestral (sym same) h
  | inl new ↦
      let grown : m.runs ≡ assign run_id b l.runs = ground arith in
      subst IsAncestral (sym grown) (
        registered-IsAncestral run_id b l.runs h new (elim (text_dec b.parent_run_id "") [
          | yes root ↦ inl root
          | no child ↦ elim (Option-cases (lookup b.parent_run_id l.runs)) [
            | inl gone ↦ absurd (ground arith)
            | inr (x, found) ↦ inr (x, found)
          ]
        ]))
]
