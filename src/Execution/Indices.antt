-- ===== src/Execution/Indices.antt =====
-- go/agent-runtime/workflow/execution_advanced.go: the positions of the pending effects of an activation.
use gaoge_agent_runtime.Prelude.{
  ℕ, zero, suc, ◌≡◌, ◌≢◌, ◌⊎◌, inl, inr, refl, sym, ap, ◌∙◌, arith, String, true, Option, none,
  some, List, [], ◌∷◌, get_elem?, update_at, index_where, text_eq, Bool-cases, Option-cases, ok,
  Result-cases, All,
}
use mathlib.Core.Path.{subst}
use gaoge_agent_runtime.Execution.{Effect, EffectStatus}
use gaoge_agent_runtime.Execution.Failing.{is_pending, effect_index_by_id}
use gaoge_agent_runtime.Execution.Finishing.{pending_effect_indices}

-- The status at a position.
abbrev status_of : Option Effect → Option EffectStatus
status_of none = none
status_of (some e) = some e.status

-- An effect that is there and pending.
unfoldable pub IsPendingAt : List Effect → ℕ → Type 0
IsPendingAt es i = (e : Effect) × (get_elem? es i ≡ some e) × (is_pending e.status ≡ true)

-- No member of the list twice.
unfoldable pub IsDistinct : {A : Type 0} → List A → Type 0
IsDistinct [] = Unit
IsDistinct (x ∷ xs) = All (λ y. y ≢ x) xs × IsDistinct xs

pub get_elem-update_other :
    {A : Type 0} (i j : ℕ) (f : A → A) (xs : List A)
    → j ≢ i
    → get_elem? (update_at i f xs) j ≡ get_elem? xs j
unfolding get_elem? update_at
get_elem-update_other i j f [] h = refl
get_elem-update_other zero zero f (x ∷ xs) h = absurd (h refl)
get_elem-update_other zero (suc j) f (x ∷ xs) h = refl
get_elem-update_other (suc i) zero f (x ∷ xs) h = refl
get_elem-update_other (suc i) (suc j) f (x ∷ xs) h =
    get_elem-update_other i j f xs (λ p. h (ap suc p))

-- A position that the search finds has what it looked for.
pub index-found :
    (es : List Effect) (id : String) (i : ℕ) (e : Effect)
    → effect_index_by_id es id ≡ some i
    → get_elem? es i ≡ some e
    → e.id ≡ id
unfolding effect_index_by_id index_where get_elem?
index-found [] id i e h g = absurd (ground arith)
index-found (x ∷ es) id zero e h g = elim (Bool-cases (text_eq x.id id)) [
  | inl t ↦ ground arith
  | inr t ↦ elim (Option-cases (index_where (λ (z : Effect). text_eq z.id id) es)) [
    | inl n ↦ absurd (ground arith)
    | inr (k, n) ↦ absurd (ground arith)
  ]
]
index-found (x ∷ es) id (suc i) e h g = elim (Bool-cases (text_eq x.id id)) [
  | inl t ↦ absurd (ground arith)
  | inr t ↦ elim (Option-cases (index_where (λ (z : Effect). text_eq z.id id) es)) [
    | inl n ↦ absurd (ground arith)
    | inr (k, n) ↦
        let q : effect_index_by_id es id ≡ some i = ground arith in index-found es id i e q g
  ]
]

-- A position of a pending effect whose identifier has the property.
IsFound : List Effect → (String → Type 0) → ℕ → Type 0
IsFound es P i = (e : Effect) × (get_elem? es i ≡ some e) × (is_pending e.status ≡ true) × P e.id

-- One round of the search.
round_lem :
    (es : List Effect) (id : String) (ids : List String) (is : List ℕ)
    → pending_effect_indices es (id ∷ ids) ≡ ok is
    → (i : ℕ) × ((e : Effect) × ((js : List ℕ) × (effect_index_by_id es id ≡ some i)
          × (get_elem? es i ≡ some e)
          × (pending_effect_indices es ids ≡ ok js)
          × (((is_pending e.status ≡ true) × (is ≡ i ∷ js)) ⊎ (is ≡ js))))
unfolding pending_effect_indices
round_lem es id ids is h = elim (Option-cases (effect_index_by_id es id)) [
  | inl n ↦ absurd (ground arith)
  | inr (i, n) ↦ elim (Result-cases (pending_effect_indices es ids)) [
    | inl (x, q) ↦ absurd (ground arith)
    | inr (js, q) ↦ elim (Option-cases (get_elem? es i)) [
      | inl g ↦ absurd (ground arith)
      | inr (e, g) ↦ (
        i,
        (
          e,
          (
            js,
            n,
            g,
            q,
            elim (Bool-cases (is_pending e.status)) [
              | inl p ↦ inl (p, ground arith)
              | inr p ↦ inr (ground arith)
            ],
          ),
        ),
      )
    ]
  ]
]

found_lem :
    (P : String → Type 0) (es : List Effect) (ids : List String) (is : List ℕ)
    → pending_effect_indices es ids ≡ ok is
    → All P ids
    → All (IsFound es P) is
unfolding pending_effect_indices IsFound
found_lem P es [] [] h a = tt
found_lem P es [] (i ∷ is) h a = absurd (ground arith)
found_lem P es (id ∷ ids) is h a =
    let r = round_lem es id ids is h in
    let rest = found_lem P es ids r.1.1.0 r.1.1.3 a.1 in
    elim r.1.1.4 [
      | inl (p, q) ↦ subst (All (IsFound es P)) (sym q) (
        (r.1.0, r.1.1.2, p, subst P (sym (index-found es id r.0 r.1.0 r.1.1.1 r.1.1.2)) a.0),
        rest,
      )
      | inr q ↦ subst (All (IsFound es P)) (sym q) rest
    ]

pub some-injective : {A : Type 0} {x y : A} → some x ≡ some y → x ≡ y
some-injective {x = x} p = ap (λ o. elim o [ none ↦ x | some z ↦ z ]) p

All-map :
    {A : Type 0} (P Q : A → Type 0) (f : (x : A) → P x → Q x) (xs : List A) → All P xs → All Q xs
All-map P Q f [] a = tt
All-map P Q f (x ∷ xs) a = (f x a.0, All-map P Q f xs a.1)

-- Distinct identifiers give distinct positions.
pub indices-IsDistinct :
    (es : List Effect) (ids : List String) (is : List ℕ)
    → pending_effect_indices es ids ≡ ok is
    → IsDistinct ids
    → IsDistinct is
unfolding pending_effect_indices IsDistinct IsFound
indices-IsDistinct es [] [] h d = tt
indices-IsDistinct es [] (i ∷ is) h d = absurd (ground arith)
indices-IsDistinct es (id ∷ ids) is h d =
    let r = round_lem es id ids is h in
    let rest = indices-IsDistinct es ids r.1.1.0 r.1.1.3 d.1 in
    let others = found_lem (λ x. x ≢ id) es ids r.1.1.0 r.1.1.3 d.0 in
    let at_id = index-found es id r.0 r.1.0 r.1.1.1 r.1.1.2 in
    let apart : All (λ j. j ≢ r.0) r.1.1.0 =
      All-map (IsFound es (λ x. x ≢ id)) (λ j. j ≢ r.0)
        (λ j f p. f.3 (
          let same : f.0 ≡ r.1.0 = some-injective (sym f.1 ∙ ap (get_elem? es) p ∙ r.1.1.2) in
          ap (λ (z : Effect). z.id) same ∙ at_id))
        r.1.1.0 others in
    elim r.1.1.4 [
      | inl (p, q) ↦ subst IsDistinct (sym q) (apart, rest)
      | inr q ↦ subst IsDistinct (sym q) rest
    ]

unit_members : (ids : List String) → All (λ x. Unit {0}) ids
unit_members [] = tt
unit_members (id ∷ ids) = (tt, unit_members ids)

-- And each is pending.
pub indices-IsPendingAt :
    (es : List Effect) (ids : List String) (is : List ℕ)
    → pending_effect_indices es ids ≡ ok is
    → All (IsPendingAt es) is
unfolding IsFound IsPendingAt
indices-IsPendingAt es ids is h =
    All-map (IsFound es (λ x. Unit)) (IsPendingAt es) (λ j f. (f.0, f.1, f.2)) is
      (found_lem (λ x. Unit) es ids is h (unit_members ids))
