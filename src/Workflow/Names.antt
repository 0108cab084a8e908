-- ===== src/Workflow/Names.antt =====
-- go/agent-runtime/workflow/definition.go and nodes.go: the normal form of a list of permissions or codes.
use gaoge_agent_runtime.Prelude.{
  String, Bool, true, false, ◌||◌, List, [], ◌∷◌, text_eq, text_dec, trim_space, trim_idem,
  if◌then◌else◌, ◌≡◌, ◌≢◌, ◌⊎◌, inl, inr, refl, sym, ap, ◌∙◌, Bool-cases, arith,
}
use mathlib.Core.Path.{subst}
use gaoge_agent_runtime.Prelude.Order.{
  text_lt, text_lt_trans, text_lt_irrefl, text_lt_flip, text_lt_empty,
}

-- The maps `seen` of the loops below, as the list of what they hold.
unfoldable pub member : String → List String → Bool
member x [] = false
member x (y ∷ ys) = text_eq x y || member x ys

-- The loop over names that trims them and leaves out blank and repeated ones.
unfoldable pub distinct_names : List String → List String → List String
unfolding member
distinct_names seen [] = []
distinct_names seen (x ∷ xs) = elim (text_eq (trim_space x) "" || member (trim_space x) seen) [
  | true ↦ distinct_names seen xs
  | false ↦ trim_space x ∷ distinct_names (trim_space x ∷ seen) xs
]

-- `sort.Strings`: equal strings are one, so that any sorting has one outcome.
unfoldable pub insert_name : String → List String → List String
insert_name x [] = x ∷ []
insert_name x (y ∷ ys) = let rest = insert_name x ys in if text_lt y x then y ∷ rest else x ∷ y ∷ ys

unfoldable pub sort_names : List String → List String
unfolding insert_name
sort_names [] = []
sort_names (x ∷ xs) = insert_name x (sort_names xs)

unfoldable pub normal_names : List String → List String
unfolding distinct_names sort_names
normal_names xs = sort_names (distinct_names [] xs)

-- A strictly ascending list of trimmed names, all above a lower one.
IsAscending : String → List String → Type 0
IsAscending low [] = Unit
IsAscending low (x ∷ xs) = (text_lt low x ≡ true) × (trim_space x ≡ x) × IsAscending x xs

-- What the loop has kept: trimmed names, each new.
IsDistinct : List String → List String → Type 0
unfolding member
IsDistinct seen [] = Unit
IsDistinct seen (x ∷ xs) =
    (x ≢ "") × (trim_space x ≡ x) × (member x seen ≡ false) × IsDistinct (x ∷ seen) xs

abbrev is_dropped : List String → String → Bool
unfolding member
is_dropped seen x = text_eq (trim_space x) "" || member (trim_space x) seen

distinct_drop :
    (seen : List String) (x : String) (xs : List String)
    → is_dropped seen x ≡ true
    → distinct_names seen (x ∷ xs) ≡ distinct_names seen xs
unfolding distinct_names
distinct_drop seen x xs e = ground arith

distinct_keep :
    (seen : List String) (x : String) (xs : List String)
    → is_dropped seen x ≡ false
    → distinct_names seen (x ∷ xs) ≡ trim_space x ∷ distinct_names (trim_space x ∷ seen) xs
unfolding distinct_names
distinct_keep seen x xs e = ground arith

distinct_names-IsDistinct : (seen xs : List String) → IsDistinct seen (distinct_names seen xs)
unfolding distinct_names IsDistinct
distinct_names-IsDistinct seen [] = tt
distinct_names-IsDistinct seen (x ∷ xs) = elim (Bool-cases (is_dropped seen x)) [
  | inl e ↦
      subst (IsDistinct seen) (sym (distinct_drop seen x xs e)) (distinct_names-IsDistinct seen xs)
  | inr e ↦ subst (IsDistinct seen) (sym (distinct_keep seen x xs e)) (
    (λ p. ground (arith, p)),
    trim_idem x,
    (ground arith),
    distinct_names-IsDistinct (trim_space x ∷ seen) xs,
  )
]

seen-IsDistinct :
    (z : String) (seen xs : List String)
    → member z seen ≡ true
    → IsDistinct seen xs
    → member z xs ≡ false
unfolding member IsDistinct
seen-IsDistinct z seen [] h d = refl
seen-IsDistinct z seen (x ∷ xs) h d = elim (text_dec z x) [
  | yes p ↦ absurd (ground (arith, d.2, subst (λ y. member y seen ≡ true) p h))
  | no n ↦ ground (arith, seen-IsDistinct z (x ∷ seen) xs (ground arith) d.3)
]

member-insert_name :
    (z x : String) (ys : List String) → member z (insert_name x ys) ≡ (text_eq z x || member z ys)
unfolding member insert_name
member-insert_name z x [] = refl
member-insert_name z x (y ∷ ys) = ground (arith, member-insert_name z x ys)

member-sort_names : (z : String) (xs : List String) → member z (sort_names xs) ≡ member z xs
unfolding member sort_names
member-sort_names z [] = refl
member-sort_names z (x ∷ xs) =
    member-insert_name z x (sort_names xs) ∙ ap (λ b. text_eq z x || b) (member-sort_names z xs)

insert_name-IsAscending :
    (low x : String) (ys : List String)
    → text_lt low x ≡ true
    → trim_space x ≡ x
    → member x ys ≡ false
    → IsAscending low ys
    → IsAscending low (insert_name x ys)
unfolding member insert_name IsAscending
insert_name-IsAscending low x [] l t m a = (l, t, tt)
insert_name-IsAscending low x (y ∷ ys) l t m a = elim (Bool-cases (text_lt y x)) [
  | inl e ↦ rw e (a.0, a.1, insert_name-IsAscending y x ys e t (ground arith) a.2)
  | inr e ↦ rw e (
    l,
    t,
    elim (text_lt_flip y x e) [ inl p ↦ absurd (ground (arith, p)) | inr q ↦ (q, a.1, a.2) ],
  )
]

sort_names-IsAscending :
    (seen xs : List String) → IsDistinct seen xs → IsAscending "" (sort_names xs)
unfolding member sort_names IsDistinct IsAscending
sort_names-IsAscending seen [] d = tt
sort_names-IsAscending seen (x ∷ xs) d =
    insert_name-IsAscending "" x (sort_names xs) (text_lt_empty x d.0) d.1
      (member-sort_names x xs ∙ seen-IsDistinct x (x ∷ seen) xs (ground arith) d.3)
      (sort_names-IsAscending (x ∷ seen) xs d.3)

insert_first : (low x : String) (xs : List String) → IsAscending x xs → insert_name x xs ≡ x ∷ xs
unfolding insert_name IsAscending
insert_first low x [] a = refl
insert_first low x (y ∷ ys) a = elim (Bool-cases (text_lt y x)) [
  | inl e ↦ absurd (ground (arith, text_lt_trans x y x a.0 e, text_lt_irrefl x))
  | inr e ↦ rw e refl
]

sort_ascending : (low : String) (xs : List String) → IsAscending low xs → sort_names xs ≡ xs
unfolding sort_names IsAscending
sort_ascending low [] a = refl
sort_ascending low (x ∷ xs) a =
    ap (insert_name x) (sort_ascending x xs a.2) ∙ insert_first low x xs a.2

distinct_ascending :
    (low : String) (seen xs : List String)
    → (low ≡ "") ⊎ (text_lt "" low ≡ true)
    → ((z : String) → member z seen ≡ true → text_lt low z ≡ false)
    → IsAscending low xs
    → distinct_names seen xs ≡ xs
unfolding member distinct_names IsAscending
distinct_ascending low seen [] l h a = refl
distinct_ascending low seen (x ∷ xs) l h a =
    let above : text_lt "" x ≡ true = elim l [
      | inl e ↦ subst (λ y. text_lt y x ≡ true) e a.0
      | inr k ↦ text_lt_trans "" low x k a.0
    ] in
    let solid : text_eq x "" ≡ false = ground (arith, text_lt_irrefl x) in
    let fresh : member x seen ≡ false = elim (Bool-cases (member x seen)) [
      | inl e ↦ absurd (ground (arith, h x e))
      | inr e ↦ e
    ] in
    let step : distinct_names (x ∷ seen) xs ≡ xs =
      distinct_ascending x (x ∷ seen) xs (inr above)
        (λ z m. elim (text_dec z x) [
          | yes p ↦ subst (λ y. text_lt x y ≡ false) (sym p) (text_lt_irrefl x)
          | no n ↦ elim (Bool-cases (text_lt x z)) [
            | inl e ↦ absurd (ground (arith, h z (ground arith), text_lt_trans low x z a.0 e))
            | inr e ↦ e
          ]
        ])
        a.2 in
    let kept : is_dropped seen x ≡ false =
      subst (λ y. (text_eq y "" || member y seen) ≡ false) (sym a.1) (ground arith) in
    distinct_keep seen x xs kept ∙ ap (λ y. y ∷ distinct_names (y ∷ seen) xs) a.1 ∙ ap (◌∷◌ x) step

-- A normal list of names is its own normal form.
pub normal_names_idem : (xs : List String) → normal_names (normal_names xs) ≡ normal_names xs
unfolding normal_names member
normal_names_idem xs =
    let a : IsAscending "" (sort_names (distinct_names [] xs)) =
      sort_names-IsAscending [] (distinct_names [] xs) (distinct_names-IsDistinct [] xs) in
    ap sort_names (
      distinct_ascending "" [] (sort_names (distinct_names [] xs)) (inl refl)
        (λ z m. absurd (ground arith)) a)
    ∙ sort_ascending "" (sort_names (distinct_names [] xs)) a
