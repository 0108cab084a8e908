-- ===== src/RunRelation/Index.antt =====
-- go/agent-runtime/memory/runrelation.go: the two indexes of the relation Store, whatever calls it has taken.
use gaoge_agent_runtime.Prelude.{
  ℕ, ◌≡◌, inl, inr, refl, String, Bool, true, false, ◌||◌, some, is_some, List, [], ◌∷◌, All, arith,
  text_eq, text_dec, Option-cases, Bool-cases, Result-cases, Result, ok, err,
}
use mathlib.Core.Path.{subst, sym, ap, ◌∙◌}
use gaoge_agent_runtime.Prelude.Order.{text_lt, text_lt_trans, text_lt_flip}
use gaoge_agent_runtime.RunRelation.{
  Error, drafted, ensure_prepared, without_reuse, Draft, Relation, Store, new_store, valid_relation,
  prepare, owner_key, insert_id, put_prepared, put, mark_enqueued, ensure,
}

abbrev pub contains : String → List String → Bool
contains id [] = false
contains id (x ∷ xs) = text_eq id x || contains id xs

-- Each identifier is less than those behind it.
abbrev pub Ascending : List String → Type 0
Ascending [] = Unit
Ascending (x ∷ xs) = All (λ y. text_lt x y ≡ true) xs × Ascending xs

pub contains-insert_id :
    (j id : String) (xs : List String)
    → contains j (insert_id id xs) ≡ (text_eq j id || contains j xs)
unfolding insert_id
contains-insert_id j id [] = refl
contains-insert_id j id (x ∷ xs) = ground (arith, contains-insert_id j id xs)

All-insert_id :
    (P : String → Type 0) (id : String) (xs : List String)
    → P id
    → All P xs
    → All P (insert_id id xs)
unfolding insert_id
All-insert_id P id [] p h = (p, tt)
All-insert_id P id (x ∷ xs) p h =
    let later : All P (x ∷ insert_id id xs) = (h.0, All-insert_id P id xs p h.1) in
    let first : All P (id ∷ x ∷ xs) = (p, h) in ground (arith, later, first)

weaken_less :
    (x y : String) (ys : List String)
    → text_lt x y ≡ true
    → All (λ z. text_lt y z ≡ true) ys
    → All (λ z. text_lt x z ≡ true) ys
weaken_less x y [] h k = tt
weaken_less x y (z ∷ zs) h k = (text_lt_trans x y z h k.0, weaken_less x y zs h k.1)

pub insert_id-Ascending :
    (id : String) (xs : List String)
    → contains id xs ≡ false
    → Ascending xs
    → Ascending (insert_id id xs)
unfolding insert_id
insert_id-Ascending id [] new a = (tt, tt)
insert_id-Ascending id (x ∷ xs) new a = elim (Bool-cases (text_lt x id)) [
  | inl l ↦
      let later : Ascending (x ∷ insert_id id xs) = (
        All-insert_id (λ y. text_lt x y ≡ true) id xs l a.0,
        insert_id-Ascending id xs (ground arith) a.1,
      ) in
      ground (arith, later)
  | inr g ↦ elim (text_lt_flip x id g) [
    | inl same ↦ absurd (ground arith)
    | inr l ↦
        let first : Ascending (id ∷ x ∷ xs) = ((l, weaken_less id x xs l a.0), a) in
        ground (arith, first)
  ]
]

-- What the Store says of its indexes.
pub record IsIndexed (s : Store) : Type 0 where
  pub ascending : Ascending s.child_ids
  pub listed : (id : String) → contains id s.child_ids ≡ is_some (s.by_child id)
  pub named : (id : String) (r : Relation) → s.by_child id ≡ some r → r.child_run_id ≡ id
  pub owned :
      (id : String) (r : Relation) → s.by_child id ≡ some r → s.by_owner (owner_key r) ≡ some id
  pub owns :
      (key id : String)
      → s.by_owner key ≡ some id
      → (r : Relation) × (s.by_child id ≡ some r) × (owner_key r ≡ key)
  pub valid : (id : String) (r : Relation) → s.by_child id ≡ some r → valid_relation r ≡ true

put_prepared-IsIndexed :
    (s : Store) (r : Relation)
    → valid_relation r ≡ true
    → IsIndexed s
    → IsIndexed (put_prepared s r).0
unfolding put_prepared
put_prepared-IsIndexed s r v h = elim (Option-cases (s.by_owner (owner_key r))) [
  | inr (child, p) ↦
      let same : (put_prepared s r).0 ≡ s = ground arith in subst IsIndexed (sym same) h
  | inl free ↦ elim (Option-cases (s.by_child r.child_run_id)) [
    | inr (existing, p) ↦
        let same : (put_prepared s r).0 ≡ s = ground arith in subst IsIndexed (sym same) h
    | inl new ↦
        let absent : contains r.child_run_id s.child_ids ≡ false =
          ground (arith, h.listed r.child_run_id) in
        record {
          ascending =
              ground (arith, insert_id-Ascending r.child_run_id s.child_ids absent h.ascending);
          listed =
              λ id. ground (arith, h.listed id, contains-insert_id id r.child_run_id s.child_ids);
          named = λ id q p. ground (arith, h.named id q);
          owned = λ id q p. ground (arith, h.owned id q);
          owns = λ key id p. elim (text_dec key (owner_key r)) [
            | yes same ↦ (r, ground arith, sym same)
            | no other ↦
                let before = h.owns key id (ground arith) in
                (before.0, ground (arith, before.1), before.2)
          ];
          valid = λ id q p. ground (arith, h.valid id q);
        }
  ]
]

pub prepare_lem : (r q : Relation) → prepare r ≡ ok q → valid_relation q ≡ true
unfolding prepare
prepare_lem r q h = ground arith

pub put-IsIndexed : (s : Store) (r : Relation) → IsIndexed s → IsIndexed (put s r).0
unfolding put
put-IsIndexed s r h = elim (Result-cases (prepare r)) [
  | inl (e, p) ↦ let same : (put s r).0 ≡ s = ground arith in subst IsIndexed (sym same) h
  | inr (q, p) ↦
      let same : (put s r).0 ≡ (put_prepared s q).0 = ground arith in
      subst IsIndexed (sym same) (put_prepared-IsIndexed s q (prepare_lem r q p) h)
]

pub kept : (out : Store × Result Error (Relation × Bool)) → (without_reuse out).0 ≡ out.0
kept (s, err e) = refl
kept (s, ok (r, reused)) = refl

-- What the state of `ensure` is.
pub ensure-put :
    (s : Store) (d : Draft) (now : ℕ) (q : Relation)
    → prepare (drafted d now) ≡ ok q
    → (ensure s d now).0 ≡ (put s q).0
unfolding ensure ensure_prepared
ensure-put s d now q p = ap (λ x. (ensure_prepared s x).0) p ∙ kept (put s q)

pub ensure-IsIndexed :
    (s : Store) (d : Draft) (now : ℕ) → IsIndexed s → IsIndexed (ensure s d now).0
unfolding ensure ensure_prepared
ensure-IsIndexed s d now h = elim (Result-cases (prepare (drafted d now))) [
  | inl (e, p) ↦
      let same : (ensure s d now).0 ≡ s = ap (λ x. (ensure_prepared s x).0) p in
      subst IsIndexed (sym same) h
  | inr (q, p) ↦ subst IsIndexed (sym (ensure-put s d now q p)) (put-IsIndexed s q h)
]

pub mark_enqueued-IsIndexed :
    (s : Store) (id : String) (p c : ℕ) → IsIndexed s → IsIndexed (mark_enqueued s id p c).0
unfolding mark_enqueued
mark_enqueued-IsIndexed s id p c h = record {
  ascending = ground (arith, h.ascending);
  listed = λ i. ground (arith, h.listed i);
  named = λ i q r. ground (arith, h.named i q);
  owned = λ i q r. ground (arith, h.owned i q);
  owns = λ key i p.
      let before = h.owns key i (ground arith) in (before.0, ground (arith, before.1), before.2);
  valid = λ i q r. ground (arith, h.valid i q);
}

pub new_store-IsIndexed : IsIndexed new_store
new_store-IsIndexed = record {
  ascending = tt;
  listed = λ id. refl;
  named = λ id r p. absurd (ground arith);
  owned = λ id r p. absurd (ground arith);
  owns = λ key id p. absurd (ground arith);
  valid = λ id r p. absurd (ground arith);
}
