-- ===== src/Workflow/Positions.antt =====
-- go/agent-runtime/workflow/nodes.go: the map of positions that the check builds is the search that the
-- interpreter makes.
use gaoge_agent_runtime.Prelude.{
  ℕ, zero, suc, ◌+◌, ◌<◌, String, Bool, true, ◌||◌, Option, none, some, List, [], ◌∷◌, length,
  get_elem?, text_eq, is_some, ◌≡◌, inl, inr, refl, arith, Bool-cases, Option-cases, and_left,
  and_right,
}
use mathlib.Core.Path.{subst}
use gaoge_agent_runtime.Prelude.Tables.{Table, lookup, assign, lookup-assign}
use gaoge_agent_runtime.Workflow.{Limits, Node, Encoding}
use gaoge_agent_runtime.Workflow.Validation.{valid_node, index_nodes, all_valid}
use gaoge_agent_runtime.Workflow.Successors.{node_index_by_id}

abbrev pub moved : ℕ → Option ℕ → Option ℕ
moved k none = none
moved k (some i) = some (k + i)

abbrev first_of : Option ℕ → Option ℕ → Option ℕ
first_of none b = b
first_of (some a) b = some a

length-assign :
    (k : String) (v : ℕ) (t : Table ℕ) → lookup k t ≡ none → length (assign k v t) ≡ suc (length t)
unfolding lookup assign
length-assign k v [] h = refl
length-assign k v ((i, w) ∷ t) h = ground (arith, length-assign k v t)

abbrev is_refused : Node → Table ℕ → Bool
is_refused n t = text_eq n.id "" || is_some (lookup n.id t)

-- The positions of the map are those of the first node of each identifier, after what it had.
index_nodes-first :
    (k : ℕ) (t u : Table ℕ) (ns : List Node)
    → index_nodes k t ns ≡ some u
    → (id : String) → lookup id u ≡ first_of (lookup id t) (moved k (node_index_by_id ns id))
unfolding index_nodes node_index_by_id
index_nodes-first k t u [] h id = ground arith
index_nodes-first k t u (n ∷ ns) h id = elim (Bool-cases (is_refused n t)) [
  | inl e ↦ absurd (ground arith)
  | inr e ↦
      let r : index_nodes (suc k) (assign n.id k t) ns ≡ some u = ground arith in
      ground
        (arith, index_nodes-first (suc k) (assign n.id k t) u ns r id, lookup-assign n.id id k t)
]

index_nodes-length :
    (k : ℕ) (t u : Table ℕ) (ns : List Node)
    → index_nodes k t ns ≡ some u
    → length u ≡ length t + length ns
unfolding index_nodes
index_nodes-length k t u [] h = ground arith
index_nodes-length k t u (n ∷ ns) h = elim (Bool-cases (is_refused n t)) [
  | inl e ↦ absurd (ground arith)
  | inr e ↦
      let r : index_nodes (suc k) (assign n.id k t) ns ≡ some u = ground arith in
      let absent : lookup n.id t ≡ none = ground arith in
      omega
        (arith, index_nodes-length (suc k) (assign n.id k t) u ns r, length-assign n.id k t absent)
]

-- The map of a whole Definition.
pub lookup-node_index :
    (u : Table ℕ) (ns : List Node) (id : String)
    → index_nodes 0 [] ns ≡ some u
    → lookup id u ≡ node_index_by_id ns id
unfolding lookup
lookup-node_index u ns id h = ground (arith, index_nodes-first 0 [] u ns h id)

pub length-index :
    (u : Table ℕ) (ns : List Node) → index_nodes 0 [] ns ≡ some u → length u ≡ length ns
length-index u ns h = omega (arith, index_nodes-length 0 [] u ns h)

-- A position that is found is one of the list.
pub node_index-bound :
    (ns : List Node) (id : String) (i : ℕ) → node_index_by_id ns id ≡ some i → i < length ns
unfolding node_index_by_id
node_index-bound [] id i h = absurd (ground arith)
node_index-bound (n ∷ ns) id i h = elim (Option-cases (node_index_by_id ns id)) [
  | inl e ↦ ground arith
  | inr (j, e) ↦ ground (arith, node_index-bound ns id j e)
]

pub get_elem-some :
    {A : Type 0} (xs : List A) (i : ℕ) → i < length xs → (x : A) × (get_elem? xs i ≡ some x)
unfolding get_elem?
get_elem-some [] i h = absurd (omega arith)
get_elem-some (x ∷ xs) zero h = (x, refl)
get_elem-some (x ∷ xs) (suc i) h = get_elem-some xs i (omega arith)

pub get_elem-bound :
    {A : Type 0} (xs : List A) (i : ℕ) (x : A) → get_elem? xs i ≡ some x → i < length xs
unfolding get_elem?
get_elem-bound [] i x g = absurd (ground arith)
get_elem-bound (y ∷ xs) zero x g = omega arith
get_elem-bound (y ∷ xs) (suc i) x g = omega (arith, get_elem-bound xs i x g)

pub all_valid-at :
    (enc : Encoding) (limits : Limits) (k : ℕ) (u : Table ℕ) (ns : List Node) (i : ℕ) (n : Node)
    → all_valid enc limits k u ns ≡ true
    → get_elem? ns i ≡ some n
    → valid_node enc limits (k + i) u n ≡ true
unfolding all_valid get_elem?
all_valid-at enc limits k u [] i n h g = absurd (ground arith)
all_valid-at enc limits k u (m ∷ ns) zero n h g =
    let at_k : valid_node enc limits k u m ≡ true =
      and_left (valid_node enc limits k u m) (all_valid enc limits (suc k) u ns) h in
    let same : m ≡ n = ground arith in
    let here : k ≡ k + 0 = omega arith in
    subst (λ j. valid_node enc limits j u n ≡ true) here
      (subst (λ x. valid_node enc limits k u x ≡ true) same at_k)
all_valid-at enc limits k u (m ∷ ns) (suc i) n h g =
    let next : suc k + i ≡ k + suc i = omega arith in
    subst (λ j. valid_node enc limits j u n ≡ true) next
      (all_valid-at enc limits (suc k) u ns i n
        (and_right (valid_node enc limits k u m) (all_valid enc limits (suc k) u ns) h) g)
