-- ===== src/RunRelation/Listing.antt =====
-- go/agent-runtime/runrelation/runrelation.go and go/agent-runtime/memory/runrelation.go: the lists of
-- relations. The order in which Go walks a map is the argument `keys`.
use gaoge_agent_runtime.Prelude.{
  ◌==◌, ltb, String, Bool, none, some, List, [], ◌∷◌, text_eq, trim_space, if◌then◌else◌, Result,
  ok, err,
}
use gaoge_agent_runtime.Prelude.Order.{text_lt}
use gaoge_agent_runtime.RunRelation.{Error, invalid_input, Relation, Store}

-- The order of `Sort`.
unfoldable pub relation_before : Relation → Relation → Bool
relation_before l r =
    if l.created_at == r.created_at
    then if text_eq l.kind r.kind
      then if text_eq l.owner_node_id r.owner_node_id
        then text_lt l.child_run_id r.child_run_id
        else text_lt l.owner_node_id r.owner_node_id
      else text_lt l.kind r.kind
    else ltb l.created_at r.created_at

-- `Sort`: relations of different children are never level, so that any sorting has one outcome.
unfoldable pub insert_relation : Relation → List Relation → List Relation
unfolding relation_before
insert_relation r [] = r ∷ []
insert_relation r (x ∷ xs) =
    let rest = insert_relation r xs in if relation_before x r then x ∷ rest else r ∷ x ∷ xs

unfoldable pub sort : List Relation → List Relation
unfolding insert_relation
sort [] = []
sort (r ∷ rs) = insert_relation r (sort rs)

-- The walk over `byChild`, in the order of `keys`.
unfoldable pub relations_of : Store → List String → List Relation
relations_of s [] = []
relations_of s (id ∷ ids) =
    let rest = relations_of s ids in elim (s.by_child id) [ none ↦ rest | some r ↦ r ∷ rest ]

unfoldable pub children_of : String → List Relation → List Relation
children_of parent [] = []
children_of parent (r ∷ rs) =
    let rest = children_of parent rs in if text_eq r.parent_run_id parent then r ∷ rest else rest

-- `ListChildren`, of the Store.
unfoldable pub list_children : Store → List String → String → Result Error (List Relation)
unfolding sort relations_of children_of
list_children s keys parent_run_id =
    if text_eq (trim_space parent_run_id) ""
    then err invalid_input
    else ok (sort (children_of (trim_space parent_run_id) (relations_of s keys)))

-- `ListAll`, of the Store.
unfoldable pub list_all : Store → List String → List Relation
unfolding sort relations_of
list_all s keys = sort (relations_of s keys)
