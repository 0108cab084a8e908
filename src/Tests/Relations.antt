-- ===== src/Tests/Relations.antt =====
-- The theorems on go/agent-runtime/memory/runrelation.go, applied to two children of one parent.
use gaoge_agent_runtime.Prelude.{
  suc, ◌≡◌, refl, arith, String, true, false, some, List, [], ◌∷◌, map, ok, err, text_dec,
  trim_space, length,
}
use gaoge_agent_runtime.RunRelation.{
  Relation, Store, new_store, put, put_prepared, prepare, valid_relation, valid_kind, owner_key,
  equal_identity, trimmed_relation, reuse, insert_id, mark_enqueued, candidate, conflict,
}
use gaoge_agent_runtime.RunRelation.Index.{IsIndexed}
use gaoge_agent_runtime.RunRelation.Owners.{
  Call, put_call, mark_call, call, run_calls, calls-IsIndexed, Keeps, run_calls-Keeps, put-IsPut,
}
use gaoge_agent_runtime.RunRelation.Reconciling.{scan, scan_all}

abbrev relation : String → String → Relation
relation child node = record {
  parent_run_id = "parent";
  child_run_id = child;
  kind = "delegation";
  owner_node_id = node;
  created_at = 7;
}

abbrev relation_calls : List Call
relation_calls =
    put_call (relation "b" "n1") ∷ put_call (relation "a" "n2") ∷ mark_call "a" 3 2 ∷ []

abbrev relation_store : Store
relation_store = run_calls new_store relation_calls

calls-IsIndexed_example : IsIndexed relation_store
calls-IsIndexed_example = calls-IsIndexed relation_calls

relation_store-IsIndexed : IsIndexed relation_store
relation_store-IsIndexed = calls-IsIndexed relation_calls

run_calls-Keeps_example : Keeps relation_store (run_calls relation_store (mark_call "a" 2 5 ∷ []))
run_calls-Keeps_example = run_calls-Keeps (mark_call "a" 2 5 ∷ []) relation_store

abbrev third : Relation
third = relation "c" "n3"

abbrev third_store : Store
third_store = (put relation_store third).0

put-third : put relation_store third ≡ (third_store, ok (third, false))
unfolding put put_prepared prepare valid_relation valid_kind owner_key text_dec trim_space run_calls
    call insert_id mark_enqueued
put-third = refl

put-IsPut_example :
    (equal_identity third (trimmed_relation third) ≡ true)
    × (third_store.by_child "c" ≡ some third)
    × (third_store.by_owner (owner_key third) ≡ some "c")
    × (put third_store third ≡ (third_store, ok (third, true)))
put-IsPut_example =
    put-IsPut relation_store third_store third third false relation_store-IsIndexed put-third

stored_a : relation_store.by_child "a" ≡ some (relation "a" "n2")
unfolding put put_prepared prepare valid_relation valid_kind owner_key text_dec trim_space run_calls
    call insert_id mark_enqueued
stored_a = refl

scan_all_example :
    scan (suc (length relation_store.child_ids)) relation_store "" 1
    ≡ some (map (candidate relation_store) relation_store.child_ids)
scan_all_example = scan_all relation_store 1 relation_store-IsIndexed (omega arith) (omega arith)

-- Another owner node of the same parent refuses a child that is taken.
taken_refused : (put relation_store (relation "a" "n9")).1 ≡ err conflict
unfolding put put_prepared prepare valid_relation valid_kind owner_key text_dec trim_space run_calls
    call insert_id mark_enqueued reuse equal_identity
taken_refused = refl
