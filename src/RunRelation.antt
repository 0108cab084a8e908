-- ===== src/RunRelation.antt =====
-- go/agent-runtime/runrelation/runrelation.go and go/agent-runtime/memory/runrelation.go: which parent Run
-- owns which child Run, in the single-process Store. An instant is its nanoseconds with 0 the zero time, a
-- page limit is not negative, and the binary searches of the index, which is ascending, are scans from its
-- first identifier.
pub mod Listing
pub mod Index
pub mod Owners
pub mod Reconciling
use Prim.Native.Char.{nul}
use Prim.Native.String.{◌++◌ as join}
use gaoge_agent_runtime.Prelude.{
  ℕ, zero, suc, ◌+◌, ◌==◌, ltb, String, Bool, true, false, not, ◌&&◌, ◌||◌, Option, none, some,
  List, [], ◌∷◌, ◌++◌, map, take, length, text_dec, text_eq, trim_space, if◌then◌else◌, Map,
  empty_map, Result, ok, err, ite,
}
use gaoge_agent_runtime.Prelude as Prelude
use gaoge_agent_runtime.Prelude.Order.{text_lt}

-- `ErrInvalidInput`, `ErrConflict` and `ErrNotFound`.
pub data Error : Type 0 where
  invalid_input conflict not_found : Error

pub record Draft : Type 0 where
  pub parent_run_id : String
  pub child_run_id : String
  pub kind : String
  pub owner_node_id : String

pub record Relation : Type 0 where
  pub parent_run_id : String
  pub child_run_id : String
  pub kind : String
  pub owner_node_id : String
  pub created_at : ℕ

-- `reconciliationProgress`; its zero value stands for a missing one.
pub record ReconciliationProgress : Type 0 where
  pub parent_revision : ℕ
  pub child_revision : ℕ

pub record ReconciliationCandidate : Type 0 where
  pub relation : Relation
  pub last_parent_revision : ℕ
  pub last_child_revision : ℕ

pub record ReconciliationPage : Type 0 where
  pub candidates : List ReconciliationCandidate
  pub next_cursor : String
  pub has_more : Bool

-- `RunRelationStore`.
pub record Store : Type 0 where
  pub by_child : Map Relation
  pub by_owner : Map String
  pub child_ids : List String
  pub reconciled : Map ReconciliationProgress

-- `NewRunRelationStore`.
abbrev pub new_store : Store
new_store = record {
  by_child = empty_map;
  by_owner = empty_map;
  child_ids = [];
  reconciled = empty_map;
}

abbrev zero_relation : Relation
zero_relation = record {
  parent_run_id = "";
  child_run_id = "";
  kind = "";
  owner_node_id = "";
  created_at = 0;
}

abbrev pub relation_or_zero : Option Relation → Relation
relation_or_zero none = zero_relation
relation_or_zero (some r) = r

abbrev pub progress_or_zero : Option ReconciliationProgress → ReconciliationProgress
progress_or_zero none = record { parent_revision = 0; child_revision = 0 }
progress_or_zero (some p) = p

-- `validKind`.
unfoldable pub valid_kind : String → Bool
valid_kind k =
    text_eq k "team_member"
    || text_eq k "group_chat_speaker"
    || text_eq k "workflow_effect"
    || text_eq k "delegation"
    || text_eq k "capability"

abbrev pub trimmed_relation : Relation → Relation
trimmed_relation r = record {
  parent_run_id = trim_space r.parent_run_id;
  child_run_id = trim_space r.child_run_id;
  kind = trim_space r.kind;
  owner_node_id = trim_space r.owner_node_id;
  created_at = r.created_at;
}

-- The test of `Prepare` on what it has trimmed.
unfoldable pub valid_relation : Relation → Bool
unfolding valid_kind
valid_relation r =
    not (text_eq r.parent_run_id "")
    && not (text_eq r.child_run_id "")
    && not (text_eq r.parent_run_id r.child_run_id)
    && not (text_eq r.owner_node_id "")
    && not (r.created_at == 0)
    && valid_kind r.kind

-- `Prepare`.
unfoldable pub prepare : Relation → Result Error Relation
unfolding valid_relation
prepare r =
    if valid_relation (trimmed_relation r) then ok (trimmed_relation r) else err invalid_input

-- `EqualIdentity`.
unfoldable pub equal_identity : Relation → Relation → Bool
equal_identity l r =
    text_eq l.parent_run_id r.parent_run_id
    && text_eq l.child_run_id r.child_run_id
    && text_eq l.kind r.kind
    && text_eq l.owner_node_id r.owner_node_id

abbrev separator : String
separator = String.◌∷◌ nul String.[]

-- `runRelationOwnerKey`.
unfoldable pub owner_key : Relation → String
owner_key r = join r.parent_run_id (join separator (join r.kind (join separator r.owner_node_id)))

-- The insertion into `childIDs`: in front of the first identifier that is not less.
unfoldable pub insert_id : String → List String → List String
insert_id id [] = id ∷ []
insert_id id (x ∷ xs) = let rest = insert_id id xs in if text_lt x id then x ∷ rest else id ∷ x ∷ xs

-- What `Put` answers when the relation that it found has the same identity, or another one.
unfoldable pub reuse : Relation → Relation → Result Error (Relation × Bool)
unfolding equal_identity
reuse existing r = if equal_identity existing r then ok (existing, true) else err conflict

-- `Put` on a relation that `Prepare` has passed.
unfoldable pub put_prepared : Store → Relation → Store × Result Error (Relation × Bool)
unfolding owner_key insert_id reuse
put_prepared s r = elim (s.by_owner (owner_key r)) [
  | some child ↦ (s, reuse (relation_or_zero (s.by_child child)) r)
  | none ↦ elim (s.by_child r.child_run_id) [
    | some existing ↦ (s, reuse existing r)
    | none ↦ (
      record s {
        by_child = Prelude.put s.by_child r.child_run_id r;
        by_owner = Prelude.put s.by_owner (owner_key r) r.child_run_id;
        child_ids = insert_id r.child_run_id s.child_ids;
      },
      ok (r, false),
    )
  ]
]

-- `Put`.
unfoldable pub put : Store → Relation → Store × Result Error (Relation × Bool)
unfolding prepare put_prepared
put s relation = elim (prepare relation) [ err e ↦ (s, err e) | ok r ↦ put_prepared s r ]

-- `GetByChild` of the Store, which trims the identifier itself.
unfoldable pub get_by_child : Store → String → Result Error Relation
get_by_child s child_run_id = elim (s.by_child (trim_space child_run_id)) [
  | none ↦ err not_found
  | some r ↦ ok r
]

-- The candidate of a page for one child.
abbrev pub candidate : Store → String → ReconciliationCandidate
candidate s id = record {
  relation = relation_or_zero (s.by_child id);
  last_parent_revision = (progress_or_zero (s.reconciled id)).parent_revision;
  last_child_revision = (progress_or_zero (s.reconciled id)).child_revision;
}

-- The identifiers from the first that is greater than the cursor.
unfoldable pub ids_after : String → List String → List String
ids_after cursor [] = []
ids_after cursor (x ∷ xs) =
    let rest = ids_after cursor xs in if text_lt cursor x then x ∷ xs else rest

-- The cursor that the loop over a page leaves.
unfoldable pub last_id : String → List String → String
last_id cursor [] = cursor
last_id cursor (x ∷ xs) = last_id x xs

-- `MaxReconcilePageSize`.
abbrev pub max_reconcile_page_size : ℕ
max_reconcile_page_size = 128

-- `ListReconcilePage`.
unfoldable pub list_reconcile_page : Store → String → ℕ → Result Error ReconciliationPage
unfolding ids_after last_id
list_reconcile_page s after limit =
    if limit == 0 || ltb max_reconcile_page_size limit
    then err invalid_input
    else ok (record {
      candidates = map (candidate s) (take limit (ids_after after s.child_ids));
      next_cursor = last_id after (take limit (ids_after after s.child_ids));
      has_more = ltb limit (length (ids_after after s.child_ids));
    })

-- `ListReconcileCandidates`.
unfoldable pub list_reconcile_candidates :
    Store → String → ℕ → Result Error (List ReconciliationCandidate)
unfolding list_reconcile_page
list_reconcile_candidates s after limit = elim (list_reconcile_page s after limit) [
  | err e ↦ err e
  | ok page ↦ ok page.candidates
]

-- The watermarks that a mark leaves.
abbrev pub raised : ReconciliationProgress → ℕ → ℕ → ReconciliationProgress
raised p parent_revision child_revision = record {
  parent_revision =
      if ltb p.parent_revision parent_revision then parent_revision else p.parent_revision;
  child_revision = if ltb p.child_revision child_revision then child_revision else p.child_revision;
}

-- `MarkEnqueued`, and `MarkObserved`, which calls it.
unfoldable pub mark_enqueued : Store → String → ℕ → ℕ → Store × Result Error (Unit {0})
mark_enqueued s child_run_id parent_revision child_revision =
    if text_eq (trim_space child_run_id) "" || parent_revision == 0 || child_revision == 0
    then (s, err invalid_input)
    else elim (s.by_child (trim_space child_run_id)) [
      | none ↦ (s, err not_found)
      | some _ ↦ (
        record s {
          reconciled = Prelude.put s.reconciled (trim_space child_run_id) (
              raised (progress_or_zero (s.reconciled (trim_space child_run_id))) parent_revision
                child_revision);
        },
        ok tt,
      )
    ]

abbrev pub without_reuse : Store × Result Error (Relation × Bool) → Store × Result Error Relation
without_reuse (s, err e) = (s, err e)
without_reuse (s, ok (r, reused)) = (s, ok r)

-- The relation of a draft.
abbrev pub drafted : Draft → ℕ → Relation
drafted d now = record {
  parent_run_id = d.parent_run_id;
  child_run_id = d.child_run_id;
  kind = d.kind;
  owner_node_id = d.owner_node_id;
  created_at = now;
}

-- The end of `Ensure`, after its own `Prepare`.
unfoldable pub ensure_prepared : Store → Result Error Relation → Store × Result Error Relation
ensure_prepared s (err e) = (s, err e)
ensure_prepared s (ok r) = without_reuse (put s r)

-- `Registry.Ensure`, with the reading of the clock.
unfoldable pub ensure : Store → Draft → ℕ → Store × Result Error Relation
unfolding ensure_prepared
ensure s d now = ensure_prepared s (prepare (drafted d now))
