-- ===== src/Workflow/Paths.antt =====
-- go/agent-runtime/workflow/nodes.go and execution_advanced.go: a Definition that the check accepts leads
-- forward, whatever its conditions give, to the return node.
use gaoge_agent_runtime.Prelude.{
  ℕ, zero, suc, ◌+◌, ◌-◌, ◌<◌, ◌≤◌, ◌==◌, ltb, String, Bool, true, false, not, ◌&&◌, Option, none,
  some, List, [], ◌∷◌, length, get_elem?, text_eq, ◌≡◌, inl, inr, ◌∙◌, arith, Bool-cases,
  Option-cases, and_left, and_right, or_left, or_right, ltb→lt, if◌then◌else◌,
}
use mathlib.Core.Path.{subst}
use gaoge_agent_runtime.Prelude.Tables.{Table, lookup}
use gaoge_agent_runtime.Workflow.{
  NodeType, node_effect, node_agent_task, node_application_effect, node_media_effect, node_wait,
  node_if, node_parallel, node_map, node_subworkflow, node_compensation, node_return, other_node,
  Limits, EffectCall, IfNode, CompensationNode, Node, Encoding,
}
use gaoge_agent_runtime.Workflow.Calls.{valid_forward_target, node_payload_count, valid_effect_call}
use gaoge_agent_runtime.Workflow.Validation.{
  is_return, is_last, valid_payload, valid_node, index_nodes, return_count, last_is_return,
  all_valid, valid_definition_nodes,
}
use gaoge_agent_runtime.Workflow.Payloads.{valid_if_node, valid_compensation_node}
use gaoge_agent_runtime.Prelude.Int.{is_negative}
use gaoge_agent_runtime.Workflow.Successors.{
  node_index_by_id, next_node_index, is_if, is_compensation, branch_target, successor,
}
use gaoge_agent_runtime.Workflow.Positions.{
  lookup-node_index, length-index, node_index-bound, get_elem-some, get_elem-bound, all_valid-at,
}

-- The walk of the interpreter from a position while every node succeeds, with what each condition gives.
pub run_nodes : List Node → (ℕ → Bool) → ℕ → ℕ → Option ℕ
unfolding get_elem? successor
run_nodes ns matched zero i = none
run_nodes ns matched (suc fuel) i = elim (get_elem? ns i) [
  | none ↦ none
  | some n ↦ elim (is_return n.node_type) [
    | true ↦ some i
    | false ↦ elim (successor ns i n (matched i)) [
      | none ↦ none
      | some j ↦ run_nodes ns matched fuel j
    ]
  ]
]

-- What the check of a Definition has found.
record IsChecked (enc : Encoding) (limits : Limits) (ns : List Node) (u : Table ℕ) : Type 0 where
  indexed : index_nodes 0 [] ns ≡ some u
  nodes : all_valid enc limits 0 u ns ≡ true
  ends : last_is_return ns ≡ true

valid-IsChecked :
    (enc : Encoding) (limits : Limits) (ns : List Node)
    → valid_definition_nodes enc ns limits ≡ true
    → (u : Table ℕ) × IsChecked enc limits ns u
unfolding valid_definition_nodes
valid-IsChecked enc limits ns h = elim (Option-cases (index_nodes 0 [] ns)) [
  | inl e ↦ absurd (ground arith)
  | inr (u, e) ↦
      let both : (return_count ns == 1 && (last_is_return ns && all_valid enc limits 0 u ns))
          ≡ true =
        ground arith in
      let rest =
        and_right (return_count ns == 1) (last_is_return ns && all_valid enc limits 0 u ns) both in
      (
        u,
        record {
          indexed = e;
          nodes = and_right (last_is_return ns) (all_valid enc limits 0 u ns) rest;
          ends = and_left (last_is_return ns) (all_valid enc limits 0 u ns) rest;
        },
      )
]

module _ (enc : Encoding) (limits : Limits) (index : ℕ) (u : Table ℕ) where
  payload-last :
      (t : NodeType) (n : Node)
      → valid_payload enc limits index u t n ≡ true
      → is_last enc limits index u ≡ is_return t
  unfolding valid_payload
  payload-last node_effect n h = ground arith
  payload-last node_agent_task n h = ground arith
  payload-last node_application_effect n h = ground arith
  payload-last node_media_effect n h = ground arith
  payload-last node_wait n h = ground arith
  payload-last node_if n h = ground arith
  payload-last node_parallel n h = ground arith
  payload-last node_map n h = ground arith
  payload-last node_subworkflow n h = ground arith
  payload-last node_compensation n h = ground arith
  payload-last node_return n h = ground arith
  payload-last (other_node t) n h = absurd (ground arith)

  payload-if :
      (t : NodeType) (n : Node)
      → valid_payload enc limits index u t n ≡ true
      → is_if t ≡ true
      → valid_if_node enc limits index u n.if_node ≡ true
  unfolding valid_payload
  payload-if node_if n h k = ground arith
  payload-if _ n h k = absurd (ground arith)

module _ (enc : Encoding) (limits : Limits) (ns : List Node) (u : Table ℕ)
    (c : IsChecked enc limits ns u) where
  -- A position further on in the list.
  abbrev IsOnward : ℕ → Option ℕ → Type 0
  IsOnward i next = (j : ℕ) × (next ≡ some j) × (i < j) × (j < length ns)

  target-IsOnward :
      (target : String) (i : ℕ) (optional : Bool)
      → valid_forward_target target i u optional ≡ true
      → text_eq target "" && optional ≡ false
      → IsOnward i (node_index_by_id ns target)
  unfolding valid_forward_target
  target-IsOnward target i optional h solid =
      let e : lookup target u ≡ node_index_by_id ns target =
        lookup-node_index u ns target c.indexed in
      elim (Option-cases (node_index_by_id ns target)) [
        | inl none_there ↦ absurd (ground arith)
        | inr (j, found) ↦ (j, found, ground arith, node_index-bound ns target j found)
      ]

  node-valid :
      (i : ℕ) (n : Node)
      → get_elem? ns i ≡ some n
      → (valid_forward_target n.next i u true ≡ true)
        × (valid_payload enc limits i u n.node_type n ≡ true)
  unfolding valid_node
  node-valid i n g =
      let v : valid_node enc limits (0 + i) u n ≡ true =
        all_valid-at enc limits 0 u ns i n c.nodes g in
      let here : 0 + i ≡ i = omega arith in
      let forward = valid_forward_target n.next i u true in
      let single = node_payload_count n == 1 in
      let payload = valid_payload enc limits i u n.node_type n in
      let w : (forward && single && payload) ≡ true =
        subst (λ j. valid_node enc limits j u n ≡ true) here v in
      (
        and_left forward single (and_left (forward && single) payload w),
        and_right (forward && single) payload w,
      )

  branch-IsOnward :
      (i : ℕ) (o : Option IfNode) (matched : Bool)
      → valid_if_node enc limits i u o ≡ true
      → IsOnward i (node_index_by_id ns (branch_target o matched))
  unfolding valid_forward_target valid_if_node
  branch-IsOnward i none matched h = absurd (ground arith)
  branch-IsOnward i (some b) true h =
      target-IsOnward b.then_node_id i false (ground arith) (ground arith)
  branch-IsOnward i (some b) false h =
      target-IsOnward b.else_node_id i false (ground arith) (ground arith)

  next-IsOnward :
      (i : ℕ) (n : Node)
      → i < length ns
      → valid_forward_target n.next i u true ≡ true
      → is_last enc limits i u ≡ false
      → IsOnward i (next_node_index ns i n)
  unfolding next_node_index
  next-IsOnward i n l t last = elim (Bool-cases (text_eq n.next "")) [
    | inl e ↦ (suc i, (ground arith), (omega arith), (ground (arith, length-index u ns c.indexed)))
    | inr e ↦
        let o = target-IsOnward n.next i true t (ground arith) in
        (o.0, ground (arith, o.1), o.2, o.3)
  ]

  -- Every node but the return leads onward, whatever its condition gives.
  successor-IsOnward :
      (i : ℕ) (n : Node) (matched : Bool)
      → i < length ns
      → get_elem? ns i ≡ some n
      → is_return n.node_type ≡ false
      → IsOnward i (successor ns i n matched)
  unfolding successor
  successor-IsOnward i n matched l g r =
      let v = node-valid i n g in
      elim (Bool-cases (is_if n.node_type)) [
        | inl e ↦
            let o =
              branch-IsOnward i n.if_node matched (payload-if enc limits i u n.node_type n v.1 e) in
            (o.0, ground (arith, o.1), o.2, o.3)
        | inr e ↦
            let o = next-IsOnward i n l v.0 (payload-last enc limits i u n.node_type n v.1 ∙ r) in
            (o.0, ground (arith, o.1), o.2, o.3)
      ]

  return-last :
      (i : ℕ) (n : Node)
      → get_elem? ns i ≡ some n
      → is_return n.node_type ≡ true
      → i ≡ length ns - 1
  return-last i n g r =
      let v = node-valid i n g in
      let e : is_last enc limits i u ≡ true = payload-last enc limits i u n.node_type n v.1 ∙ r in
      ground (arith, length-index u ns c.indexed)

  walk_ends :
      (matched : ℕ → Bool) (fuel i : ℕ)
      → i < length ns
      → length ns ≤ fuel + i
      → run_nodes ns matched fuel i ≡ some (length ns - 1)
  unfolding run_nodes
  walk_ends matched zero i l f = absurd (omega arith)
  walk_ends matched (suc fuel) i l f =
      let (n, g) = get_elem-some ns i l in
      elim (Bool-cases (is_return n.node_type)) [
        | inl r ↦ ground (arith, return-last i n g r)
        | inr r ↦
            let o = successor-IsOnward i n (matched i) l g r in
            let rest : run_nodes ns matched fuel o.0 ≡ some (length ns - 1) =
              walk_ends matched fuel o.0 o.3 (omega (arith, o.2)) in
            ground (arith, o.1, rest)
      ]

ends_nonempty : (ns : List Node) → last_is_return ns ≡ true → ltb 0 (length ns) ≡ false → ⊥
unfolding last_is_return
ends_nonempty [] h l = ground arith
ends_nonempty (n ∷ ns) h l = ground arith

-- Where a node leads: the return stands last and ends the walk, and every other node leads to a position behind it.
pub data Leads (ns : List Node) (matched : Bool) (i : ℕ) (n : Node) : Type 0 where
  ends_here : is_return n.node_type ≡ true → i ≡ length ns - 1 → Leads ns matched i n
  onward :
      is_return n.node_type ≡ false
      → (j : ℕ) → successor ns i n matched ≡ some j
      → i < j
      → j < length ns
      → Leads ns matched i n

-- In nodes that the check of a Definition accepts each node but the return, which stands last, leads to a
-- strictly greater position, whatever its condition gives. So the walk of the interpreter ends at the return,
-- from the first node and from every other one, within as many rounds as there are nodes.
pub valid_nodes-end :
    (enc : Encoding) (limits : Limits) (ns : List Node) (matched : ℕ → Bool) (i : ℕ) (n : Node)
    → valid_definition_nodes enc ns limits ≡ true
    → get_elem? ns i ≡ some n
    → (run_nodes ns matched (length ns) 0 ≡ some (length ns - 1))
      × (run_nodes ns matched (length ns) i ≡ some (length ns - 1))
      × Leads ns (matched i) i n
valid_nodes-end enc limits ns matched i n h g =
    let (u, c) = valid-IsChecked enc limits ns h in
    elim (Bool-cases (ltb 0 (length ns))) [
      | inr l ↦ absurd (ends_nonempty ns c.ends l)
      | inl l ↦
          let within = get_elem-bound ns i n g in
          let walk = walk_ends enc limits ns u c matched (length ns) in
          (
            walk 0 (ltb→lt 0 (length ns) l) (omega arith),
            walk i within (omega arith),
            elim (Bool-cases (is_return n.node_type)) [
              | inl r ↦ ends_here r (return-last enc limits ns u c i n g r)
              | inr r ↦
                  let o = successor-IsOnward enc limits ns u c i n (matched i) within g r in
                  onward r o.0 o.1 o.2 o.3
            ],
          )
    ]

payload-compensation :
    (enc : Encoding) (limits : Limits) (index : ℕ) (u : Table ℕ) (t : NodeType) (n : Node)
    → valid_payload enc limits index u t n ≡ true
    → is_compensation t ≡ true
    → valid_compensation_node enc limits index u n.compensation n.id ≡ true
unfolding valid_payload
payload-compensation enc limits index u node_compensation n h k =
    and_right (not (is_last enc limits index u)) _ h
payload-compensation enc limits index u _ n h k = absurd (ground arith)

not_refused : (b x : Bool) → (if b then false else x) ≡ true → b ≡ false
not_refused b x h = ground arith

call-cost :
    (enc : Encoding) (limits : Limits) (index : ℕ) (u : Table ℕ) (c : EffectCall) (m k : Bool)
    → valid_effect_call enc limits index u c m k ≡ true
    → is_negative c.max_cost_units ≡ false
unfolding valid_effect_call
call-cost enc limits index u c m k h = or_right _ _ (or_left _ _ (or_left _ _ (not_refused _ _ h)))

undo-cost :
    (enc : Encoding) (limits : Limits) (index : ℕ) (u : Table ℕ) (c : CompensationNode)
    (id : String)
    → valid_compensation_node enc limits index u (some c) id ≡ true
    → is_negative c.undo_call.max_cost_units ≡ false
unfolding valid_compensation_node
undo-cost enc limits index u c id h =
    call-cost enc limits index u c.undo_call false true
      (and_right _ _ (and_left _ _ (and_left _ _ (and_left _ _ h))))

-- An undo of a Definition that the check accepts has a limit of cost that is not negative.
pub valid_nodes-undo :
    (enc : Encoding) (limits : Limits) (ns : List Node)
    → valid_definition_nodes enc ns limits ≡ true
    → (i : ℕ) (n : Node) → get_elem? ns i ≡ some n
    → is_compensation n.node_type ≡ true
    → (c : CompensationNode) → n.compensation ≡ some c
    → is_negative c.undo_call.max_cost_units ≡ false
valid_nodes-undo enc limits ns h i n g k c e =
    let (u, checked) = valid-IsChecked enc limits ns h in
    let v = node-valid enc limits ns u checked i n g in
    undo-cost enc limits i u c n.id (
      subst (λ o. valid_compensation_node enc limits i u o n.id ≡ true) e
        (payload-compensation enc limits i u n.node_type n v.1 k))
