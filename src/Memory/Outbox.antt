-- ===== src/Memory/Outbox.antt =====
-- go/agent-runtime/memory/store.go: delivery of the committed transitions to one projector at a time.
use gaoge_agent_runtime.Prelude.{
  ℕ, zero, suc, ◌+◌, ◌%◌, ◌^◌, ◌==◌, ◌/=◌, ltb, String, Bool, not, ◌&&◌, ◌||◌, Option, none, some,
  List, [], ◌∷◌, text_ne, is_blank, is_some, trim_space, if◌then◌else◌, Map, put, delete, Result,
  ok, err, format_uint,
}
use gaoge_agent_runtime.Prelude.Int.{pos_part}
use gaoge_agent_runtime.Kernel.{
  Error, invalid_input, not_found, conflict, TransitionClaimRequest, TransitionClaim,
  TransitionLeaseRequest,
}
use gaoge_agent_runtime.Memory.{Store, TransitionState}
use Prim.Native.String.{◌++◌ as join}

-- `fmt.Sprintf("%s:%s:%d", worker, id, attempts)`.
unfoldable pub delivery_lease_id : String → String → ℕ → String
delivery_lease_id worker id attempts =
    join worker (join ":" (join id (join ":" (format_uint attempts))))

-- Whether the entry is there, due, and not leased at `now`.
unfoldable pub claimable : Option TransitionState → ℕ → Option TransitionState
claimable none now = none
claimable (some st) now =
    if ltb now st.available_at || (st.lease_until /= 0 && ltb now st.lease_until)
    then none
    else some st

-- The entry as one claim leaves it. `Attempts` is a uint32.
unfoldable pub claimed : TransitionClaimRequest → String → TransitionState → TransitionState
claimed r id st = record st {
  transition = record (st.transition) { attempts = attempts };
  worker_id = trim_space r.worker_id;
  lease_id = delivery_lease_id (trim_space r.worker_id) id attempts;
  lease_until = r.now + pos_part r.lease_duration;
}
  where
    attempts : ℕ
    attempts = (st.transition.attempts + 1) % 2 ^ 32

abbrev pub claim_of : TransitionState → TransitionClaim
claim_of st = record {
  transition = st.transition;
  lease_id = st.lease_id;
  worker_id = st.worker_id;
  lease_until = st.lease_until;
}

-- The loop of `ClaimTransitions` over the rest of the order, with the claims that may still be made.
unfoldable pub claim_loop :
    TransitionClaimRequest
    → ℕ
    → List String
    → Map TransitionState
    → Map TransitionState × List TransitionClaim
claim_loop r limit [] ts = (ts, [])
claim_loop r zero (id ∷ ids) ts = (ts, [])
claim_loop r (suc limit) (id ∷ ids) ts = elim (claimable (ts id) r.now) [
  | none ↦ claim_loop r (suc limit) ids ts
  | some st ↦
      let (ts', claims) = claim_loop r limit ids (put ts id (claimed r id st)) in
      (ts', claim_of (claimed r id st) ∷ claims)
]

-- `ClaimTransitions`.
unfoldable pub claim_transitions :
    Store → TransitionClaimRequest → Store × Result Error (List TransitionClaim)
unfolding claim_loop
claim_transitions s r =
    if is_blank r.worker_id || pos_part r.limit == 0 || pos_part r.lease_duration == 0 || r.now == 0
    then (s, err invalid_input)
    else let (ts, claims) = claim_loop r (pos_part r.limit) s.transition_order s.transitions in
      (record s { transitions = ts }, ok claims)

-- `compactTransitionOrder`.
unfoldable pub compact_order : Map TransitionState → List String → List String
compact_order ts [] = []
compact_order ts (id ∷ ids) =
    let rest = compact_order ts ids in if is_some (ts id) then id ∷ ids else rest

-- `validTransitionLease`.
unfoldable pub valid_transition_lease : TransitionLeaseRequest → Bool
valid_transition_lease r =
    not (is_blank r.transition_id) && not (is_blank r.lease_id) && not (is_blank r.worker_id)

-- `AckTransition`.
unfoldable pub ack_transition : Store → TransitionLeaseRequest → Store × Result Error (Unit {0})
unfolding compact_order
ack_transition s r =
    if not (valid_transition_lease r)
    then (s, err invalid_input)
    else elim (s.transitions r.transition_id) [
      | none ↦ (s, err not_found)
      | some st ↦
          if text_ne st.lease_id r.lease_id || text_ne st.worker_id r.worker_id
          then (s, err conflict)
          else (
            record s {
              transitions = delete s.transitions r.transition_id;
              transition_order =
                  compact_order (delete s.transitions r.transition_id) s.transition_order;
            },
            ok tt,
          )
    ]

-- `RetryTransition`.
unfoldable pub retry_transition :
    Store → TransitionLeaseRequest → ℕ → Store × Result Error (Unit {0})
retry_transition s r available_at =
    if not (valid_transition_lease r)
    then (s, err invalid_input)
    else elim (s.transitions r.transition_id) [
      | none ↦ (s, err not_found)
      | some st ↦
          if text_ne st.lease_id r.lease_id || text_ne st.worker_id r.worker_id
          then (s, err conflict)
          else (
            record s {
              transitions = put s.transitions r.transition_id (record st {
                available_at = available_at;
                lease_id = "";
                worker_id = "";
                lease_until = 0;
              });
            },
            ok tt,
          )
    ]
