-- ===== src/Memory/Delivery.antt =====
-- go/agent-runtime/memory/store.go: each committed transition goes to one projector at a time, and is
-- kept until it is acknowledged.
use gaoge_agent_runtime.Prelude.{
  ℕ, zero, suc, ◌+◌, ◌≤◌, ◌<◌, ◌≡◌, ◌⊎◌, inl, inr, refl, String, none, some, List, [], ◌∷◌, length,
  Map, put, text_dec, arith, ok, Option-cases,
}
use gaoge_agent_runtime.Prelude.Int.{pos_part}
use gaoge_agent_runtime.Kernel.{TransitionClaimRequest, TransitionClaim}
use gaoge_agent_runtime.Memory.{Store, TransitionState}
use gaoge_agent_runtime.Memory.Outbox.{claimable, claimed, claim_loop, claim_transitions, claim_of}

module _ (r : TransitionClaimRequest) (id : String) (d : 0 < pos_part r.lease_duration)
    (z : 0 < r.now) where
  -- One claim, and what the rest of the loop does to the entry then.
  after_claim :
      (k : String) (ts out : Map TransitionState) (st : TransitionState)
      → claimable (ts k) r.now ≡ some st
      → (out id ≡ put ts k (claimed r k st) id)
        ⊎ ((su : TransitionState) × (claimable (put ts k (claimed r k st) id) r.now ≡ some su)
            × (out id ≡ some (claimed r id su)))
      → (out id ≡ ts id)
        ⊎ ((su : TransitionState) × (claimable (ts id) r.now ≡ some su)
            × (out id ≡ some (claimed r id su)))
  unfolding claimable claimed
  after_claim k ts out st hit (inl kept) = elim (text_dec id k) [
    | yes same ↦ inr (st, ground arith, ground arith)
    | no other ↦ inl ground arith
  ]
  after_claim k ts out st hit (inr (su, free, set)) = elim (text_dec id k) [
    | yes same ↦ absurd ground arith
    | no other ↦ inr (su, ground arith, set)
  ]

  claim_loop-miss :
      (k : String) (ids : List String) (n : ℕ) (ts : Map TransitionState)
      → claimable (ts k) r.now ≡ none
      → claim_loop r (suc n) (k ∷ ids) ts ≡ claim_loop r (suc n) ids ts
  unfolding claim_loop
  claim_loop-miss k ids n ts e = rw (e, claim_loop)

  claim_loop-hit :
      (k : String) (ids : List String) (n : ℕ) (ts : Map TransitionState) (st : TransitionState)
      → claimable (ts k) r.now ≡ some st
      → claim_loop r (suc n) (k ∷ ids) ts ≡ (
        (claim_loop r n ids (put ts k (claimed r k st))).0,
        claim_of (claimed r k st) ∷ (claim_loop r n ids (put ts k (claimed r k st))).1,
      )
  unfolding claim_loop
  claim_loop-hit k ids n ts st e = rw (e, claim_loop)

  -- What the loop does to one entry: nothing, or one claim of an entry that was free.
  claim_loop-entry :
      (ids : List String) (n : ℕ) (ts : Map TransitionState)
      → ((claim_loop r n ids ts).0 id ≡ ts id)
        ⊎ ((st : TransitionState) × (claimable (ts id) r.now ≡ some st)
            × ((claim_loop r n ids ts).0 id ≡ some (claimed r id st)))
  unfolding claim_loop
  claim_loop-entry [] n ts = inl refl
  claim_loop-entry (k ∷ ids) zero ts = inl refl
  claim_loop-entry (k ∷ ids) (suc n) ts = elim (Option-cases (claimable (ts k) r.now)) [
    | inl miss ↦ rw (claim_loop-miss k ids n ts miss) (claim_loop-entry ids (suc n) ts)
    | inr (st, hit) ↦ rw (claim_loop-hit k ids n ts st hit) (
        after_claim k ts (claim_loop r n ids (put ts k (claimed r k st))).0 st hit
          (claim_loop-entry ids n (put ts k (claimed r k st))))
  ]

  claim_loop-length :
      (ids : List String) (n : ℕ) (ts : Map TransitionState) → length (claim_loop r n ids ts).1 ≤ n
  unfolding claim_loop
  claim_loop-length [] n ts = omega arith
  claim_loop-length (k ∷ ids) zero ts = omega arith
  claim_loop-length (k ∷ ids) (suc n) ts = elim (Option-cases (claimable (ts k) r.now)) [
    | inl miss ↦ rw (claim_loop-miss k ids n ts miss) (claim_loop-length ids (suc n) ts)
    | inr (st, hit) ↦
        rw (claim_loop-hit k ids n ts st hit)
          (omega (arith, claim_loop-length ids n (put ts k (claimed r k st))))
  ]

-- One call of `ClaimTransitions` that succeeds gives at most `Limit` claims, and each entry of the
-- outbox either stays as it was, or was free at `Now` and is claimed once, by this worker.
pub claim_transitions_lem :
    (s : Store) (r : TransitionClaimRequest) (cs : List TransitionClaim) (id : String)
    → (claim_transitions s r).1 ≡ ok cs
    → (length cs ≤ pos_part r.limit)
      × (((claim_transitions s r).0.transitions id ≡ s.transitions id)
          ⊎ ((st : TransitionState) × (claimable (s.transitions id) r.now ≡ some st)
              × ((claim_transitions s r).0.transitions id ≡ some (claimed r id st))))
unfolding claim_transitions
claim_transitions_lem s r cs id h = (
  ground (
    arith,
    claim_loop-length r id (ground arith) (ground arith) s.transition_order (pos_part r.limit)
        s.transitions,
  ),
  ground (
    arith,
    claim_loop-entry r id (ground arith) (ground arith) s.transition_order (pos_part r.limit)
        s.transitions,
  ),
)

-- A claimed entry is not free before its lease runs out.
pub claimable-claimed :
    (r : TransitionClaimRequest) (id : String) (st : TransitionState) (later : ℕ)
    → 0 < r.now
    → later < r.now + pos_part r.lease_duration
    → claimable (some (claimed r id st)) later ≡ none
unfolding claimable claimed
claimable-claimed r id st later z h = ground arith

-- An entry that a claim at a non-zero time has leased stays as it is when another claim succeeds
-- before that lease runs out.
pub claim_exclusive :
    (s : Store) (r q : TransitionClaimRequest) (cs : List TransitionClaim) (id : String)
    (st : TransitionState)
    → s.transitions id ≡ some (claimed r id st)
    → 0 < r.now
    → q.now < r.now + pos_part r.lease_duration
    → (claim_transitions s q).1 ≡ ok cs
    → (claim_transitions s q).0.transitions id ≡ s.transitions id
claim_exclusive s r q cs id st e z h k =
    ground (arith, claim_transitions_lem s q cs id k, claimable-claimed r id st q.now z h)
