-- ===== src/Queue/Claims.antt =====
-- go/agent-runtime/queue/memory.go: `Claim` writes once to each job that it hands out.
use gaoge_agent_runtime.Prelude.{
  ℕ, zero, suc, ◌≤◌, String, none, some, List, [], ◌∷◌, map, take, ◌≡◌, ◌≢◌, inl, inr, refl, sym,
  arith, text_eq, trim_space, Bool-cases, All, ltb, ◌||◌,
}
use gaoge_agent_runtime.Prelude.Int.{ℤ}
use gaoge_agent_runtime.Queue.{queued, Job, Codec, release_for_retry}
use gaoge_agent_runtime.Queue.Table.{
  Table, find, insert, map_jobs, find-insert, IsMap, map_jobs-IsMap,
}
use gaoge_agent_runtime.Queue.Ordering.{before, insert_job, sort_jobs}
use gaoge_agent_runtime.Queue.Delivery.{
  claimed, is_eligible, reap_one, eligible_jobs, eligible, claim_each, claim, claim_limit,
}
use gaoge_agent_runtime.Queue.Moves.{claims}
use gaoge_agent_runtime.Queue.Evolution.{
  Follows, Follows-refl, Follows-same, Follows-write, Follows-trans, Follows-insert,
  Follows-map_jobs, reap_one-Move,
}

-- No identifier twice, and none that is not of a job to claim.
abbrev Apart : List Job → Type 0
Apart [] = Unit
Apart (j ∷ js) = All (λ k. k.id ≢ j.id) js × Apart js

All-insert_job :
    (P : Job → Type 0) (j : Job) (js : List Job) → P j → All P js → All P (insert_job j js)
unfolding insert_job
All-insert_job P j [] p a = (p, a)
All-insert_job P j (k ∷ ks) p (q, a) = elim (Bool-cases (before k j)) [
  | inl b ↦ rw b (q, All-insert_job P j ks p a)
  | inr b ↦ rw b (p, (q, a))
]

All-sort_jobs : (P : Job → Type 0) (js : List Job) → All P js → All P (sort_jobs js)
unfolding sort_jobs
All-sort_jobs P [] a = a
All-sort_jobs P (j ∷ js) (p, a) = All-insert_job P j (sort_jobs js) p (All-sort_jobs P js a)

insert_job-Apart :
    (j : Job) (js : List Job) → All (λ k. k.id ≢ j.id) js → Apart js → Apart (insert_job j js)
unfolding insert_job
insert_job-Apart j [] n a = (n, a)
insert_job-Apart j (k ∷ ks) (m, n) (b, a) = elim (Bool-cases (before k j)) [
  | inl p ↦
      rw p (All-insert_job (λ x. x.id ≢ k.id) j ks (λ e. m (sym e)) b, insert_job-Apart j ks n a)
  | inr p ↦ rw p ((m, n), (b, a))
]

sort_jobs-Apart : (js : List Job) → Apart js → Apart (sort_jobs js)
unfolding sort_jobs
sort_jobs-Apart [] a = a
sort_jobs-Apart (j ∷ js) (n, a) =
    insert_job-Apart j (sort_jobs js) (All-sort_jobs (λ k. k.id ≢ j.id) js n) (sort_jobs-Apart js a)

-- A job that stands in the table, waits and is due.
abbrev IsDue : ℕ → Table → Job → Type 0
IsDue now t j = (find j.id t ≡ some j) × (j.status ≡ queued) × (j.available_at ≤ now)

All-map {ℓ κ} :
    {A : Type ℓ} (P Q : A → Type κ) → ((x : A) → P x → Q x) → (xs : List A) → All P xs → All Q xs
All-map P Q f [] a = a
All-map P Q f (x ∷ xs) (p, a) = (f x p, All-map P Q f xs a)

eligible_absent :
    (name : String) (now : ℕ) (q : String) (t : Table)
    → find q t ≡ none
    → IsMap t
    → All (λ k. k.id ≢ q) (eligible_jobs name now t)
unfolding eligible_jobs find
eligible_absent name now q [] a m = tt
eligible_absent name now q ((i, x) ∷ t) a (n, d, m) = elim (Bool-cases (is_eligible name now x)) [
  | inl e ↦ rw e (ground arith, eligible_absent name now q t (ground arith) m)
  | inr e ↦ rw e (eligible_absent name now q t (ground arith) m)
]

eligible_jobs-Apart :
    (name : String) (now : ℕ) (t : Table) → IsMap t → Apart (eligible_jobs name now t)
unfolding eligible_jobs
eligible_jobs-Apart name now [] m = tt
eligible_jobs-Apart name now ((i, x) ∷ t) (n, d, m) = elim (Bool-cases (is_eligible name now x)) [
  | inl e ↦ rw e (eligible_absent name now x.id t (rw d n) m, eligible_jobs-Apart name now t m)
  | inr e ↦ rw e (eligible_jobs-Apart name now t m)
]

eligible_jobs-IsDue :
    (name : String) (now : ℕ) (t u : Table)
    → IsMap t
    → ((q : String) (j : Job) → find q t ≡ some j → find q u ≡ some j)
    → All (IsDue now u) (eligible_jobs name now t)
unfolding eligible_jobs find is_eligible
eligible_jobs-IsDue name now [] u m sub = tt
eligible_jobs-IsDue name now ((i, x) ∷ t) u (n, d, m) sub =
    let rest = eligible_jobs-IsDue name now t u m (λ q j p. sub q j (ground arith)) in
    elim (Bool-cases (is_eligible name now x)) [
      | inl e ↦ rw e ((sub x.id x (ground arith), ground arith, ground arith), rest)
      | inr e ↦ rw e rest
    ]

reap_one-id : (name : String) (now : ℕ) (j : Job) → (reap_one name now j).id ≡ j.id
unfolding reap_one release_for_retry
reap_one-id name now j = ground arith

module _ (codec : Codec) where
  -- Claiming one job leaves the others due.
  IsDue-insert :
      (now : ℕ) (t : Table) (j k : Job) (ks : List Job)
      → All (λ x. x.id ≢ j.id) ks
      → All (IsDue now t) ks
      → All (IsDue now (insert j.id k t)) ks
  IsDue-insert now t j k [] n a = a
  IsDue-insert now t j k (x ∷ xs) (m, n) ((p, q, d), a) =
      ((ground (arith, find-insert j.id x.id k t), q, d), IsDue-insert now t j k xs n a)

  claim_each-Follows :
      (worker : String) (now n : ℕ) (js : List Job) (t : Table)
      → Apart js
      → All (IsDue now t) js
      → Follows codec t (claim_each codec worker now (take n (map (λ j. j.id) js)) t).0
  unfolding claim_each
  claim_each-Follows worker now zero js t apart due = Follows-refl codec t
  claim_each-Follows worker now (suc n) [] t apart due = Follows-refl codec t
  claim_each-Follows worker now (suc n) (j ∷ js) t (m, apart) ((p, q, a), due) =
      let u = insert j.id (claimed codec worker now j) t in
      Follows-write codec t (ground arith) (
        Follows-trans codec t u _
          (Follows-insert codec now t j.id j _ p refl (claims worker q a refl))
          (claim_each-Follows worker now n js u apart (IsDue-insert now t j _ js m due)))

  pub claim-Follows :
      (t : Table) (name worker : String) (limit : ℤ) (now : ℕ)
      → IsMap t
      → Follows codec t (claim codec t name worker limit now).0
  unfolding claim eligible
  claim-Follows t name worker limit now m =
      elim (Bool-cases (
        text_eq (trim_space name) ""
        || text_eq (trim_space worker) ""
        || ltb 100 (claim_limit limit))) [
          | inl bad ↦ Follows-same codec (ground arith)
          | inr good ↦
              let u = map_jobs (reap_one (trim_space name) now) t in
              let js = eligible_jobs (trim_space name) now u in
              let k =
                map_jobs-IsMap (reap_one (trim_space name) now) (reap_one-id (trim_space name) now)
                  t m in
              Follows-write codec t (ground arith) (
                Follows-trans codec t u _
                  (Follows-map_jobs codec now (reap_one (trim_space name) now) t
                    (reap_one-Move codec (trim_space name) now))
                  (claim_each-Follows (trim_space worker) now (claim_limit limit) (sort_jobs js) u
                    (sort_jobs-Apart js (eligible_jobs-Apart (trim_space name) now u k))
                    (All-sort_jobs (IsDue now u) js
                      (eligible_jobs-IsDue (trim_space name) now u u k (λ q j p. p)))))
        ]
