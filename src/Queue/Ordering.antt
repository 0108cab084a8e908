-- ===== src/Queue/Ordering.antt =====
-- go/agent-runtime/queue/memory.go: the delivery order of `eligibleLocked`.
use gaoge_agent_runtime.Prelude.{
  ◌==◌, ltb, String, Bool, true, false, not, ◌&&◌, List, [], ◌∷◌, if◌then◌else◌,
}
use gaoge_agent_runtime.Prelude.Int.{ℤ, ltb_ℤ}
use gaoge_agent_runtime.Queue.{Job}
use Prim.Native.Nat.{Ordering}
use Prim.Native.String as Text

-- `left < right` on strings.
abbrev pub text_lt : String → String → Bool
text_lt s t = elim (Text.compare s t) [ Ordering.lt ↦ true | _ ↦ false ]

abbrev same_priority : ℤ → ℤ → Bool
same_priority a b = not (ltb_ℤ a b) && not (ltb_ℤ b a)

-- The comparison of `sort.Slice`.
unfoldable pub before : Job → Job → Bool
before l r =
    if not (same_priority l.priority r.priority)
    then ltb_ℤ r.priority l.priority
    else if not (l.available_at == r.available_at)
    then ltb l.available_at r.available_at
    else if not (l.created_at == r.created_at)
    then ltb l.created_at r.created_at
    else text_lt l.id r.id

-- `sort.Slice` as an insertion sort; on jobs with distinct identifiers the order leaves no choice.
unfoldable pub insert_job : Job → List Job → List Job
insert_job j [] = j ∷ []
insert_job j (k ∷ ks) = if before k j then k ∷ insert_job j ks else j ∷ k ∷ ks

unfoldable pub sort_jobs : List Job → List Job
unfolding insert_job
sort_jobs [] = []
sort_jobs (j ∷ js) = insert_job j (sort_jobs js)
