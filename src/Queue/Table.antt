-- ===== src/Queue/Table.antt =====
-- The queue's map of jobs by identifier, an association list, since the queue also walks it.
use gaoge_agent_runtime.Prelude.{
  String, Option, none, some, List, [], ◌∷◌, text_dec, ite, ◌≡◌, refl, arith,
}
use mathlib.Core.Option
use gaoge_agent_runtime.Queue.{Job}

abbrev pub Table : Type 0
Table = List (String × Job)

unfoldable pub find : String → Table → Option Job
find k [] = none
find k ((i, j) ∷ t) = ite (text_dec k i) (some j) (find k t)

unfoldable pub insert : String → Job → Table → Table
insert k j [] = (k, j) ∷ []
insert k j ((i, x) ∷ t) = ite (text_dec k i) ((i, j) ∷ t) ((i, x) ∷ insert k j t)

-- A pass over all jobs.
unfoldable pub map_jobs : (Job → Job) → Table → Table
map_jobs f [] = []
map_jobs f ((i, j) ∷ t) = (i, f j) ∷ map_jobs f t

pub find-insert :
    (k q : String) (j : Job) (t : Table)
    → find q (insert k j t) ≡ ite (text_dec q k) (some j) (find q t)
unfolding find insert
find-insert k q j [] = refl
find-insert k q j ((i, x) ∷ t) = ground (arith, find-insert k q j t)

pub find-map_jobs :
    (f : Job → Job) (q : String) (t : Table) → find q (map_jobs f t) ≡ Option.map f (find q t)
unfolding find map_jobs
find-map_jobs f q [] = refl
find-map_jobs f q ((i, x) ∷ t) = ground (arith, find-map_jobs f q t)

-- Every job stands under its own identifier, and no identifier twice, which a Go map has by itself.
abbrev pub IsMap : Table → Type 0
IsMap [] = Unit
IsMap ((i, j) ∷ t) = (find i t ≡ none) × (j.id ≡ i) × IsMap t

-- Every job stands under its own identifier.
abbrev pub IsKeyed : Table → Type 0
IsKeyed t = (q : String) (j : Job) → find q t ≡ some j → j.id ≡ q

pub IsMap-IsKeyed : (t : Table) → IsMap t → IsKeyed t
unfolding find
IsMap-IsKeyed [] m q j p = cc
IsMap-IsKeyed ((i, x) ∷ t) (n, e, m) q j p = ground (arith, IsMap-IsKeyed t m q j)

pub insert-IsMap : (k : String) (j : Job) (t : Table) → j.id ≡ k → IsMap t → IsMap (insert k j t)
unfolding insert find
insert-IsMap k j [] e m = (refl, e, tt)
insert-IsMap k j ((i, x) ∷ t) e (n, d, m) =
    elim (text_dec k i) as (λ c. IsMap (ite c ((i, j) ∷ t) ((i, x) ∷ insert k j t))) [
      | yes same ↦ (n, ground arith, m)
      | no other ↦ (ground (arith, find-insert k i j t), d, insert-IsMap k j t e m)
    ]

pub map_jobs-IsMap :
    (f : Job → Job) → ((j : Job) → (f j).id ≡ j.id) → (t : Table) → IsMap t → IsMap (map_jobs f t)
unfolding map_jobs
map_jobs-IsMap f same [] m = tt
map_jobs-IsMap f same ((i, x) ∷ t) (n, d, m) =
    (ground (arith, find-map_jobs f i t), ground (arith, same x), map_jobs-IsMap f same t m)
