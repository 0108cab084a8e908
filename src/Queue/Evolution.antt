-- ===== src/Queue/Evolution.antt =====
-- go/agent-runtime/queue/memory.go: how a table may change, one write to a job at a time.
use gaoge_agent_runtime.Prelude.{
  ℕ, String, some, ◌≡◌, ◌⊎◌, inl, inr, refl, sym, arith, text_dec, text_eq, ◌&&◌, trim_space,
  Option-cases, Bool-cases,
}
use mathlib.Core.Path.{subst}
use gaoge_agent_runtime.Queue.{Job, Codec}
use gaoge_agent_runtime.Queue.Table.{
  Table, find, insert, map_jobs, find-insert, find-map_jobs, IsMap, insert-IsMap, map_jobs-IsMap,
}
use gaoge_agent_runtime.Queue.Delivery.{is_leased, has_expired, reap_one, reap}
use gaoge_agent_runtime.Queue.Moves.{Move, expires, Moves, here, next}
use gaoge_agent_runtime.Queue.Soundness.{IsSound, Move-IsSound, Move-SameRequest}

-- Every job of a table is sound.
abbrev pub AllSound : Table → Type 0
AllSound t = (q : String) (j : Job) → find q t ≡ some j → IsSound j

-- A later table: each job is still there, after some writes, and what is new is sound.
pub record Follows (codec : Codec) (t u : Table) : Type 0 where
  pub kept :
      (q : String) (j : Job) → find q t ≡ some j → (k : Job) × (find q u ≡ some k) × Moves codec j k
  pub sound : AllSound t → AllSound u
  pub mapped : IsMap t → IsMap u

module _ (codec : Codec) where
  pub Follows-refl : (t : Table) → Follows codec t t
  Follows-refl t = record { kept = λ q j p. (j, p, here); sound = λ h. h; mapped = λ m. m }

  Moves-trans : {i j k : Job} → Moves codec i j → Moves codec j k → Moves codec i k
  Moves-trans ms here = ms
  Moves-trans ms (next ns m) = next (Moves-trans ms ns) m

  pub Follows-write : (t : Table) {u v : Table} → v ≡ u → Follows codec t u → Follows codec t v
  Follows-write t e f = subst (Follows codec t) (sym e) f

  pub Follows-same : {t u : Table} → u ≡ t → Follows codec t u
  Follows-same {t} {u} e = Follows-write t e (Follows-refl t)

  pub Follows-trans : (t u v : Table) → Follows codec t u → Follows codec u v → Follows codec t v
  Follows-trans t u v a b = record {
    kept = λ q j p.
        let (k, r, ms) = a.kept q j p in let (l, s, ns) = b.kept q k r in (l, s, Moves-trans ms ns);
    sound = λ h. b.sound (a.sound h);
    mapped = λ m. b.mapped (a.mapped m);
  }

  -- A write of a sound job under its identifier.
  pub insert-AllSound :
      (t : Table) (i : String) (k : Job) → IsSound k → AllSound t → AllSound (insert i k t)
  insert-AllSound t i k s h q j p = elim (text_dec q i) [
    | yes same ↦ subst IsSound (ground (arith, find-insert i q k t)) s
    | no other ↦ h q j (ground (arith, find-insert i q k t))
  ]

  -- One write to the job that stands under its identifier.
  pub Follows-insert :
      (now : ℕ) (t : Table) (i : String) (j k : Job)
      → find i t ≡ some j
      → j.id ≡ i
      → Move codec now j k
      → Follows codec t (insert j.id k t)
  Follows-insert now t i j k p e m = record {
    kept = λ q x r. elim (text_dec q i) [
      | yes same ↦ (
        k,
        ground (arith, find-insert j.id q k t),
        subst (λ y. Moves codec y k) (ground arith) (next here m),
      )
      | no other ↦ (x, ground (arith, find-insert j.id q k t), here)
    ];
    sound = λ h. insert-AllSound t j.id k (Move-IsSound codec m (h i j p)) h;
    mapped = λ w. insert-IsMap j.id k t (Move-SameRequest codec m).id w;
  }

  -- A pass over all jobs that writes to each at most once.
  pub Follows-map_jobs :
      (now : ℕ) (f : Job → Job) (t : Table)
      → ((j : Job) → (f j ≡ j) ⊎ Move codec now j (f j))
      → Follows codec t (map_jobs f t)
  Follows-map_jobs now f t each = record {
    kept = λ q j p. elim (each j) [
      | inl same ↦ (j, ground (arith, find-map_jobs f q t), here)
      | inr m ↦ (f j, ground (arith, find-map_jobs f q t), next here m)
    ];
    sound = λ h q k p. elim (Option-cases (find q t)) [
      | inl missing ↦ ground (arith, find-map_jobs f q t)
      | inr (j, r) ↦ subst IsSound (ground (arith, find-map_jobs f q t)) (sound_one j (h q j r))
    ];
    mapped = map_jobs-IsMap f (λ j. same_id j) t;
  }
    where
      same_id : (j : Job) → (f j).id ≡ j.id
      same_id j = elim (each j) [ inl same ↦ rw same refl | inr m ↦ (Move-SameRequest codec m).id ]

      sound_one : (j : Job) → IsSound j → IsSound (f j)
      sound_one j s = elim (each j) [ inl same ↦ rw same s | inr m ↦ Move-IsSound codec m s ]

  pub reap_one-Move :
      (name : String) (now : ℕ) (j : Job)
      → (reap_one name now j ≡ j) ⊎ Move codec now j (reap_one name now j)
  unfolding reap_one
  reap_one-Move name now j = elim (Option-cases j.lease) [
    | inl free ↦ inl (ground arith)
    | inr (l, p) ↦
        elim (Bool-cases (text_eq j.queue name && is_leased j.status && has_expired j.lease now)) [
          | inl due ↦ inr (expires l (ground arith) p (ground arith) (ground arith))
          | inr kept ↦ inl (ground arith)
        ]
  ]

  pub reap-Follows : (t : Table) (name : String) (now : ℕ) → Follows codec t (reap t name now).0
  unfolding reap
  reap-Follows t name now = elim (Bool-cases (text_eq (trim_space name) "")) [
    | inl blank ↦ rw blank (Follows-refl t)
    | inr named ↦ rw named (
        Follows-map_jobs now (reap_one (trim_space name) now) t
          (reap_one-Move (trim_space name) now))
  ]
