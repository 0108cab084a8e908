-- ===== src/Workflow/Frozen.antt =====
-- go/agent-runtime/workflow/definition.go: CompileDefinition and ValidateDefinition against each other.
use gaoge_agent_runtime.Prelude.{
  String, some, ◌≡◌, ◌≢◌, inl, inr, sym, ap, ◌∙◌, arith, trim_space, ok, ◌>>=◌, Result-cases,
  Option-cases,
}
use mathlib.Core.Path.{subst}
use gaoge_agent_runtime.Workflow.{DefinitionDraft, Definition, Encoding}
use gaoge_agent_runtime.Workflow.Normalizing.{clone_nodes, normalize_definition_draft}
use gaoge_agent_runtime.Workflow.Compiling.{
  validate_definition_draft, definition_hash, compile_normal, compile_definition, check_hash,
  validate_definition,
}
use gaoge_agent_runtime.Workflow.Canonical.{IsEncoding, normalize_draft_idem, clone_normal}

-- Two contents with one digest.
pub record IsCollision (enc : Encoding) (c d : DefinitionDraft) : Type 0 where
  pub digest : String
  pub differs : c ≢ d
  pub left : enc.digest c ≡ some digest
  pub right : enc.digest d ≡ some digest

module _ (enc : Encoding) (law : IsEncoding enc) where
  abbrev pub normal : DefinitionDraft → DefinitionDraft
  normal d = normalize_definition_draft enc d

  cloned_normal :
      (d : DefinitionDraft)
      → record (normal d) { nodes = clone_nodes enc (normal d).nodes } ≡ normal d
  cloned_normal d = ap (λ ns. record (normal d) { nodes = ns }) (clone_normal enc law d)

  -- A hash is the digest of the content with its nodes cloned.
  hash-digest :
      (d : DefinitionDraft) (h : String)
      → definition_hash enc (normal d) ≡ ok h
      → enc.digest (normal d) ≡ some h
  unfolding definition_hash
  hash-digest d h e =
      elim (Option-cases
        (enc.digest (record (normal d) { nodes = clone_nodes enc (normal d).nodes }))) [
          | inl n ↦ absurd (ground arith)
          | inr (g, s) ↦
              let same : some g ≡ some h = ground arith in
              ap enc.digest (sym (cloned_normal d)) ∙ s ∙ same
        ]

  -- What a compilation that succeeds has gone through.
  pub record IsCompiled (d : DefinitionDraft) (c : Definition) : Type 0 where
    pub valid : validate_definition_draft enc (normal d) ≡ ok tt
    pub hashed : definition_hash enc (normal d) ≡ ok c.hash
    pub content : c.content ≡ normal d

  compile_normal-hash :
      (d : DefinitionDraft) (c : Definition)
      → compile_normal enc (normal d) ≡ ok c
      → (definition_hash enc (normal d) ≡ ok c.hash) × (c.content ≡ normal d)
  unfolding compile_normal
  compile_normal-hash d c h =
      let e : (definition_hash enc (normal d)
            >>= (λ h. ok (record { content = normal d; hash = h })))
          ≡ ok c =
        subst (λ n. (definition_hash enc n >>= (λ h. ok (record { content = n; hash = h }))) ≡ ok c)
          (cloned_normal d) h in
      elim (Result-cases (definition_hash enc (normal d))) [
        | inl (x, p) ↦ absurd (ground arith)
        | inr (g, p) ↦ (ground arith, ground arith)
      ]

  pub compile-IsCompiled :
      (d : DefinitionDraft) (c : Definition) → compile_definition enc d ≡ ok c → IsCompiled d c
  unfolding compile_definition
  compile-IsCompiled d c h = elim (Result-cases (validate_definition_draft enc (normal d))) [
    | inl (x, p) ↦ absurd (ground arith)
    | inr (tt, p) ↦
        let q = compile_normal-hash d c (ground arith) in
        record { valid = p; hashed = q.0; content = q.1 }
  ]

  -- What compiles is valid: ValidateDefinition accepts the Definition that CompileDefinition gives, when the
  -- encodings that it calls are normal forms.
  pub compile-validate :
      (d : DefinitionDraft) (c : Definition)
      → compile_definition enc d ≡ ok c
      → validate_definition enc c ≡ ok tt
  unfolding validate_definition
  compile-validate d c h =
      let i = compile-IsCompiled d c h in
      let n : normal c.content ≡ normal d = ap normal i.content ∙ normalize_draft_idem enc law d in
      let t : trim_space c.hash ≡ c.hash =
        law.digest_trimmed (normal d) c.hash (hash-digest d c.hash i.hashed) in
      let checked : check_hash enc c.hash c.hash ≡ ok tt = ground (arith, t) in
      subst
        (λ m.
          (validate_definition_draft enc m
            >>= (λ _. definition_hash enc m >>= (λ h. check_hash enc h c.hash)))
          ≡ ok tt)
        (sym n) (ground (arith, i.valid, i.hashed, checked))

  validated-hash :
      (b : Definition)
      → validate_definition enc b ≡ ok tt
      → definition_hash enc (normal b.content) ≡ ok (trim_space b.hash)
  unfolding validate_definition check_hash
  validated-hash b h = elim (Result-cases (validate_definition_draft enc (normal b.content))) [
    | inl (x, p) ↦ absurd (ground arith)
    | inr (tt, p) ↦ elim (Result-cases (definition_hash enc (normal b.content))) [
      | inl (x, q) ↦ absurd (ground arith)
      | inr (g, q) ↦ ground arith
    ]
  ]

  -- A revision is frozen: a Definition that ValidateDefinition accepts under the hash of a compiled one, but
  -- with another content, up to the normal form, is a collision of the digest.
  pub frozen_content :
      (d : DefinitionDraft) (c b : Definition)
      → compile_definition enc d ≡ ok c
      → validate_definition enc b ≡ ok tt
      → trim_space b.hash ≡ c.hash
      → normalize_definition_draft enc b.content ≢ c.content
      → IsCollision enc (normalize_definition_draft enc b.content) c.content
  frozen_content d c b h v s differs =
      let i = compile-IsCompiled d c h in
      record {
        digest = c.hash;
        differs = differs;
        left = hash-digest b.content c.hash (validated-hash b v ∙ ap ok s);
        right = ap enc.digest i.content ∙ hash-digest d c.hash i.hashed;
      }
