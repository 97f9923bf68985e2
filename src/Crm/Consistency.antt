-- ===== src/Crm/Consistency.antt =====
-- The invariant of the tables of backend/app/modules/workflows and process_overlay, and the change of
-- one work item with the runs that follow it.
use coreops_platform.Base.{
  ℕ, ◌≡◌, ◌≢◌, refl, sym, ◌∙◌, String, Bool, true, false, not, ◌&&◌, Option, List, [], ◌∷◌, ◌⊎◌,
  inl, inr, ◌==◌, ==_iff, Bool-cases, All, All-of_Elem, All-Elem, All-update_where, Pairwise,
  Pairwise-saved, Pairwise-Pointwise, Pointwise, All-Pointwise, Elem, update_where, same_by_key,
  arith,
}
use coreops_platform.Crm.Model.{Pipeline, PipelineStage, WorkItem, Run, Crm}
use coreops_platform.Crm.Repository.{find_stage, is_active_state, has_item_id}
use coreops_platform.Crm.Guard.{code_of}

abbrev pub id_of : WorkItem → ℕ
id_of i = i.id

abbrev pub run_id_of : Run → ℕ
run_id_of r = r.id

abbrev pub stage_id_of : PipelineStage → ℕ
stage_id_of s = s.id

-- The code of the stage that an item is in.
abbrev pub stage_code : List Pipeline → List PipelineStage → WorkItem → Option String
stage_code pipelines stages i = code_of (find_stage pipelines stages i.tenant_id i.stage_id)

-- The run knows the stage of its work item, which is of the same tenant.
abbrev pub IsAt : List Pipeline → List PipelineStage → List WorkItem → Run → Type 0
IsAt pipelines stages items r =
    (i : WorkItem) × Elem i items
    × (i.id ≡ r.work_item_id)
    × (i.tenant_id ≡ r.tenant_id)
    × (r.current_stage_code ≡ stage_code pipelines stages i)

abbrev pub IsSynced : List Pipeline → List PipelineStage → List WorkItem → Run → Type 0
IsSynced pipelines stages items r =
    (is_active_state r.run_state ≡ false) ⊎ IsAt pipelines stages items r

-- Two runs are not both active on one work item.
abbrev pub are_exclusive : Run → Run → Bool
are_exclusive r s =
    not (
      is_active_state r.run_state
      && is_active_state s.run_state
      && r.work_item_id == s.work_item_id)

abbrev pub HasItsStage : List PipelineStage → WorkItem → Type 0
HasItsStage stages i =
    (s : PipelineStage) × Elem s stages × (s.id ≡ i.stage_id) × (s.pipeline_id ≡ i.pipeline_id)

abbrev pub IsConsistentOf : List Pipeline → List PipelineStage → List WorkItem → List Run → Type 0
IsConsistentOf pipelines stages items runs =
    Pairwise (λ i j. id_of i ≢ id_of j) items
    × All (HasItsStage stages) items
    × Pairwise (λ r s. run_id_of r ≢ run_id_of s) runs
    × Pairwise (λ r s. are_exclusive r s ≡ true) runs
    × All (IsSynced pipelines stages items) runs
    × Pairwise (λ s t. stage_id_of s ≢ stage_id_of t) stages

-- Items, runs and stages have their identifiers to themselves, an item is in a stage of its pipeline, a work
-- item has one active run at most, and an active run knows the stage of its work item.
abbrev pub IsConsistent : Crm → Type 0
IsConsistent c = IsConsistentOf c.pipelines c.stages c.items c.runs

-- Two rows at different places are related one way or the other.
pub Pairwise-related :
    {A : Type 0} (R : A → A → Type 0) (a b : A) (xs : List A)
    → Pairwise R xs
    → Elem a xs
    → Elem b xs
    → (a ≡ b) ⊎ R a b ⊎ R b a
Pairwise-related R a b [] p m n = absurd m
Pairwise-related R a b (x ∷ xs) p (inl e) (inl f) = inl (e ∙ sym f)
Pairwise-related R a b (x ∷ xs) p (inl e) (inr n) = inr (inl (rw e (All-Elem (R x) b xs p.0 n)))
Pairwise-related R a b (x ∷ xs) p (inr m) (inl f) = inr (inr (rw f (All-Elem (R x) a xs p.0 m)))
Pairwise-related R a b (x ∷ xs) p (inr m) (inr n) = Pairwise-related R a b xs p.1 m n

module _ {A : Type 0} where
  -- The row written is in the table where a row was replaced, and so is a row that was not.
  pub Elem-written :
      (p : A → Bool) (b a : A) (xs : List A)
      → Elem a xs
      → p a ≡ true
      → Elem b (update_where p (λ _. b) xs)
  Elem-written p b a [] m t = absurd m
  Elem-written p b a (x ∷ xs) (inl e) t = rw (rw e at t) (inl refl)
  Elem-written p b a (x ∷ xs) (inr m) t = inr (Elem-written p b a xs m t)

  pub Elem-kept :
      (p : A → Bool) (b a : A) (xs : List A)
      → Elem a xs
      → p a ≡ false
      → Elem a (update_where p (λ _. b) xs)
  Elem-kept p b a [] m t = absurd m
  Elem-kept p b a (x ∷ xs) (inl e) t = rw (rw e at t) (inl e)
  Elem-kept p b a (x ∷ xs) (inr m) t = inr (Elem-kept p b a xs m t)

-- What becomes of a run when a work item enters a stage of a code.
abbrev pub Follows : ℕ → Option String → Run → Run → Type 0
Follows work_item_id code r s =
    (s.id ≡ r.id)
    × (s.tenant_id ≡ r.tenant_id)
    × (s.work_item_id ≡ r.work_item_id)
    × (s.run_state ≡ r.run_state)
    × (((r.work_item_id ≡ work_item_id) × (s.current_stage_code ≡ code))
        ⊎ ((r.work_item_id ≢ work_item_id) × (s.current_stage_code ≡ r.current_stage_code))
        ⊎ (is_active_state r.run_state ≡ false))

module _ (pipelines : List Pipeline) (stages : List PipelineStage) (items : List WorkItem)
    (i moved : WorkItem) (m : Elem i items) (same_id : moved.id ≡ i.id)
    (same_tenant : moved.tenant_id ≡ i.tenant_id) where
  abbrev pub saved_items : List WorkItem
  saved_items = update_where (has_item_id moved.id) (λ _. moved) items

  saved_first : Elem moved saved_items
  saved_first = Elem-written (has_item_id moved.id) moved i items m (ground arith)

  synced :
      Pairwise (λ x y. id_of x ≢ id_of y) items
      → (r s : Run) → Follows i.id (stage_code pipelines stages moved) r s
      → IsSynced pipelines stages items r
      → IsSynced pipelines stages saved_items s
  synced d r s (e, t, w, st, f) (inl off) = inl (rw st off)
  synced d r s (e, t, w, st, f) (inr (j, mj, ej, tj, cj)) = elim f [
    | inr (inr off) ↦ inl (rw st off)
    | inl (here, code) ↦
        let j_is_i : j ≡ i = same_by_key id_of i j items d m mj (ej ∙ here) in
        inr (moved, saved_first, cc, cc, code)
    | inr (inl (there, code)) ↦
        let off : has_item_id moved.id j ≡ false = elim (Bool-cases (has_item_id moved.id j)) [
          | inr n ↦ n
          | inl y ↦
              let q : j.id ≡ moved.id = (==_iff j.id moved.id).0 y in
              absurd (there (sym ej ∙ (q ∙ same_id)))
        ] in
        inr (j, Elem-kept (has_item_id moved.id) moved j items mj off, cc, cc, cc)
  ]

  saved_stages :
      HasItsStage stages moved
      → All (HasItsStage stages) items
      → All (HasItsStage stages) saved_items
  saved_stages h a =
      All-update_where (HasItsStage stages) (has_item_id moved.id) (λ _. moved) items
        (All-of_Elem (λ x. has_item_id moved.id x ≡ true → HasItsStage stages moved) items
          (λ x mx e. h))
        (All-of_Elem (λ x. has_item_id moved.id x ≡ false → HasItsStage stages x) items
          (λ x mx e. All-Elem (HasItsStage stages) x items a mx))

  -- A work item enters a stage, and the runs follow it.
  pub entered :
      (runs after : List Run)
      → HasItsStage stages moved
      → Pointwise (Follows i.id (stage_code pipelines stages moved)) runs after
      → IsConsistentOf pipelines stages items runs
      → IsConsistentOf pipelines stages saved_items after
  entered runs after h f (di, si, dr, ex, sy, ds) =
      let rel = Follows i.id (stage_code pipelines stages moved) in
      (
        Pairwise-saved id_of moved items di,
        saved_stages h si,
        Pairwise-Pointwise rel (λ r s. run_id_of r ≢ run_id_of s)
            (λ x y u v p q n e. n (sym p.0 ∙ (e ∙ q.0))) runs after f dr,
        Pairwise-Pointwise rel (λ r s. are_exclusive r s ≡ true)
            (λ x y u v p q n. rw (p.3, q.3, p.2, q.2) n) runs after f ex,
        All-Pointwise rel (IsSynced pipelines stages items) (IsSynced pipelines stages saved_items)
            (synced di) runs after f sy,
        ds,
      )
