-- ===== src/Crm/ItemsKept.antt =====
-- The creation, the update and the deletion of a work item keep the tables consistent, and the runs to
-- their processes.
use coreops_platform.Base.{
  ℕ, ◌≡◌, ◌≢◌, refl, sym, subst, ◌∙◌, String, not, ◌&&◌, Option, none, some, is_some, List, [], ◌∷◌,
  ◌⊎◌, inl, inr, ◌==◌, ==_iff, Bool-cases, All, All-Elem, All-of_Elem, All-map, Elem, filter-Elem,
  find?, find?-eq-some, ltb, Result, ok, err, ◌>>=◌, ◌>>◌, >>=-eq-ok, raise_if, or_raise,
  or_raise-eq-ok, ok_inj,
}
use coreops_platform.Platform.{not_found, conflict}
use coreops_platform.Parties.Values.{text}
use coreops_platform.Parties.CustomFields.{Fields, FieldError, get}
use coreops_platform.Crm.Model.{
  WorkItem, WorkItemCreate, ParticipantCreate, Participant, PipelineStage, Run, Configuration, Crm,
  Session, Python, CrmError, core, integrity, lift_fields,
}
use coreops_platform.Crm.Repository.{
  get_stage, get_pipeline, is_stage_of, stages_of, save_item, get_configuration_by_pipeline,
}
use coreops_platform.Crm.Process.{RefinesOf, Keeps, runs_stay}
use coreops_platform.Crm.Consistency.{
  IsConsistent, IsSynced, HasItsStage, Follows, stage_code, run_id_of, id_of, entered,
}
use coreops_platform.Crm.Following.{active_tenant, stays, unchanged}
use coreops_platform.Crm.ProcessRuns.{is_active_configuration, start_run}
use coreops_platform.Crm.WorkItems.{
  prepare_fields, write_fields, ensure_party, earlier, first_stage, initial_stage, without_note,
  stripped_text, new_item, add_participants, is_participant, keep_note, write_note, start_for,
  maybe_auto_start_process_run, create_work_item,
}
use coreops_platform.Crm.MovesConsistent.{made}
use coreops_platform.Crm.StartKept.{IsFresh, start_run-Keeps}
use coreops_platform.Crm.GuardLaws.{raise_ne-eq-ok}

-- A stage of a call: the tables are consistent, the versions and the runs are those at its start, and
-- the item is among the items.
abbrev pub IsPrepared : Crm → WorkItem → Crm → Type 0
IsPrepared c0 i c =
    IsConsistent c × (c.versions ≡ c0.versions) × (c.runs ≡ c0.runs) × Elem i c.items

-- A call that went through such a stage.
pub Prepared-Keeps :
    (py : Python) (c0 c d : Crm)
    → c.versions ≡ c0.versions
    → c.runs ≡ c0.runs
    → Keeps py c d
    → Keeps py c0 d
Prepared-Keeps py c0 c d v r (k, w, f) = (
  k,
  w ∙ v,
  subst (λ x. RefinesOf py c0.versions x d.runs) r (subst (λ x. RefinesOf py x c.runs d.runs) v f),
)

pub same-Keeps : (py : Python) (c0 c : Crm) (i : WorkItem) → IsPrepared c0 i c → Keeps py c0 c
same-Keeps py c0 c i (k, v, r, m) =
    Prepared-Keeps py c0 c c v r (k, refl, runs_stay py c.versions c.runs)

-- An item saved in its own stage.
pub save_item-IsConsistent :
    (c : Crm) (i saved : WorkItem)
    → IsConsistent c
    → Elem i c.items
    → saved.id ≡ i.id
    → saved.tenant_id ≡ i.tenant_id
    → saved.pipeline_id ≡ i.pipeline_id
    → saved.stage_id ≡ i.stage_id
    → IsConsistent (save_item saved c)
save_item-IsConsistent c i saved h m e1 e2 e3 e4 =
    let code = stage_code c.pipelines c.stages saved in
    let (s, ms, es, ps) = All-Elem (HasItsStage c.stages) i c.items h.1 m in
    let q : stage_code c.pipelines c.stages i ≡ code = rw (e2, e4) refl in
    entered c.pipelines c.stages c.items i saved m e1 e2 c.runs c.runs
      (s, ms, es ∙ sym e4, ps ∙ sym e3)
      (unchanged (Follows i.id code) c.runs (
        All-of_Elem (λ r. Follows i.id code r r) c.runs
          (λ r mr. stays c h i m code r (λ w a. (active_tenant c h i m r mr w a).1 ∙ q))))
      h

earlier-eq-some :
    (x : PipelineStage) (o : Option PipelineStage) (s : PipelineStage)
    → earlier x o ≡ some s
    → (s ≡ x) ⊎ (o ≡ some s)
earlier-eq-some x none s h = inl cc
earlier-eq-some x (some t) s h = elim (Bool-cases (ltb t.sort_order x.sort_order)) [
  | inl y ↦ inr (rw y at h)
  | inr n ↦ let z : some x ≡ some s = rw n at h in inl cc
]

first_stage-Elem :
    (ss : List PipelineStage) (s : PipelineStage) → first_stage ss ≡ some s → Elem s ss
first_stage-Elem [] s h = cc
first_stage-Elem (x ∷ ss) s h = elim (earlier-eq-some x (first_stage ss) s h) [
  | inl e ↦ inl e
  | inr e ↦ inr (first_stage-Elem ss s e)
]

-- The stage of a new item is in its pipeline.
initial_stage-Elem :
    (c : Crm) (tenant_id pipeline_id : ℕ) (o : Option ℕ) (s : PipelineStage)
    → initial_stage c tenant_id pipeline_id o ≡ ok s
    → Elem s c.stages × (s.pipeline_id ≡ pipeline_id)
unfolding initial_stage get_stage
initial_stage-Elem c tenant_id pipeline_id none s h =
    let (m, p) =
      filter-Elem (λ (x : PipelineStage). x.pipeline_id == pipeline_id) c.stages s
        (first_stage-Elem (stages_of c pipeline_id) s (or_raise-eq-ok _ _ h)) in
    (m, (==_iff _ _).0 p)
initial_stage-Elem c tenant_id pipeline_id (some stage_id) s h =
    let (x, found, h1) =
      >>=-eq-ok (or_raise (get_stage c tenant_id stage_id) (core conflict)) _ h in
    let (u, same, h2) =
      >>=-eq-ok (raise_if (not (x.pipeline_id == pipeline_id)) (core conflict)) _ h1 in
    let (t, m) =
      find?-eq-some (λ y. is_stage_of c.pipelines tenant_id y && y.id == stage_id) c.stages x
        (or_raise-eq-ok _ _ found) in
    subst (λ z. Elem z c.stages × (z.pipeline_id ≡ pipeline_id)) (ok_inj h2)
      (m, raise_ne-eq-ok _ _ _ same)

-- A new item, whose identifier is not in use.
added-IsConsistent :
    (c : Crm) (i : WorkItem)
    → IsConsistent c
    → All (λ x. i.id ≢ id_of x) c.items
    → HasItsStage c.stages i
    → IsConsistent (record c { items = i ∷ c.items })
added-IsConsistent c i h fresh s = (
  (fresh, h.0),
  (s, h.1),
  h.2,
  h.3,
  All-map (IsSynced c.pipelines c.stages c.items) (IsSynced c.pipelines c.stages (i ∷ c.items))
      c.runs later h.4,
  h.5,
)
  where
    later :
        (r : Run)
        → IsSynced c.pipelines c.stages c.items r
        → IsSynced c.pipelines c.stages (i ∷ c.items) r
    later r (inl off) = inl off
    later r (inr (j, mj, e, t, k)) = inr (j, inr mj, e, t, k)

participants_added :
    (c0 : Crm) (i : WorkItem) (tenant_id work_item_id : ℕ) (ps : List ParticipantCreate) (c d : Crm)
    → add_participants tenant_id work_item_id ps c ≡ ok d
    → IsPrepared c0 i c
    → IsPrepared c0 i d
unfolding add_participants
participants_added c0 i tenant_id work_item_id [] c d h k = subst (IsPrepared c0 i) (ok_inj h) k
participants_added c0 i tenant_id work_item_id (p ∷ ps) c d h k =
    let (u, e, h1) =
      >>=-eq-ok
        (ensure_party c tenant_id (some p.party_id)
          >> raise_if (is_some (find? (is_participant work_item_id p) c.participants)) integrity)
        _ h in
    let row : Participant = record {
      tenant_id = tenant_id;
      work_item_id = work_item_id;
      party_id = p.party_id;
      role = p.role;
    } in
    participants_added c0 i tenant_id work_item_id ps
      (record c { participants = row ∷ c.participants }) d h1 k

-- The tables are consistent, with the versions and the runs of an earlier state of them.
abbrev pub IsUnmoved : Crm → Crm → Type 0
IsUnmoved c0 c = IsConsistent c × (c.versions ≡ c0.versions) × (c.runs ≡ c0.runs)

note_saved :
    (c0 : Crm) (i : WorkItem) (note : String) (c d : Crm)
    → ◌≡◌ {A = Result CrmError Crm}
        (ok (save_item (record i { custom_fields_json = ("source_note", text note) ∷ [] }) c))
        (ok d)
    → IsPrepared c0 i c
    → IsUnmoved c0 d
note_saved c0 i note c d h (k, v, r, m) =
    let saved : WorkItem = record i { custom_fields_json = ("source_note", text note) ∷ [] } in
    subst (IsUnmoved c0) (ok_inj h) (save_item-IsConsistent c i saved k m refl refl refl refl, v, r)

note_kept :
    (session : Session) (c0 : Crm) (i : WorkItem) (note : String) (f : Result FieldError Fields)
    (c d : Crm)
    → keep_note session i note f c ≡ ok d
    → IsPrepared c0 i c
    → IsUnmoved c0 d
note_kept session c0 i note (ok []) c d h k = note_saved c0 i note c d h k
note_kept session c0 i note (ok (x ∷ xs)) c d h (k, v, r, m) =
    subst (IsUnmoved c0) (ok_inj {a = write_fields session.tenant_id i.id (x ∷ xs) c} h) (k, v, r)
note_kept session c0 i note (err (FieldError.core e)) c d h k = note_saved c0 i note c d h k
note_kept session c0 i note (err FieldError.value_error) c d h k = cc

note_written :
    (py : Python) (session : Session) (c0 : Crm) (i : WorkItem) (note : Option String) (c d : Crm)
    → write_note py session i note c ≡ ok d
    → IsPrepared c0 i c
    → IsUnmoved c0 d
unfolding write_note
note_written py session c0 i none c d h (k, v, r, m) = subst (IsUnmoved c0) (ok_inj h) (k, v, r)
note_written py session c0 i (some note) c d h k =
    note_kept session c0 i note
      (prepare_fields py c session.tenant_id (("source_note", text note) ∷ [])) c d h k

started_for :
    (py : Python) (c0 c d : Crm) (session : Session) (i : WorkItem) (o : Option Configuration)
    → start_for py c session i o ≡ ok d
    → IsUnmoved c0 c
    → All (λ r. session.new_run_id ≢ run_id_of r) c0.runs
    → Keeps py c0 d
started_for py c0 c d session i none h (k, v, r) fresh =
    Prepared-Keeps py c0 c d v r (made py c c d h (k, refl, runs_stay py c.versions c.runs))
started_for py c0 c d session i (some config) h (k, v, r) fresh =
    elim (Bool-cases (is_active_configuration config.activation_state)) [
      | inr n ↦
          let z : ok c ≡ ok d = rw n at h in
          Prepared-Keeps py c0 c d v r (made py c c d z (k, refl, runs_stay py c.versions c.runs))
      | inl y ↦
          let z : (start_run py c session i.id config.id >>= (λ (out : Run × Crm). ok out.1))
              ≡ ok d =
            rw y at h in
          let (out, started, h1) =
            >>=-eq-ok (start_run py c session i.id config.id) (λ (out : Run × Crm). ok out.1) z in
          Prepared-Keeps py c0 c d v r (
            made py c out.1 d h1 (
              start_run-Keeps py c out.1 session i.id config.id out.0 started k
                (subst (All (λ r. session.new_run_id ≢ run_id_of r)) (sym r) fresh)))
    ]

pub create_work_item-Keeps :
    (py : Python) (c d : Crm) (session : Session) (payload : WorkItemCreate)
    → create_work_item py c session payload ≡ ok d
    → IsConsistent c
    → IsFresh session c
    → Keeps py c d
unfolding create_work_item maybe_auto_start_process_run
create_work_item-Keeps py c d session payload h k fresh =
    let tenant_id = session.tenant_id in
    let (pipeline, e1, h1) =
      >>=-eq-ok (or_raise (get_pipeline c tenant_id payload.pipeline_id) (core not_found)) _ h in
    let (stage, e2, h2) = >>=-eq-ok (initial_stage c tenant_id pipeline.id payload.stage_id) _ h1 in
    let (u3, e3, h3) = >>=-eq-ok (ensure_party c tenant_id payload.primary_party_id) _ h2 in
    let (values, e4, h4) =
      >>=-eq-ok (lift_fields (prepare_fields py c tenant_id (without_note payload.custom_fields))) _
        h3 in
    let i = new_item session payload pipeline.id stage in
    let added : Crm = record c { items = i ∷ c.items } in
    let (joined, e5, h5) =
      >>=-eq-ok (add_participants tenant_id i.id payload.participants added) _ h4 in
    let (noted, e6, h6) =
      >>=-eq-ok
        (write_note py session i (stripped_text py (get "source_note" payload.custom_fields))
          (write_fields tenant_id i.id values joined))
        _ h5 in
    let (m, p) = initial_stage-Elem c tenant_id pipeline.id payload.stage_id stage e2 in
    let (k1, v1, r1, m1) =
      participants_added c i tenant_id i.id payload.participants added joined e5
        (added-IsConsistent c i k fresh.0 (stage, m, refl, p), refl, refl, inl refl) in
    started_for py c noted d session i
      (get_configuration_by_pipeline noted session.tenant_id i.pipeline_id) h6
      (note_written py session c i (stripped_text py (get "source_note" payload.custom_fields))
        (write_fields tenant_id i.id values joined) noted e6 (k1, v1, r1, m1))
      fresh.1
