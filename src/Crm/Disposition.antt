-- ===== src/Crm/Disposition.antt =====
-- What `reopen_work_item` of backend/app/modules/workflows/service/workflow_service.py leaves of a
-- closed work item.
use coreops_platform.Base.{
  ℕ, ◌≡◌, refl, ap, subst, String, false, not, Option, some, List, Pairwise, Elem, str_eq,
  str_eq_iff, find?-eq-some, ==_refl, Result, ok, err, ◌&&◌, ◌==◌, >>=-eq-ok, raise_if, or_raise,
  or_raise-eq-ok, ok_inj,
}
use coreops_platform.Platform.{conflict}
use coreops_platform.Parties.Values.{Value, null}
use coreops_platform.Parties.CustomFields.{
  Fields, FieldDefinition, FieldError, get, list_definitions, get_values_map, validate_and_prepare,
  upsert_values,
}
use coreops_platform.Parties.FieldRoundTrip.{get_values_map-upsert_values}
use coreops_platform.Parties.Prepared.{null_prepared, validate_and_prepare-HaveDistinctKeys}
use coreops_platform.Crm.Model.{
  WorkItem, WorkItemStatus, PipelineStage, Crm, core, Session, Python, lift_fields,
}
use coreops_platform.Crm.Repository.{
  get_work_item, get_stage, get_stage_by_code, is_stage_of, has_item_id,
}
use coreops_platform.Crm.Guard.{GuardResult, record_applied_transition}
use coreops_platform.Crm.Consistency.{Elem-written}
use coreops_platform.Crm.WorkItems.{prepare_fields, get_work_item_or_404}
use coreops_platform.Crm.Moves.{
  assert_process_transition, moved_to, disposition_fields, after_disposition, reopen_work_item,
}
use coreops_platform.Crm.MovesConsistent.{get_work_item-Elem, and_right}

lifted : {A : Type 0} (m : Result FieldError A) {a : A} → lift_fields m ≡ ok a → m ≡ ok a
lifted (ok a) h = ap ok (ok_inj h)
lifted (err (FieldError.core e)) h = cc
lifted (err FieldError.value_error) h = cc

-- A field of a work item, as `get_values_map` reads it.
abbrev pub field_of : Crm → ℕ → ℕ → String → Option Value
field_of c tenant_id id key = get key (get_values_map c.field_values tenant_id "work_item" id)

recorded :
    (g : GuardResult) (code : String) (c : Crm) (P : List WorkItem → Type 0) (id tenant_id : ℕ)
    (key : String)
    → P c.items
    → field_of c tenant_id id key ≡ some null
    → P (record_applied_transition g code c).items
      × (field_of (record_applied_transition g code c) tenant_id id key ≡ some null)
unfolding record_applied_transition
recorded GuardResult.noop code c P id tenant_id key p f = (p, f)
recorded GuardResult.unenforced code c P id tenant_id key p f = (p, f)
recorded (GuardResult.enforced run version) code c P id tenant_id key p f = (p, f)

-- A field written as `None` reads as `None`.
cleared :
    (py : Python) (c : Crm) (tenant_id id : ℕ) (key : String) (values : Fields)
    → validate_and_prepare py.builtins c.field_definitions tenant_id "work_item"
        (disposition_fields null null)
        List.[]
      ≡ ok values
    → Pairwise
        (λ (d e : FieldDefinition). str_eq d.field_key e.field_key ≡ false)
        (list_definitions c.field_definitions tenant_id "work_item")
    → get key (disposition_fields null null) ≡ some null
    → get key (
        get_values_map
          (upsert_values tenant_id "work_item" id values c.field_values)
          tenant_id
          "work_item"
          id)
      ≡ some null
cleared py c tenant_id id key values h d s =
    let distinct =
      validate_and_prepare-HaveDistinctKeys py.builtins c.field_definitions tenant_id "work_item"
        (disposition_fields null null) values h d in
    let given =
      null_prepared py.builtins c.field_definitions tenant_id "work_item"
        (disposition_fields null null) List.[] values key h s in
    rw
      (
        get_values_map-upsert_values tenant_id "work_item" id values c.field_values key distinct,
        given,
      )
      refl

-- Where the keys of the definitions of a tenant's work items are distinct, an item that has been opened
-- again is in progress in a stage of the code new_lead, and its disposition and the note of it read as
-- `None`, whatever they were.
pub reopen_work_item_clears :
    (py : Python) (c d : Crm) (session : Session) (work_item_id : ℕ)
    → Pairwise
        (λ (x y : FieldDefinition). str_eq x.field_key y.field_key ≡ false)
        (list_definitions c.field_definitions session.tenant_id "work_item")
    → reopen_work_item py c session work_item_id ≡ ok d
    → (i : WorkItem) × (s : PipelineStage) × (get_work_item c session.tenant_id work_item_id
        ≡ some i)
      × (s.code ≡ "new_lead")
      × (Elem (moved_to s WorkItemStatus.in_progress i) d.items
          × (field_of d session.tenant_id i.id "disposition" ≡ some null)
          × (field_of d session.tenant_id i.id "disposition_note" ≡ some null))
unfolding reopen_work_item get_stage_by_code
reopen_work_item_clears py c d session work_item_id distinct h =
    let tenant_id = session.tenant_id in
    let (i, found, h1) = >>=-eq-ok (get_work_item_or_404 c tenant_id work_item_id) _ h in
    let (current, u0, h2) =
      >>=-eq-ok (or_raise (get_stage c tenant_id i.stage_id) (core conflict)) _ h1 in
    let (u1, rejected, h3) =
      >>=-eq-ok (raise_if (not (str_eq current.code "rejected")) (core conflict)) _ h2 in
    let (s, target, h4) =
      >>=-eq-ok (or_raise (get_stage_by_code c tenant_id i.pipeline_id "new_lead") (core conflict))
        _ h3 in
    let (g, passed, h5) = >>=-eq-ok (assert_process_transition py c session i s) _ h4 in
    let (values, prepared, h6) =
      >>=-eq-ok (lift_fields (prepare_fields py c tenant_id (disposition_fields null null))) _ h5 in
    let (m, t, e) = get_work_item-Elem c tenant_id work_item_id i found in
    let ready = lifted (prepare_fields py c tenant_id (disposition_fields null null)) prepared in
    let moved = moved_to s WorkItemStatus.in_progress i in
    let after = after_disposition c session i s WorkItemStatus.in_progress values in
    let written : Elem moved after.items =
      Elem-written (has_item_id i.id) moved i c.items m (==_refl i.id) in
    let (code, ms) =
      find?-eq-some
        (λ (y : PipelineStage).
          is_stage_of c.pipelines tenant_id y
          && y.pipeline_id == i.pipeline_id
          && str_eq y.code "new_lead")
        c.stages s (or_raise-eq-ok _ _ target) in
    let (there, empty) =
      recorded g s.code after (Elem moved) i.id tenant_id "disposition" written
        (cleared py c tenant_id i.id "disposition" values ready distinct refl) in
    let (there2, empty2) =
      recorded g s.code after (Elem moved) i.id tenant_id "disposition_note" written
        (cleared py c tenant_id i.id "disposition_note" values ready distinct refl) in
    (
      i,
      s,
      or_raise-eq-ok _ _ found,
      (str_eq_iff s.code "new_lead").0 (
          and_right (is_stage_of c.pipelines tenant_id s && s.pipeline_id == i.pipeline_id)
            (str_eq s.code "new_lead") code),
      subst
          (λ (x : Crm).
            Elem moved x.items
            × (field_of x tenant_id i.id "disposition" ≡ some null)
            × (field_of x tenant_id i.id "disposition_note" ≡ some null))
          (ok_inj {a = record_applied_transition g s.code after} h6) (there, empty, empty2),
    )
