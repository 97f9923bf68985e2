-- ===== src/Crm/EveryCall.antt =====
-- Any order of the calls of backend/app/modules/workflows and backend/app/modules/process_overlay, the
-- publications of versions among them.
use coreops_platform.Base.{ℕ, ◌≡◌, ok, String}
use coreops_platform.Crm.Policy.{PolicySnapshot}
use coreops_platform.Crm.Model.{Version, Crm, Session, Python}
use coreops_platform.Crm.Consistency.{IsConsistent}
use coreops_platform.Crm.Publication.{publish_definition_version}
use coreops_platform.Crm.Published.{publish_definition_version-IsConsistent}
use coreops_platform.Crm.Calls.{Call, Call-Keeps}

-- A call that returned.
pub data AnyCall (py : Python) : Crm → Crm → Type 0 where
  called : {c d : Crm} → Call py c d → AnyCall py c d
  published :
      {c d : Crm} (session : Session) (id : ℕ) (policy : PolicySnapshot) (reason : String)
      (out : Version)
      → publish_definition_version py c session id policy reason ≡ ok (out, d)
      → AnyCall py c d

pub data AnyCalls (py : Python) : Crm → Crm → Type 0 where
  none_yet : {c : Crm} → AnyCalls py c c
  one_more : {c d e : Crm} → AnyCall py c d → AnyCalls py d e → AnyCalls py c e

AnyCall-IsConsistent : (py : Python) (c d : Crm) → AnyCall py c d → IsConsistent c → IsConsistent d
AnyCall-IsConsistent py c d (AnyCall.called call) k = (Call-Keeps py c d call k).0
AnyCall-IsConsistent py c d (AnyCall.published session id policy reason out h) k =
    publish_definition_version-IsConsistent py c d session id policy reason out h k

-- Calls that create and update pipelines; create, activate and deactivate configurations; publish
-- versions and set the active one; create, update, move, close, reopen and delete work items; add
-- activities and tasks; and start, complete and cancel runs, in any order, keep the tables consistent:
-- items, runs and stages have their identifiers to themselves, an item is in a stage of its pipeline, a
-- work item has one active run at most, and an active run knows the code of the stage that its work
-- item is in. The items, runs, pipelines and stages that the calls create have fresh identifiers.
pub AnyCalls-IsConsistent :
    (py : Python) (c d : Crm) → AnyCalls py c d → IsConsistent c → IsConsistent d
AnyCalls-IsConsistent py c _ AnyCalls.none_yet k = k
AnyCalls-IsConsistent py c e (AnyCalls.one_more {d = d} call rest) k =
    AnyCalls-IsConsistent py d e rest (AnyCall-IsConsistent py c d call k)
