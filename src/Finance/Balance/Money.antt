-- ===== src/Finance/Balance/Money.antt =====
-- The operations on one invoice keep its identifier, its total and what it has been paid; for
-- backend/app/modules/finance/service.py.
use coreops_platform.Base.{
  ℕ, ◌≡◌, refl, Option, none, some, Bool, true, false, ok, ◌&&◌, not, Bool-cases, inl, inr,
  >>=-eq-ok, raise_if, subst, ok_inj,
}
use coreops_platform.Base.Int.{ℤ, pos, ◌+ℤ◌, ltb_ℤ, leb_ℤ}
use coreops_platform.Platform.{conflict}
use coreops_platform.Finance.Model.{InvoiceStatus, Invoice, Moment}
use coreops_platform.Finance.Invoices.{
  refresh_overdue_status, issue_invoice, issue_if, transition_status, update_payment_status,
  transition_if, is_past, is_settled, is_draft, is_issued, is_withdrawn,
}
use coreops_platform.Finance.Payments.{receive}

pub record KeepsMoney (i j : Invoice) : Type 0 where
  pub id : j.id ≡ i.id
  pub tenant_id : j.tenant_id ≡ i.tenant_id
  pub subtotal : j.subtotal ≡ i.subtotal
  pub total : j.total ≡ i.total
  pub amount_paid : j.amount_paid ≡ i.amount_paid
  pub lines : j.lines ≡ i.lines

-- A change of the status alone.
abbrev kept : (i : Invoice) (s : InvoiceStatus) → KeepsMoney i (record i { status = s })
kept i s = record {
  id = refl;
  tenant_id = refl;
  subtotal = refl;
  total = refl;
  amount_paid = refl;
  lines = refl;
}

pub KeepsMoney-trans : (i j k : Invoice) → KeepsMoney i j → KeepsMoney j k → KeepsMoney i k
KeepsMoney-trans i j k h g = record {
  id = cc;
  tenant_id = cc;
  subtotal = cc;
  total = cc;
  amount_paid = cc;
  lines = cc;
}

pub refresh_overdue_status-KeepsMoney :
    (today : ℕ) (i : Invoice) → KeepsMoney i (refresh_overdue_status today i)
unfolding refresh_overdue_status
refresh_overdue_status-KeepsMoney today i = elim (Bool-cases (is_settled i.status)) [
  | inl s ↦ rw s (kept i i.status)
  | inr s ↦ rw s (elim (Bool-cases (is_past i.due_date today)) [
    | inl p ↦ rw p (elim (Bool-cases (ltb_ℤ i.amount_paid i.total)) [
      | inl l ↦ rw l (kept i InvoiceStatus.overdue)
      | inr l ↦ rw l (kept i i.status)
    ])
    | inr p ↦ rw p (kept i i.status)
  ])
]

pub update_payment_status-KeepsMoney :
    (today : ℕ) (i : Invoice) → KeepsMoney i (update_payment_status today i)
unfolding update_payment_status
update_payment_status-KeepsMoney today i = elim (Bool-cases (leb_ℤ i.total i.amount_paid)) [
  | inl l ↦ rw l (refreshed InvoiceStatus.paid)
  | inr l ↦ rw l (elim (Bool-cases (ltb_ℤ (pos 0) i.amount_paid)) [
    | inl z ↦ rw z (refreshed InvoiceStatus.partial)
    | inr z ↦ rw z (refreshed i.status)
  ])
]
  where
    refreshed :
        (s : InvoiceStatus) → KeepsMoney i (refresh_overdue_status today (record i { status = s }))
    refreshed s =
        KeepsMoney-trans i (record i { status = s })
          (refresh_overdue_status today (record i { status = s })) (kept i s)
          (refresh_overdue_status-KeepsMoney today (record i { status = s }))

-- An invoice that receives an amount.
pub receive-KeepsMoney :
    (today : ℕ) (amount : ℤ) (i : Invoice)
    → KeepsMoney (record i { amount_paid = i.amount_paid +ℤ amount }) (receive today amount i)
unfolding receive
receive-KeepsMoney today amount i =
    let paid : Invoice = record i { amount_paid = i.amount_paid +ℤ amount } in
    let updated = update_payment_status today paid in
    KeepsMoney-trans paid updated (refresh_overdue_status today updated)
      (update_payment_status-KeepsMoney today paid)
      (refresh_overdue_status-KeepsMoney today updated)

pub issue_invoice-KeepsMoney :
    (m : Moment) (i j : Invoice) → issue_invoice m i ≡ ok j → KeepsMoney i j
unfolding issue_invoice
issue_invoice-KeepsMoney m i j h =
    let (u, g, e) = >>=-eq-ok (raise_if (not (is_draft i.status)) conflict) _ h in
    let issued : Invoice = record i {
      status = InvoiceStatus.issued;
      issue_date = some m.utc_date;
      issued_at = some m.now;
    } in
    let k : KeepsMoney issued (refresh_overdue_status m.today issued) =
      refresh_overdue_status-KeepsMoney m.today issued in
    subst (KeepsMoney i) (ok_inj e) (record {
      id = k.id;
      tenant_id = k.tenant_id;
      subtotal = k.subtotal;
      total = k.total;
      amount_paid = k.amount_paid;
      lines = k.lines;
    })

pub issue_if-KeepsMoney :
    (b : Bool) (m : Moment) (i j : Invoice) → issue_if b m i ≡ ok j → KeepsMoney i j
unfolding issue_if
issue_if-KeepsMoney true m i j h = issue_invoice-KeepsMoney m i j h
issue_if-KeepsMoney false m i j h = subst (KeepsMoney i) (ok_inj h) (kept i i.status)

pub transition_status-KeepsMoney :
    (m : Moment) (i : Invoice) (s : InvoiceStatus) (j : Invoice)
    → transition_status m i s ≡ ok j
    → KeepsMoney i j
unfolding transition_status
transition_status-KeepsMoney m i s j h = elim (Bool-cases (is_issued s && is_draft i.status)) [
  | inl t ↦ issue_invoice-KeepsMoney m i j (rw t at h)
  | inr f ↦
      let (u, g, e) =
        >>=-eq-ok (raise_if (is_withdrawn s && ltb_ℤ (pos 0) i.amount_paid) conflict) _
          (rw f at h) in
      subst (KeepsMoney i) (ok_inj e) (
        KeepsMoney-trans i (record i { status = s })
          (refresh_overdue_status m.today (record i { status = s })) (kept i s)
          (refresh_overdue_status-KeepsMoney m.today (record i { status = s })))
]

pub transition_if-KeepsMoney :
    (m : Moment) (i : Invoice) (s : Option InvoiceStatus) (j : Invoice)
    → transition_if m i s ≡ ok j
    → KeepsMoney i j
unfolding transition_if
transition_if-KeepsMoney m i none j h = subst (KeepsMoney i) (ok_inj h) (kept i i.status)
transition_if-KeepsMoney m i (some s) j h = transition_status-KeepsMoney m i s j h
