-- ===== src/Finance/Collection.antt =====
-- When an invoice of backend/app/modules/finance/service.py is paid or overdue, and when it can be
-- withdrawn.
use coreops_platform.Base.{
  if◌then◌else◌, ℕ, ◌≡◌, ◌≢◌, refl, sym, ap, Bool, true, false, some, List, [], ◌∷◌, ok, >>=-eq-ok,
  raise_if, raise_if-eq-ok, ok_inj, Bool-cases, inl, inr, arith, All, All-Elem, All-map,
  find?-eq-some,
}
use coreops_platform.Base.Int.{ℤ, pos, ◌+ℤ◌, ltb_ℤ, leb_ℤ, ◌≤ℤ◌, ◌<ℤ◌, int_laws, leq_of_ltb}
use coreops_platform.Platform.{conflict}
use coreops_platform.Finance.Model.{
  InvoiceStatus, InvoiceChange, Invoice, Allocation, Books, Moment,
}
use coreops_platform.Finance.Repository.{get_invoice}
use coreops_platform.Finance.Invoices.{
  update_invoice, transition_if, transition_status, refresh_overdue_status, update_payment_status,
  is_past, is_withdrawn,
}
use coreops_platform.Finance.Payments.{receive}
use coreops_platform.Finance.Balance.Defs.{
  total_where, to_invoice, IsPaidUp, IsPositive, IsBalanced,
}
use coreops_platform.Finance.Balance.Operations.{update_invoice-eq-ok}

-- An invoice that receives an amount, and has been paid more than 0 with it, is paid if it has been
-- paid its total or more; otherwise it is overdue if its due date has passed, and partial if not.
pub receive_status :
    (today : ℕ) (amount : ℤ) (i : Invoice)
    → pos 0 <ℤ i.amount_paid +ℤ amount
    → (receive today amount i).status ≡ (
        if leb_ℤ i.total (i.amount_paid +ℤ amount)
        then InvoiceStatus.paid
        else if is_past i.due_date today
        then InvoiceStatus.overdue
        else InvoiceStatus.partial)
unfolding receive update_payment_status refresh_overdue_status
receive_status today amount i h =
    let new = i.amount_paid +ℤ amount in
    let positive : ltb_ℤ (pos 0) new ≡ true = ground arith in
    elim (Bool-cases (leb_ℤ i.total new)) [
      | inl t ↦ rw t refl
      | inr f ↦
          let l : ltb_ℤ new i.total ≡ true = ground arith in
          elim (Bool-cases (is_past i.due_date today)) [
            | inl p ↦ rw (f, positive, p, l) (rw (p, l) refl)
            | inr p ↦ rw (f, positive, p, p) refl
          ]
    ]

total_where-nonneg :
    (p : Allocation → Bool) (rows : List Allocation)
    → All (λ a. IsPositive a.amount) rows
    → pos 0 ≤ℤ total_where p rows
total_where-nonneg p [] h = omega arith
total_where-nonneg p (a ∷ rows) h = elim (Bool-cases (p a)) [
  | inl t ↦ rw t (omega (int_laws, total_where-nonneg p rows h.1, h.0))
  | inr f ↦ rw f (total_where-nonneg p rows h.1)
]

-- Positive amounts that come to 0 are none.
none_selected :
    (p : Allocation → Bool) (rows : List Allocation)
    → All (λ a. IsPositive a.amount) rows
    → total_where p rows ≤ℤ pos 0
    → All (λ a. p a ≡ false) rows
none_selected p [] h z = tt
none_selected p (a ∷ rows) h z = elim (Bool-cases (p a)) [
  | inl t ↦
      let s : a.amount +ℤ total_where p rows ≤ℤ pos 0 = rw t at z in
      absurd (omega (int_laws, total_where-nonneg p rows h.1, h.0, s))
  | inr f ↦ (f, none_selected p rows h.1 (rw f at z))
]

withdrawn_unpaid :
    (m : Moment) (i : Invoice) (s : InvoiceStatus) (j : Invoice)
    → is_withdrawn s ≡ true
    → transition_status m i s ≡ ok j
    → (i.amount_paid ≤ℤ pos 0) × (j.status ≡ s)
unfolding transition_status refresh_overdue_status
withdrawn_unpaid m i InvoiceStatus.cancelled j w h =
    let (u, g, e) = >>=-eq-ok (raise_if (ltb_ℤ (pos 0) i.amount_paid) conflict) _ h in
    (
      leq_of_ltb (pos 0) i.amount_paid (raise_if-eq-ok _ _ g),
      sym (ap (λ (x : Invoice). x.status) (ok_inj e)),
    )
withdrawn_unpaid m i InvoiceStatus.void j w h =
    let (u, g, e) = >>=-eq-ok (raise_if (ltb_ℤ (pos 0) i.amount_paid) conflict) _ h in
    (
      leq_of_ltb (pos 0) i.amount_paid (raise_if-eq-ok _ _ g),
      sym (ap (λ (x : Invoice). x.status) (ok_inj e)),
    )
withdrawn_unpaid m i InvoiceStatus.draft j w h = cc
withdrawn_unpaid m i InvoiceStatus.issued j w h = cc
withdrawn_unpaid m i InvoiceStatus.sent j w h = cc
withdrawn_unpaid m i InvoiceStatus.partial j w h = cc
withdrawn_unpaid m i InvoiceStatus.paid j w h = cc
withdrawn_unpaid m i InvoiceStatus.overdue j w h = cc

-- On balanced books, an update that cancels or voids an invoice returns only if no payment was
-- allocated to the invoice.
pub update_invoice_withdraws :
    (b : Books) (tenant_id : ℕ) (m : Moment) (invoice_id : ℕ) (payload : InvoiceChange)
    (s : InvoiceStatus) (i : Invoice) (next : Books)
    → IsBalanced b
    → payload.status ≡ some s
    → is_withdrawn s ≡ true
    → update_invoice b tenant_id m invoice_id payload ≡ ok (i, next)
    → All (λ (a : Allocation). a.invoice_id ≢ invoice_id) b.allocations
unfolding get_invoice transition_if
update_invoice_withdraws b tenant_id m invoice_id payload s i next h e w u =
    let (old, moved, f, t, ei, en) =
      update_invoice-eq-ok b tenant_id m invoice_id payload i next u in
    let (sel, mem) = find?-eq-some _ b.invoices old f in
    let unpaid = (withdrawn_unpaid m old s moved w (rw e at t)).0 in
    let paid = (All-Elem (IsPaidUp b.allocations) old b.invoices h.invoices.paid_up mem).0 in
    let none_to =
      none_selected (to_invoice old.id) b.allocations h.invoices.amounts (rw paid at unpaid) in
    All-map (λ a. to_invoice old.id a ≡ false) (λ (a : Allocation). a.invoice_id ≢ invoice_id)
      b.allocations (λ a n. ground (arith, sel, n)) none_to
