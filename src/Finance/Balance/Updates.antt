-- ===== src/Finance/Balance/Updates.antt =====
-- `update_invoice` of backend/app/modules/finance/service.py on balanced books.
use coreops_platform.Base.{
  ℕ, ◌≡◌, refl, sym, subst, true, false, some, ok, All-Elem, All-map, All-of_Elem, All-update_where,
  Pairwise-saved, find?-eq-some, ◌==◌,
}
use coreops_platform.Finance.Model.{Invoice, InvoiceChange, Books, Moment}
use coreops_platform.Finance.Repository.{get_invoice, save_invoice}
use coreops_platform.Finance.Invoices.{update_invoice, refresh_overdue_status, apply_change}
use coreops_platform.Finance.Balance.Defs.{IsPaidUp, IsBalanced}
use coreops_platform.Finance.Balance.Money.{
  KeepsMoney, KeepsMoney-trans, refresh_overdue_status-KeepsMoney, transition_if-KeepsMoney,
}
use coreops_platform.Finance.Balance.Operations.{update_invoice-eq-ok, kept-IsPaidUp}

changed : (payload : InvoiceChange) (i : Invoice) → KeepsMoney i (apply_change payload i)
changed payload i = record {
  id = refl;
  tenant_id = refl;
  subtotal = refl;
  total = refl;
  amount_paid = refl;
  lines = refl;
}

-- The invoice returned carries the amounts of the row that was found.
pub update_invoice-KeepsMoney :
    (b : Books) (tenant_id : ℕ) (m : Moment) (invoice_id : ℕ) (payload : InvoiceChange)
    (i : Invoice) (next : Books)
    → update_invoice b tenant_id m invoice_id payload ≡ ok (i, next)
    → (old : Invoice) × (get_invoice b tenant_id invoice_id ≡ some old)
      × KeepsMoney old i
      × (next ≡ save_invoice i b)
update_invoice-KeepsMoney b tenant_id m invoice_id payload i next h =
    let (old, moved, f, t, e, en) =
      update_invoice-eq-ok b tenant_id m invoice_id payload i next h in
    let new = apply_change payload moved in
    let k = refresh_overdue_status-KeepsMoney m.today new in
    let moves = transition_if-KeepsMoney m old payload.status moved t in
    (
      old,
      f,
      subst (KeepsMoney old) (sym e) (
          KeepsMoney-trans old moved (refresh_overdue_status m.today new) moves (
            KeepsMoney-trans moved new (refresh_overdue_status m.today new) (changed payload moved)
              k)),
      en,
    )

pub update_invoice-IsBalanced :
    (b : Books) (tenant_id : ℕ) (m : Moment) (invoice_id : ℕ) (payload : InvoiceChange)
    (i : Invoice) (next : Books)
    → IsBalanced b
    → update_invoice b tenant_id m invoice_id payload ≡ ok (i, next)
    → IsBalanced next
unfolding save_invoice get_invoice
update_invoice-IsBalanced b tenant_id m invoice_id payload i next h e =
    let (old, f, k, en) = update_invoice-KeepsMoney b tenant_id m invoice_id payload i next e in
    let found = (find?-eq-some _ b.invoices old f).1 in
    let paid : IsPaidUp b.allocations i =
      kept-IsPaidUp b.allocations old i k
        (All-Elem (IsPaidUp b.allocations) old b.invoices h.invoices.paid_up found) in
    subst IsBalanced (sym en) (record {
      invoices = record {
        invoice_ids = Pairwise-saved (λ (x : Invoice). x.id) i b.invoices h.invoices.invoice_ids;
        paid_up =
            All-update_where (IsPaidUp b.allocations) (λ x. x.id == i.id) (λ _. i) b.invoices
              (All-of_Elem (λ x. (x.id == i.id) ≡ true → IsPaidUp b.allocations i) b.invoices
                (λ x mx t. paid))
              (All-map (IsPaidUp b.allocations)
                (λ x. (x.id == i.id) ≡ false → IsPaidUp b.allocations x) b.invoices (λ x u t. u)
                h.invoices.paid_up);
        amounts = h.invoices.amounts;
        distinct = h.invoices.distinct;
      };
      payment_ids = h.payment_ids;
      spent = h.spent;
    })
