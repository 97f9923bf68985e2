-- ===== src/Finance/Reports.antt =====
-- The receivables and the summary of backend/app/modules/finance/service.py.
use coreops_platform.Base.{
  ℕ, Bool, true, false, ◌&&◌, not, List, [], ◌∷◌, length, filter, map, if◌then◌else◌,
}
use coreops_platform.Base.Int.{ℤ, pos, ◌-ℤ◌, leb_ℤ, sum}
use coreops_platform.Finance.Model.{InvoiceStatus, Invoice, Receivable, Summary, Books}
use coreops_platform.Finance.Repository.{list_receivable_invoices, sum_invoiced, sum_paid}
use coreops_platform.Finance.Invoices.{is_past}

abbrev pub is_paid : InvoiceStatus → Bool
is_paid InvoiceStatus.paid = true
is_paid _ = false

unfoldable pub receivable_of : ℕ → Invoice → Receivable
receivable_of today i = record {
  invoice_id = i.id;
  status = i.status;
  total = i.total;
  amount_paid = i.amount_paid;
  balance_due = i.total -ℤ i.amount_paid;
  due_date = i.due_date;
  is_overdue = is_past i.due_date today && not (is_paid i.status);
}

-- The loop; `continue` skips a row without a balance.
unfoldable pub receivables_of : ℕ → List Invoice → List Receivable
unfolding receivable_of
receivables_of today [] = []
receivables_of today (i ∷ is) =
    let rest = receivables_of today is in
    if leb_ℤ (i.total -ℤ i.amount_paid) (pos 0) then rest else receivable_of today i ∷ rest

unfoldable pub list_receivables : Books → ℕ → ℕ → List Receivable
unfolding list_receivable_invoices receivables_of
list_receivables b tenant_id today = receivables_of today (list_receivable_invoices b tenant_id)

abbrev pub balance : Receivable → ℤ
balance r = r.balance_due

-- `to_float` is Python's `float` of an amount, and `decimal_of` is `Decimal(str(...))`.
unfoldable pub get_summary : {F : Type 0} → (ℤ → F) → (F → ℤ) → Books → ℕ → ℕ → Summary
unfolding list_receivables sum_invoiced sum_paid
get_summary to_float decimal_of b tenant_id today =
    let receivables = list_receivables b tenant_id today in
    let overdue = filter (λ (r : Receivable). r.is_overdue) receivables in
    record {
      total_invoiced = decimal_of (sum_invoiced to_float b tenant_id);
      total_paid = decimal_of (sum_paid to_float b tenant_id);
      total_outstanding = sum (map balance receivables);
      open_invoices_count = length receivables;
      overdue_invoices_count = length overdue;
      overdue_amount = sum (map balance overdue);
    }
