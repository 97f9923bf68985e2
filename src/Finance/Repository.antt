-- ===== src/Finance/Repository.antt =====
-- backend/app/modules/finance/repository.py, and the lookups of rows of other modules' tables by
-- identifier and tenant.
use coreops_platform.Base.{
  ℕ, ◌+◌, Bool, true, false, not, ◌&&◌, Option, List, ◌∷◌, ◌==◌, find?, filter, update_where,
  length, map,
}
use coreops_platform.Base.Int.{ℤ, sum}
use coreops_platform.Finance.Model.{
  InvoiceStatus, PaymentStatus, Invoice, Payment, Allocation, Reference, Books,
}

-- The status of a row of the receivables.
abbrev pub is_open : InvoiceStatus → Bool
is_open InvoiceStatus.issued = true
is_open InvoiceStatus.sent = true
is_open InvoiceStatus.partial = true
is_open InvoiceStatus.overdue = true
is_open InvoiceStatus.draft = false
is_open InvoiceStatus.paid = false
is_open InvoiceStatus.cancelled = false
is_open InvoiceStatus.void = false

-- `status in (DRAFT, CANCELLED, VOID)`
abbrev pub is_withheld : InvoiceStatus → Bool
is_withheld InvoiceStatus.draft = true
is_withheld InvoiceStatus.cancelled = true
is_withheld InvoiceStatus.void = true
is_withheld InvoiceStatus.issued = false
is_withheld InvoiceStatus.sent = false
is_withheld InvoiceStatus.partial = false
is_withheld InvoiceStatus.paid = false
is_withheld InvoiceStatus.overdue = false

abbrev pub is_completed : PaymentStatus → Bool
is_completed PaymentStatus.completed = true
is_completed PaymentStatus.pending = false
is_completed PaymentStatus.failed = false
is_completed PaymentStatus.refunded = false
is_completed PaymentStatus.cancelled = false

unfoldable pub next_invoice_number : Books → ℕ → ℕ → ℕ × ℕ
next_invoice_number b tenant_id year =
    (year, length (filter (λ (i : Invoice). i.tenant_id == tenant_id) b.invoices) + 1)

unfoldable pub next_payment_number : Books → ℕ → ℕ → ℕ × ℕ
next_payment_number b tenant_id year =
    (year, length (filter (λ (p : Payment). p.tenant_id == tenant_id) b.payments) + 1)

abbrev pub get_reference : List Reference → ℕ → ℕ → Option Reference
get_reference rows tenant_id id = find? (λ r. r.tenant_id == tenant_id && r.id == id) rows

unfoldable pub get_invoice : Books → ℕ → ℕ → Option Invoice
get_invoice b tenant_id invoice_id =
    find? (λ i. i.tenant_id == tenant_id && i.id == invoice_id) b.invoices

-- A change of a loaded row, written back by its primary key.
unfoldable pub save_invoice : Invoice → Books → Books
save_invoice i b = record b { invoices = update_where (λ x. x.id == i.id) (λ _. i) b.invoices }

unfoldable pub get_payment : Books → ℕ → ℕ → Option Payment
get_payment b tenant_id payment_id =
    find? (λ p. p.tenant_id == tenant_id && p.id == payment_id) b.payments

unfoldable pub save_payment : Payment → Books → Books
save_payment p b = record b { payments = update_where (λ x. x.id == p.id) (λ _. p) b.payments }

unfoldable pub create_allocation : Allocation → Books → Books
create_allocation a b = record b { allocations = a ∷ b.allocations }

abbrev pub is_allocation : ℕ → ℕ → ℕ → Allocation → Bool
is_allocation tenant_id payment_id invoice_id a =
    a.tenant_id == tenant_id && a.payment_id == payment_id && a.invoice_id == invoice_id

unfoldable pub get_allocation : Books → ℕ → ℕ → ℕ → Option Allocation
get_allocation b tenant_id payment_id invoice_id =
    find? (is_allocation tenant_id payment_id invoice_id) b.allocations

-- `order_by(due_date)` only orders the rows.
unfoldable pub list_receivable_invoices : Books → ℕ → List Invoice
list_receivable_invoices b tenant_id =
    filter (λ i. i.tenant_id == tenant_id && is_open i.status) b.invoices

-- `to_float` is Python's `float` of an amount.
unfoldable pub sum_invoiced : {F : Type 0} → (ℤ → F) → Books → ℕ → F
sum_invoiced to_float b tenant_id = to_float (
    sum (
      map (λ (i : Invoice). i.total)
        (filter (λ i. i.tenant_id == tenant_id && not (is_withheld i.status)) b.invoices)))

unfoldable pub sum_paid : {F : Type 0} → (ℤ → F) → Books → ℕ → F
sum_paid to_float b tenant_id = to_float (
    sum (
      map (λ (p : Payment). p.amount)
        (filter (λ p. p.tenant_id == tenant_id && is_completed p.status) b.payments)))
