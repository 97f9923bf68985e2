-- ===== src/Finance/Balance/Runs.antt =====
-- Any run of the operations of backend/app/modules/finance/service.py, from balanced books.
use coreops_platform.Base.{ℕ, ◌≡◌, String, List, ok, All}
use coreops_platform.Platform.{Calendar}
use coreops_platform.Finance.Model.{
  Invoice, InvoiceInput, InvoiceChange, Payment, PaymentInput, AllocationItem, Books, Moment,
}
use coreops_platform.Finance.Invoices.{create_invoice, update_invoice}
use coreops_platform.Finance.Payments.{create_payment, allocate_payment}
use coreops_platform.Finance.Balance.Defs.{IsBalanced, IsFresh, IsPositive}
use coreops_platform.Finance.Balance.Spending.{allocate_payment-IsBalanced}
use coreops_platform.Finance.Balance.Operations.{
  create_invoice-IsBalanced, create_payment-IsBalanced,
}
use coreops_platform.Finance.Balance.Updates.{update_invoice-IsBalanced}

module _ (c : Calendar) (upper_stripped : String → String) where
  -- A call that returns; a call that raises is rolled back.
  pub data BooksStep : Books → Books → Type 0 where
    invoice_created :
        {b : Books} (tenant_id : ℕ) (m : Moment) (payload : InvoiceInput) {i : Invoice}
        {next : Books}
        → IsFresh m.new_id b
        → create_invoice c b tenant_id m payload ≡ ok (i, next)
        → BooksStep b next
    invoice_updated :
        {b : Books} (tenant_id : ℕ) (m : Moment) (invoice_id : ℕ) (payload : InvoiceChange)
        {i : Invoice} {next : Books}
        → update_invoice b tenant_id m invoice_id payload ≡ ok (i, next)
        → BooksStep b next
    payment_created :
        {b : Books} (tenant_id : ℕ) (m : Moment) (payload : PaymentInput) {p : Payment}
        {next : Books}
        → IsFresh m.new_id b
        → IsPositive payload.amount
        → create_payment upper_stripped b tenant_id m payload ≡ ok (p, next)
        → BooksStep b next
    payment_allocated :
        {b : Books} (tenant_id today payment_id : ℕ) (items : List AllocationItem) {p : Payment}
        {next : Books}
        → All (λ (item : AllocationItem). IsPositive item.amount) items
        → allocate_payment b tenant_id today payment_id items ≡ ok (p, next)
        → BooksStep b next

  pub data BooksRun : Books → Books → Type 0 where
    stop : {b : Books} → BooksRun b b
    next_call : {b mid next : Books} → BooksStep b mid → BooksRun mid next → BooksRun b next

  pub step-IsBalanced : {b next : Books} → BooksStep b next → IsBalanced b → IsBalanced next
  step-IsBalanced (invoice_created t m payload f e) h =
      create_invoice-IsBalanced c _ t m payload _ _ h f e
  step-IsBalanced (invoice_updated t m id payload e) h =
      update_invoice-IsBalanced _ t m id payload _ _ h e
  step-IsBalanced (payment_created t m payload f g e) h =
      create_payment-IsBalanced upper_stripped _ t m payload _ _ h f g e
  step-IsBalanced (payment_allocated t today id items g e) h =
      allocate_payment-IsBalanced _ t today id items _ _ h g e

  -- From balanced books, whatever invoices and payments are created, invoices updated and payments
  -- allocated, by whichever tenants and at whatever instants, the books are balanced afterwards: each
  -- invoice has been paid nothing, or the sum of its allocations and no more than its total, and each
  -- payment has spent the sum of its allocations and no more than its amount. New rows have fresh
  -- identifiers, and the amounts of new payments and allocations are more than 0.
  pub run-IsBalanced : {b next : Books} → BooksRun b next → IsBalanced b → IsBalanced next
  run-IsBalanced stop h = h
  run-IsBalanced (next_call s r) h = run-IsBalanced r (step-IsBalanced s h)
