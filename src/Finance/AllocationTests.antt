-- ===== src/Finance/AllocationTests.antt =====
-- An allocation of the scenario that is accepted, and one that is refused.
use coreops_platform.Base.{◌≡◌, refl, false, some, [], ◌∷◌, ok, err, map}
use coreops_platform.Base.Int.{pos, ◌+ℤ◌, ◌-ℤ◌, ltb_ℤ, sum}
use coreops_platform.Platform.{conflict}
use coreops_platform.Finance.Model.{InvoiceStatus, Books}
use coreops_platform.Finance.Repository.{get_payment}
use coreops_platform.Finance.Payments.{allocate_payment, amount_of}
use coreops_platform.Finance.Balance.Items.{Passes}
use coreops_platform.Finance.Balance.Accepts.{allocate_payment_accepts}
use coreops_platform.Finance.Scenario.{
  finance_steps, invoice, payment, received_books, allocation_items, allocated_books,
}

payment_lem : get_payment received_books 1 200 ≡ some (payment (pos 0))
unfolding finance_steps
payment_lem = refl

enough_lem : ltb_ℤ (pos 5000 -ℤ pos 0) (sum (map amount_of allocation_items)) ≡ false
unfolding finance_steps
enough_lem = refl

passes_lem :
    Passes 1 200 received_books
      (record { invoice_id = 100; amount = pos 2000 })
      (invoice (pos 0) InvoiceStatus.issued)
unfolding finance_steps
passes_lem = record { found = refl; billed = refl; within = refl; first = refl }

allocate_payment_accepts_example :
    (next : Books) × (allocate_payment received_books 1 7 200 allocation_items
      ≡ ok (payment (pos 0 +ℤ sum (map amount_of allocation_items)), next))
allocate_payment_accepts_example =
    allocate_payment_accepts received_books 1 7 200 allocation_items (payment (pos 0)) payment_lem
      refl enough_lem ((invoice (pos 0) InvoiceStatus.issued, passes_lem), tt) (tt, tt)

-- A second allocation to the same invoice is refused.
again_lem :
    allocate_payment allocated_books 1 7 200 (record { invoice_id = 100; amount = pos 50 } ∷ [])
    ≡ err conflict
unfolding finance_steps
again_lem = refl
