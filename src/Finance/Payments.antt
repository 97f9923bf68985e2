-- ===== src/Finance/Payments.antt =====
-- The payments of backend/app/modules/finance/service.py, and `map_legacy_payment_type` of
-- schemas.py.
use coreops_platform.Base.{
  ℕ, Bool, true, false, Option, none, some, String, List, [], ◌∷◌, Result, ok, ◌>>=◌, ◌>>◌,
  raise_if, or_raise, not, is_some, str_eq, map, if◌then◌else◌,
}
use coreops_platform.Base.Int.{ℤ, pos, ◌+ℤ◌, ◌-ℤ◌, ltb_ℤ, sum}
use coreops_platform.Platform.{CoreError, not_found, conflict}
use coreops_platform.Finance.Model.{
  PaymentStatus, PaymentDirection, PaymentInput, Payment, AllocationItem, Allocation, Invoice,
  Books, Moment,
}
use coreops_platform.Finance.Repository.{
  next_payment_number, get_invoice, save_invoice, get_payment, save_payment, create_allocation,
  get_allocation, is_withheld, is_completed,
}
use coreops_platform.Finance.Invoices.{
  update_payment_status, refresh_overdue_status, assert_reference,
}

-- A type in upper case and without spaces around it.
unfoldable pub map_normalized : String → PaymentDirection × PaymentStatus × Bool
map_normalized normalized =
    if str_eq normalized "INCOME"
    then (PaymentDirection.incoming, PaymentStatus.completed, false)
    else if str_eq normalized "EXPENSE"
    then (PaymentDirection.outgoing, PaymentStatus.completed, false)
    else (PaymentDirection.needs_review, PaymentStatus.pending, true)

-- `upper_stripped` is `value.strip().upper()`.
unfoldable pub map_legacy_payment_type :
    (String → String) → Option String → PaymentDirection × PaymentStatus × Bool
unfolding map_normalized
map_legacy_payment_type upper_stripped none =
    (PaymentDirection.needs_review, PaymentStatus.pending, true)
map_legacy_payment_type upper_stripped (some value) = map_normalized (upper_stripped value)

-- The direction and the status of a new payment.
unfoldable pub direction_and_status :
    (String → String) → PaymentInput → PaymentDirection × PaymentStatus
unfolding map_legacy_payment_type
direction_and_status upper_stripped payload = elim payload.legacy_payment_type [
  | none ↦ (payload.direction, payload.status)
  | some value ↦
      let (direction, status, needs_review) = map_legacy_payment_type upper_stripped (some value) in
      (direction, status)
]

unfoldable pub create_payment :
    (String → String) → Books → ℕ → Moment → PaymentInput → Result CoreError (Payment × Books)
unfolding assert_reference direction_and_status next_payment_number
create_payment upper_stripped b tenant_id m payload = do
  assert_reference b.parties tenant_id payload.party_id
  let mapped = direction_and_status upper_stripped payload
  let payment : Payment = record {
    id = m.new_id;
    tenant_id = tenant_id;
    party_id = payload.party_id;
    payment_number = next_payment_number b tenant_id m.year;
    amount = payload.amount;
    currency = payload.currency;
    amount_allocated = pos 0;
    payment_date = payload.payment_date;
    method = payload.method;
    status = mapped.1;
    direction = mapped.0;
  }
  ok (payment, record b { payments = payment ∷ b.payments })

-- The invoice after an amount has been allocated to it.
unfoldable pub receive : ℕ → ℤ → Invoice → Invoice
unfolding update_payment_status refresh_overdue_status
receive today amount i =
    refresh_overdue_status today
      (update_payment_status today (record i { amount_paid = i.amount_paid +ℤ amount }))

unfoldable pub new_allocation : ℕ → ℕ → ℕ → ℤ → Allocation
new_allocation tenant_id payment_id invoice_id amount = record {
  tenant_id = tenant_id;
  payment_id = payment_id;
  invoice_id = invoice_id;
  amount = amount;
}

-- One round of the loop.
unfoldable pub allocate_item : ℕ → ℕ → ℕ → Books → AllocationItem → Result CoreError Books
unfolding get_invoice get_allocation create_allocation receive save_invoice new_allocation
allocate_item tenant_id today payment_id b item = do
  i ← or_raise (get_invoice b tenant_id item.invoice_id) not_found
  raise_if (is_withheld i.status) conflict
  raise_if (ltb_ℤ (i.total -ℤ i.amount_paid) item.amount) conflict
  raise_if (is_some (get_allocation b tenant_id payment_id i.id)) conflict
  ok (
      save_invoice (receive today item.amount i)
        (create_allocation (new_allocation tenant_id payment_id i.id item.amount) b))

unfoldable pub allocate_items : ℕ → ℕ → ℕ → Books → List AllocationItem → Result CoreError Books
unfolding allocate_item
allocate_items tenant_id today payment_id b [] = ok b
allocate_items tenant_id today payment_id b (item ∷ items) =
    allocate_item tenant_id today payment_id b item >>= λ next.
    allocate_items tenant_id today payment_id next items

abbrev pub amount_of : AllocationItem → ℤ
amount_of item = item.amount

unfoldable pub allocate_payment :
    Books → ℕ → ℕ → ℕ → List AllocationItem → Result CoreError (Payment × Books)
unfolding get_payment allocate_items save_payment
allocate_payment b tenant_id today payment_id items = do
  p ← or_raise (get_payment b tenant_id payment_id) not_found
  raise_if (not (is_completed p.status)) conflict
  let total_new = sum (map amount_of items)
  raise_if (ltb_ℤ (p.amount -ℤ p.amount_allocated) total_new) conflict
  allocated ← allocate_items tenant_id today p.id b items
  let paid : Payment = record p { amount_allocated = p.amount_allocated +ℤ total_new }
  ok (paid, save_payment paid allocated)
