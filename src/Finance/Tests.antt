-- ===== src/Finance/Tests.antt =====
-- Runs of the finance operations on the scenario.
use coreops_platform.Base.{
  ℕ, if◌then◌else◌, ◌*◌, ◌≤◌, ◌≡◌, ◌≢◌, ◌↔◌, refl, true, none, some, [], ◌∷◌, map, ok, err, arith,
  All, Elem, Pointwise,
}
use coreops_platform.Base.Int.{ℤ, leb_ℤ, pos, ◌+ℤ◌, ◌≤ℤ◌, sum, int_laws}
use coreops_platform.Platform.{conflict}
use coreops_platform.Platform.Entitlements.{
  get_active_for_tenant, get_plan_limit, assert_within_limit, sum_usage, record_usage_event,
  period_start,
}
use coreops_platform.Platform.Usage.{assert_within_limit_keeps}
use coreops_platform.Finance.Model.{
  LineInput, InvoiceStatus, InvoiceChange, Invoice, Allocation, Books, Receivable,
}
use coreops_platform.Finance.Rounding.{round_half_even, signed, IsNearest}
use coreops_platform.Finance.Invoices.{new_line, create_invoice, update_invoice, is_past}
use coreops_platform.Finance.Payments.{create_payment, allocate_payment, receive}
use coreops_platform.Finance.Reports.{receivable_of, list_receivables, get_summary}
use coreops_platform.Finance.Balance.Defs.{IsBalanced, IsFresh}
use coreops_platform.Finance.Balance.Runs.{
  invoice_created, payment_created, payment_allocated, BooksRun, stop, next_call, step-IsBalanced,
  run-IsBalanced,
}
use coreops_platform.Finance.Billing.{Bills, total_of, create_invoice_totals, new_line-IsNearest}
use coreops_platform.Finance.Collection.{receive_status, update_invoice_withdraws}
use coreops_platform.Finance.Receivables.{IsReceivable, list_receivables_iff, get_summary_bounds}
use coreops_platform.Finance.Scenario.{
  finance_steps, plain_calendar, limit, subscription, platform, empty_books, moment, invoice_input,
  invoice_lines, invoice, payment_input, payment, billed_books, received_books, allocation_items,
  allocated_books,
}

create_invoice_lem :
    create_invoice plain_calendar empty_books 1 (moment 100) invoice_input
    ≡ ok (invoice (pos 0) InvoiceStatus.issued, billed_books)
unfolding finance_steps
create_invoice_lem = refl

create_payment_lem :
    create_payment (λ s. s) billed_books 1 (moment 200) payment_input
    ≡ ok (payment (pos 0), received_books)
unfolding finance_steps
create_payment_lem = refl

allocate_payment_lem :
    allocate_payment received_books 1 7 200 allocation_items
    ≡ ok (payment (pos 2000), allocated_books)
unfolding finance_steps
allocate_payment_lem = refl

empty_books-IsBalanced : IsBalanced empty_books
empty_books-IsBalanced = record {
  invoices = record { invoice_ids = tt; paid_up = tt; amounts = tt; distinct = tt };
  payment_ids = tt;
  spent = tt;
}

empty_books-IsFresh : IsFresh 100 empty_books
empty_books-IsFresh = record {
  no_invoice = tt;
  no_payment = tt;
  not_paid_to = tt;
  not_paid_from = tt;
}

billed_books-IsFresh : IsFresh 200 billed_books
billed_books-IsFresh = record {
  no_invoice = (omega arith, tt);
  no_payment = tt;
  not_paid_to = tt;
  not_paid_from = tt;
}

abbrev first_run : BooksRun plain_calendar (λ s. s) empty_books allocated_books
first_run =
    next_call (invoice_created 1 (moment 100) invoice_input empty_books-IsFresh create_invoice_lem)
      (next_call
        (payment_created 1 (moment 200) payment_input billed_books-IsFresh (omega arith)
          create_payment_lem)
        (next_call
          (payment_allocated 1 7 200 allocation_items (omega arith, tt) allocate_payment_lem) stop))

run-IsBalanced_example : IsBalanced allocated_books
run-IsBalanced_example = run-IsBalanced plain_calendar (λ s. s) first_run empty_books-IsBalanced

create_invoice_totals_example :
    Pointwise Bills invoice_input.lines invoice_lines
    × (pos 2050 ≡ sum (map total_of invoice_lines))
    × (pos 2050 ≡ pos 2050)
    × (pos 0 ≡ pos 0)
    × (billed_books.invoices ≡ invoice (pos 0) InvoiceStatus.issued ∷ [])
create_invoice_totals_example =
    create_invoice_totals plain_calendar empty_books 1 (moment 100) invoice_input
      (invoice (pos 0) InvoiceStatus.issued) billed_books create_invoice_lem

found_lem : get_active_for_tenant platform 1 ≡ some subscription
unfolding finance_steps
found_lem = refl

limit_lem : get_plan_limit platform 5 "finance.invoices" ≡ some limit
unfolding finance_steps
limit_lem = refl

within_lem : assert_within_limit plain_calendar platform 1 "finance.invoices" 10 50 ≡ ok tt
unfolding finance_steps
within_lem = refl

assert_within_limit_keeps_example :
    sum_usage
      (record_usage_event 1 "finance.invoices" 10 50 platform)
      1
      "finance.invoices"
      (period_start plain_calendar limit.period 50)
    ≤ 10
assert_within_limit_keeps_example =
    assert_within_limit_keeps plain_calendar platform 1 "finance.invoices" 10 50 subscription limit
      found_lem limit_lem within_lem

-- A second invoice, which is cancelled.
abbrev second : InvoiceStatus → Invoice
second s = record (invoice (pos 0) s) { id = 101; invoice_number = (2025, 2) }

abbrev two_books : Books
two_books = record allocated_books {
  platform = record_usage_event 1 "finance.invoices" 1 50 allocated_books.platform;
  invoices = second InvoiceStatus.issued ∷ allocated_books.invoices;
}

second_lem :
    create_invoice plain_calendar allocated_books 1 (moment 101) invoice_input
    ≡ ok (second InvoiceStatus.issued, two_books)
unfolding finance_steps
second_lem = refl

allocated_books-IsFresh : IsFresh 101 allocated_books
allocated_books-IsFresh = record {
  no_invoice = (omega arith, tt);
  no_payment = (omega arith, tt);
  not_paid_to = (omega arith, tt);
  not_paid_from = (omega arith, tt);
}

two_books-IsBalanced : IsBalanced two_books
two_books-IsBalanced =
    step-IsBalanced plain_calendar (λ s. s)
      (invoice_created 1 (moment 101) invoice_input allocated_books-IsFresh second_lem)
      (run-IsBalanced plain_calendar (λ s. s) first_run empty_books-IsBalanced)

abbrev withdrawal : InvoiceChange
withdrawal = record {
  status = some InvoiceStatus.cancelled;
  due_date = none;
  legal_entity_id = none;
  tax_profile_id = none;
}

withdrawal_lem :
    update_invoice two_books 1 (moment 0) 101 withdrawal
    ≡ ok (
      second InvoiceStatus.cancelled,
      record two_books { invoices = second InvoiceStatus.cancelled ∷ allocated_books.invoices },
    )
unfolding finance_steps
withdrawal_lem = refl

update_invoice_withdraws_example :
    All (λ (a : Allocation). a.invoice_id ≢ 101) allocated_books.allocations
update_invoice_withdraws_example =
    update_invoice_withdraws two_books 1 (moment 0) 101 withdrawal InvoiceStatus.cancelled
      (second InvoiceStatus.cancelled)
      (record two_books { invoices = second InvoiceStatus.cancelled ∷ allocated_books.invoices })
      two_books-IsBalanced refl refl withdrawal_lem

-- The invoice that is paid in part cannot be cancelled.
refused_lem : update_invoice two_books 1 (moment 0) 100 withdrawal ≡ err conflict
unfolding finance_steps
refused_lem = refl

receive_status_example : (receive 7 (pos 2000) (invoice (pos 0) InvoiceStatus.sent)).status ≡ (
    if leb_ℤ (pos 2050) (pos 0 +ℤ pos 2000)
    then InvoiceStatus.paid
    else if is_past (some 9) 7
    then InvoiceStatus.overdue
    else InvoiceStatus.partial)
receive_status_example =
    receive_status 7 (pos 2000) (invoice (pos 0) InvoiceStatus.sent) (omega int_laws)

abbrev the_receivable : Receivable
the_receivable = record {
  invoice_id = 100;
  status = InvoiceStatus.partial;
  total = pos 2050;
  amount_paid = pos 2000;
  balance_due = pos 50;
  due_date = some 9;
  is_overdue = true;
}

receivables_lem : list_receivables allocated_books 1 10 ≡ the_receivable ∷ []
unfolding finance_steps
receivables_lem = refl

list_receivables_iff_example : Elem the_receivable (list_receivables allocated_books 1 10) ↔ (
    (i : Invoice) × Elem i allocated_books.invoices
    × IsReceivable 1 i
    × (the_receivable ≡ receivable_of 10 i))
list_receivables_iff_example = list_receivables_iff allocated_books 1 10 the_receivable

-- A float that holds every amount.
abbrev exact : ℤ → ℤ
exact amount = amount

get_summary_bounds_example :
    ((get_summary exact exact allocated_books 1 10).overdue_amount
      ≤ℤ (get_summary exact exact allocated_books 1 10).total_outstanding)
    × ((get_summary exact exact allocated_books 1 10).overdue_invoices_count
        ≤ (get_summary exact exact allocated_books 1 10).open_invoices_count)
    × (pos 0 ≤ℤ (get_summary exact exact allocated_books 1 10).total_outstanding)
get_summary_bounds_example = get_summary_bounds exact exact allocated_books 1 10

-- 24.5 and 25.5 go to the even number.
rounds_lem : (round_half_even 49 2 ≡ 24) × (round_half_even 51 2 ≡ 26)
unfolding round_half_even
rounds_lem = (refl, refl)

-- 0.49 of 0.50 each is 0.245: half-way, and 24 hundredths.
abbrev half_cent : LineInput
half_cent = record {
  catalog_item_id = none;
  description = "Wire, by the metre";
  quantity_digits = 49;
  quantity_scale = 2;
  unit_price = record { coefficient = pos 50; scale = 2 };
  sort_order = 0;
}

half_cent_lem : (new_line 0 half_cent).line_total ≡ pos 24
unfolding new_line round_half_even
half_cent_lem = refl

new_line-IsNearest_example :
    (m : ℕ) × ((new_line 0 half_cent).line_total ≡ signed (pos 50) m) × IsNearest (50 * 49) 4 m
new_line-IsNearest_example = new_line-IsNearest 0 half_cent
