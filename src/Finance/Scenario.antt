-- ===== src/Finance/Scenario.antt =====
-- A tenant with one customer, whose invoice of two lines is paid in part: the data of the tests of
-- backend/app/modules/finance.
use coreops_platform.Base.{ℕ, none, some, List, [], ◌∷◌, true}
use coreops_platform.Base.Int.{ℤ, pos, ◌+ℤ◌, ◌-ℤ◌}
use coreops_platform.Platform.{
  Platform, Calendar, SubscriptionStatus, UsagePeriod, Subscription, UsageLimit,
}
use coreops_platform.Platform.Entitlements.{
  assert_within_limit, record_usage_event, get_active_for_tenant, get_plan_limit, sum_usage,
}
use coreops_platform.Finance.Model.{
  InvoiceStatus, PaymentStatus, PaymentMethod, PaymentDirection, InvoiceInput, Line, Invoice,
  PaymentInput, Payment, AllocationItem, Books, Moment,
}
use coreops_platform.Finance.Rounding.{line_total_of}
use coreops_platform.Finance.Repository.{
  next_invoice_number, next_payment_number, get_invoice, save_invoice, get_payment, save_payment,
  create_allocation, get_allocation, list_receivable_invoices, sum_invoiced, sum_paid,
}
use coreops_platform.Finance.Invoices.{
  refresh_overdue_status, issue_invoice, transition_status, update_payment_status, assert_reference,
  new_line, create_lines, issue_if, new_invoice, add_invoice, create_invoice, transition_if,
  update_invoice,
}
use coreops_platform.Finance.Payments.{
  direction_and_status, create_payment, receive, new_allocation, allocate_item, allocate_items,
  allocate_payment,
}
use coreops_platform.Finance.Reports.{receivable_of, receivables_of, list_receivables, get_summary}

-- All that a run of the operations computes through.
unfoldable pub finance_steps : Unit {0}
unfolding assert_within_limit record_usage_event get_active_for_tenant get_plan_limit sum_usage ◌+ℤ◌
    ◌-ℤ◌ line_total_of next_invoice_number next_payment_number get_invoice save_invoice get_payment
    save_payment create_allocation get_allocation list_receivable_invoices sum_invoiced sum_paid
    refresh_overdue_status issue_invoice transition_status update_payment_status assert_reference
    new_line create_lines issue_if new_invoice add_invoice create_invoice transition_if
    update_invoice direction_and_status create_payment receive new_allocation allocate_item
    allocate_items allocate_payment receivable_of receivables_of list_receivables get_summary
finance_steps = tt

abbrev pub plain_calendar : Calendar
plain_calendar = record { day_start = λ t. t; month_start = λ t. 0; year_start = λ t. 0 }

abbrev pub limit : UsageLimit
limit = record {
  plan_id = 5;
  limit_code = "finance.invoices";
  period = UsagePeriod.monthly;
  limit_value = 10;
}

abbrev pub subscription : Subscription
subscription = record { tenant_id = 1; plan_id = 5; status = SubscriptionStatus.active }

abbrev pub platform : Platform
platform = record {
  definitions = [];
  modules = [];
  subscriptions = subscription ∷ [];
  features = [];
  plan_features = [];
  usage_limits = limit ∷ [];
  usage_events = [];
}

abbrev pub empty_books : Books
empty_books = record {
  platform = platform;
  parties = record { id = 2; tenant_id = 1 } ∷ [];
  legal_entities = [];
  tax_profiles = [];
  catalog_items = record { id = 3; tenant_id = 1 } ∷ [];
  invoices = [];
  payments = [];
  allocations = [];
}

abbrev pub moment : ℕ → Moment
moment id = record { now = 50; utc_date = 7; today = 7; year = 2025; new_id = id }

-- 1.5 at 0.33, and 2 at 10.00.
abbrev pub invoice_input : InvoiceInput
invoice_input = record {
  party_id = 2;
  legal_entity_id = none;
  tax_profile_id = none;
  currency = "RUB";
  due_date = some 9;
  lines =
      record {
        catalog_item_id = some 3;
        description = "hours";
        quantity_digits = 15;
        quantity_scale = 1;
        unit_price = record { coefficient = pos 33; scale = 2 };
        sort_order = 0;
      }
      ∷ record {
        catalog_item_id = none;
        description = "visits";
        quantity_digits = 2;
        quantity_scale = 0;
        unit_price = record { coefficient = pos 1000; scale = 2 };
        sort_order = 0;
      }
      ∷ [];
  issue = true;
}

abbrev pub invoice_lines : List Line
invoice_lines =
    record {
      catalog_item_id = some 3;
      description = "hours";
      quantity_digits = 15;
      quantity_scale = 1;
      unit_price = record { coefficient = pos 33; scale = 2 };
      line_total = pos 50;
      sort_order = 0;
    }
    ∷ record {
      catalog_item_id = none;
      description = "visits";
      quantity_digits = 2;
      quantity_scale = 0;
      unit_price = record { coefficient = pos 1000; scale = 2 };
      line_total = pos 2000;
      sort_order = 10;
    }
    ∷ []

abbrev pub invoice : ℤ → InvoiceStatus → Invoice
invoice paid s = record {
  id = 100;
  tenant_id = 1;
  party_id = 2;
  legal_entity_id = none;
  tax_profile_id = none;
  invoice_number = (2025, 1);
  status = s;
  currency = "RUB";
  subtotal = pos 2050;
  tax_amount = pos 0;
  total = pos 2050;
  amount_paid = paid;
  issue_date = some 7;
  due_date = some 9;
  issued_at = some 50;
  lines = invoice_lines;
}

abbrev pub payment_input : PaymentInput
payment_input = record {
  party_id = some 2;
  amount = pos 5000;
  currency = "RUB";
  payment_date = 7;
  method = PaymentMethod.cash;
  status = PaymentStatus.completed;
  direction = PaymentDirection.incoming;
  legacy_payment_type = none;
}

abbrev pub payment : ℤ → Payment
payment allocated = record {
  id = 200;
  tenant_id = 1;
  party_id = some 2;
  payment_number = (2025, 1);
  amount = pos 5000;
  currency = "RUB";
  amount_allocated = allocated;
  payment_date = 7;
  method = PaymentMethod.cash;
  status = PaymentStatus.completed;
  direction = PaymentDirection.incoming;
}

-- The books with the issued invoice, with the payment, and with 20.00 of it allocated.
abbrev pub billed_books : Books
billed_books = record empty_books {
  platform = record_usage_event 1 "finance.invoices" 1 50 platform;
  invoices = invoice (pos 0) InvoiceStatus.issued ∷ [];
}

abbrev pub received_books : Books
received_books = record billed_books { payments = payment (pos 0) ∷ [] }

abbrev pub allocation_items : List AllocationItem
allocation_items = record { invoice_id = 100; amount = pos 2000 } ∷ []

abbrev pub allocated_books : Books
allocated_books = record received_books {
  invoices = invoice (pos 2000) InvoiceStatus.partial ∷ [];
  payments = payment (pos 2000) ∷ [];
  allocations =
      record { tenant_id = 1; payment_id = 200; invoice_id = 100; amount = pos 2000 } ∷ [];
}
