-- ===== src/Finance/Model.antt =====
-- The data of finance: backend/app/modules/finance/models.py, schemas.py and the statuses of
-- backend/app/core/enums.py. Money is in hundredths, a date is a number of days.
use coreops_platform.Base.{ℕ, Bool, Option, List, String}
use coreops_platform.Base.Int.{ℤ}
use coreops_platform.Platform.{Platform}

pub data InvoiceStatus : Type 0 where
  draft issued sent partial paid overdue cancelled void : InvoiceStatus

pub data PaymentStatus : Type 0 where
  pending completed failed refunded cancelled : PaymentStatus

pub data PaymentMethod : Type 0 where
  bank_transfer cash card online other : PaymentMethod

pub data PaymentDirection : Type 0 where
  incoming outgoing needs_review : PaymentDirection

-- A `Decimal`: the coefficient over a power of ten.
pub record Decimal : Type 0 where
  pub coefficient : ℤ
  pub scale : ℕ

-- `InvoiceLineCreate`; a quantity is more than 0.
pub record LineInput : Type 0 where
  pub catalog_item_id : Option ℕ
  pub description : String
  pub quantity_digits : ℕ
  pub quantity_scale : ℕ
  pub unit_price : Decimal
  pub sort_order : ℕ

-- `InvoiceCreate`
pub record InvoiceInput : Type 0 where
  pub party_id : ℕ
  pub legal_entity_id : Option ℕ
  pub tax_profile_id : Option ℕ
  pub currency : String
  pub due_date : Option ℕ
  pub lines : List LineInput
  pub issue : Bool

-- `InvoiceUpdate`
pub record InvoiceChange : Type 0 where
  pub status : Option InvoiceStatus
  pub due_date : Option ℕ
  pub legal_entity_id : Option ℕ
  pub tax_profile_id : Option ℕ

-- `InvoiceLine`
pub record Line : Type 0 where
  pub catalog_item_id : Option ℕ
  pub description : String
  pub quantity_digits : ℕ
  pub quantity_scale : ℕ
  pub unit_price : Decimal
  pub line_total : ℤ
  pub sort_order : ℕ

-- `Invoice`; the number is the year and the sequence number that `INV-{year}-{count:05d}` prints.
pub record Invoice : Type 0 where
  pub id : ℕ
  pub tenant_id : ℕ
  pub party_id : ℕ
  pub legal_entity_id : Option ℕ
  pub tax_profile_id : Option ℕ
  pub invoice_number : ℕ × ℕ
  pub status : InvoiceStatus
  pub currency : String
  pub subtotal : ℤ
  pub tax_amount : ℤ
  pub total : ℤ
  pub amount_paid : ℤ
  pub issue_date : Option ℕ
  pub due_date : Option ℕ
  pub issued_at : Option ℕ
  pub lines : List Line

-- `PaymentCreate`
pub record PaymentInput : Type 0 where
  pub party_id : Option ℕ
  pub amount : ℤ
  pub currency : String
  pub payment_date : ℕ
  pub method : PaymentMethod
  pub status : PaymentStatus
  pub direction : PaymentDirection
  pub legacy_payment_type : Option String

-- `Payment`
pub record Payment : Type 0 where
  pub id : ℕ
  pub tenant_id : ℕ
  pub party_id : Option ℕ
  pub payment_number : ℕ × ℕ
  pub amount : ℤ
  pub currency : String
  pub amount_allocated : ℤ
  pub payment_date : ℕ
  pub method : PaymentMethod
  pub status : PaymentStatus
  pub direction : PaymentDirection

-- `PaymentAllocationItem`
pub record AllocationItem : Type 0 where
  pub invoice_id : ℕ
  pub amount : ℤ

-- `PaymentAllocation`
pub record Allocation : Type 0 where
  pub tenant_id : ℕ
  pub payment_id : ℕ
  pub invoice_id : ℕ
  pub amount : ℤ

-- A row of another module's table, of which only the identifier and the tenant are read.
pub record Reference : Type 0 where
  pub id : ℕ
  pub tenant_id : ℕ

-- The tables. A new row is put first.
pub record Books : Type 0 where
  pub platform : Platform
  pub parties : List Reference
  pub legal_entities : List Reference
  pub tax_profiles : List Reference
  pub catalog_items : List Reference
  pub invoices : List Invoice
  pub payments : List Payment
  pub allocations : List Allocation

-- What a call takes from its surroundings: the instant, its date in UTC, the local date of today and
-- its year, and the identifier of the row that it creates.
pub record Moment : Type 0 where
  pub now : ℕ
  pub utc_date : ℕ
  pub today : ℕ
  pub year : ℕ
  pub new_id : ℕ

-- `ReceivableResponse`
pub record Receivable : Type 0 where
  pub invoice_id : ℕ
  pub status : InvoiceStatus
  pub total : ℤ
  pub amount_paid : ℤ
  pub balance_due : ℤ
  pub due_date : Option ℕ
  pub is_overdue : Bool

-- `FinanceSummaryResponse`
pub record Summary : Type 0 where
  pub total_invoiced : ℤ
  pub total_paid : ℤ
  pub total_outstanding : ℤ
  pub open_invoices_count : ℕ
  pub overdue_invoices_count : ℕ
  pub overdue_amount : ℤ
