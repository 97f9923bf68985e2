-- ===== src/Finance/Invoices.antt =====
-- The invoices of backend/app/modules/finance/service.py. A call returns the row and the tables; a
-- call that raises is rolled back by its caller.
use coreops_platform.Base.{
  ℕ, suc, ◌*◌, Bool, true, false, Option, none, some, List, [], ◌∷◌, Result, ok, ◌>>=◌, ◌>>◌,
  raise_if, or_raise, ltb, ◌==◌, ◌&&◌, not, if◌then◌else◌,
}
use coreops_platform.Base.Int.{ℤ, pos, ◌+ℤ◌, ltb_ℤ, leb_ℤ}
use coreops_platform.Platform.{CoreError, not_found, conflict, Calendar}
use coreops_platform.Platform.Entitlements.{assert_within_limit, record_usage_event}
use coreops_platform.Finance.Model.{
  InvoiceStatus, LineInput, InvoiceInput, InvoiceChange, Line, Invoice, Reference, Books, Moment,
}
use coreops_platform.Finance.Rounding.{line_total_of}
use coreops_platform.Finance.Repository.{
  next_invoice_number, get_reference, get_invoice, save_invoice,
}

-- `due_date and due_date < today`
abbrev pub is_past : Option ℕ → ℕ → Bool
is_past none today = false
is_past (some d) today = ltb d today

abbrev pub is_settled : InvoiceStatus → Bool
is_settled InvoiceStatus.paid = true
is_settled InvoiceStatus.cancelled = true
is_settled InvoiceStatus.void = true
is_settled InvoiceStatus.draft = true
is_settled InvoiceStatus.issued = false
is_settled InvoiceStatus.sent = false
is_settled InvoiceStatus.partial = false
is_settled InvoiceStatus.overdue = false

unfoldable pub refresh_overdue_status : ℕ → Invoice → Invoice
refresh_overdue_status today i =
    if is_settled i.status
    then i
    else if is_past i.due_date today
    then if ltb_ℤ i.amount_paid i.total then record i { status = InvoiceStatus.overdue } else i
    else i

abbrev pub is_draft : InvoiceStatus → Bool
is_draft InvoiceStatus.draft = true
is_draft _ = false

unfoldable pub issue_invoice : Moment → Invoice → Result CoreError Invoice
unfolding refresh_overdue_status
issue_invoice m i = do
  raise_if (not (is_draft i.status)) conflict
  ok (
      refresh_overdue_status m.today (record i {
        status = InvoiceStatus.issued;
        issue_date = some m.utc_date;
        issued_at = some m.now;
      }))

abbrev pub is_withdrawn : InvoiceStatus → Bool
is_withdrawn InvoiceStatus.cancelled = true
is_withdrawn InvoiceStatus.void = true
is_withdrawn _ = false

abbrev pub is_issued : InvoiceStatus → Bool
is_issued InvoiceStatus.issued = true
is_issued _ = false

unfoldable pub transition_status : Moment → Invoice → InvoiceStatus → Result CoreError Invoice
unfolding issue_invoice refresh_overdue_status
transition_status m i new_status =
    if is_issued new_status && is_draft i.status
    then issue_invoice m i
    else raise_if (is_withdrawn new_status && ltb_ℤ (pos 0) i.amount_paid) conflict
      >> ok (refresh_overdue_status m.today (record i { status = new_status }))

unfoldable pub update_payment_status : ℕ → Invoice → Invoice
unfolding refresh_overdue_status
update_payment_status today i = refresh_overdue_status today (
    if leb_ℤ i.total i.amount_paid
    then record i { status = InvoiceStatus.paid }
    else if ltb_ℤ (pos 0) i.amount_paid
    then record i { status = InvoiceStatus.partial }
    else i)

-- A reference that is given has to be a row of the tenant.
unfoldable pub assert_reference : List Reference → ℕ → Option ℕ → Result CoreError (Unit {0})
assert_reference rows tenant_id none = ok tt
assert_reference rows tenant_id (some id) = do
  row ← or_raise (get_reference rows tenant_id id) not_found
  ok tt

unfoldable pub new_line : ℕ → LineInput → Line
unfolding line_total_of
new_line index l = record {
  catalog_item_id = l.catalog_item_id;
  description = l.description;
  quantity_digits = l.quantity_digits;
  quantity_scale = l.quantity_scale;
  unit_price = l.unit_price;
  line_total = line_total_of l.quantity_digits l.quantity_scale l.unit_price;
  sort_order = if l.sort_order == 0 then index * 10 else l.sort_order;
}

-- The lines from an index on, and the subtotal so far.
unfoldable pub create_lines : Books → ℕ → ℕ → List LineInput → ℤ → Result CoreError (List Line × ℤ)
unfolding assert_reference new_line
create_lines b tenant_id index [] subtotal = ok ([], subtotal)
create_lines b tenant_id index (l ∷ ls) subtotal = do
  assert_reference b.catalog_items tenant_id l.catalog_item_id
  let line = new_line index l
  rest ← create_lines b tenant_id (suc index) ls (subtotal +ℤ line.line_total)
  ok (line ∷ rest.0, rest.1)

unfoldable pub issue_if : Bool → Moment → Invoice → Result CoreError Invoice
unfolding issue_invoice
issue_if true m i = issue_invoice m i
issue_if false m i = ok i

unfoldable pub new_invoice : Books → ℕ → Moment → InvoiceInput → List Line × ℤ → Invoice
unfolding next_invoice_number
new_invoice b tenant_id m payload (lines, subtotal) = record {
  id = m.new_id;
  tenant_id = tenant_id;
  party_id = payload.party_id;
  legal_entity_id = payload.legal_entity_id;
  tax_profile_id = payload.tax_profile_id;
  invoice_number = next_invoice_number b tenant_id m.year;
  status = InvoiceStatus.draft;
  currency = payload.currency;
  subtotal = subtotal;
  tax_amount = pos 0;
  total = subtotal;
  amount_paid = pos 0;
  issue_date = none;
  due_date = payload.due_date;
  issued_at = none;
  lines = lines;
}

-- The row and the usage event that the call writes.
unfoldable pub add_invoice : ℕ → Moment → Invoice → Books → Books
unfolding record_usage_event
add_invoice tenant_id m i b = record b {
  platform = record_usage_event tenant_id "finance.invoices" 1 m.now b.platform;
  invoices = i ∷ b.invoices;
}

unfoldable pub create_invoice :
    Calendar → Books → ℕ → Moment → InvoiceInput → Result CoreError (Invoice × Books)
unfolding assert_within_limit assert_reference create_lines issue_if new_invoice add_invoice
create_invoice c b tenant_id m payload = do
  assert_within_limit c b.platform tenant_id "finance.invoices" 1 m.now
  party ← or_raise (get_reference b.parties tenant_id payload.party_id) not_found
  assert_reference b.legal_entities tenant_id payload.legal_entity_id
  assert_reference b.tax_profiles tenant_id payload.tax_profile_id
  built ← create_lines b tenant_id 0 payload.lines (pos 0)
  invoice ← issue_if payload.issue m (new_invoice b tenant_id m payload built)
  ok (invoice, add_invoice tenant_id m invoice b)

-- `if payload.x is not None: invoice.x = payload.x`
abbrev pub or_keep : Option ℕ → Option ℕ → Option ℕ
or_keep none old = old
or_keep (some x) old = some x

abbrev pub apply_change : InvoiceChange → Invoice → Invoice
apply_change payload i = record i {
  due_date = or_keep payload.due_date i.due_date;
  legal_entity_id = or_keep payload.legal_entity_id i.legal_entity_id;
  tax_profile_id = or_keep payload.tax_profile_id i.tax_profile_id;
}

unfoldable pub transition_if : Moment → Invoice → Option InvoiceStatus → Result CoreError Invoice
unfolding transition_status
transition_if m i none = ok i
transition_if m i (some new_status) = transition_status m i new_status

unfoldable pub update_invoice :
    Books → ℕ → Moment → ℕ → InvoiceChange → Result CoreError (Invoice × Books)
unfolding get_invoice transition_if refresh_overdue_status save_invoice
update_invoice b tenant_id m invoice_id payload = do
  old ← or_raise (get_invoice b tenant_id invoice_id) not_found
  moved ← transition_if m old payload.status
  let new = refresh_overdue_status m.today (apply_change payload moved)
  ok (new, save_invoice new b)
