-- ===== src/Finance/Billing.antt =====
-- What `create_invoice` returns, when an invoice is paid or overdue, and when it can be withdrawn;
-- for backend/app/modules/finance/service.py.
use coreops_platform.Base.{
  ℕ, suc, ◌+◌, ◌*◌, ◌≡◌, refl, subst, ap, ◌∙◌, List, [], ◌∷◌, map, ok, >>=-eq-ok, ok_inj, Pointwise,
}
use coreops_platform.Base.Int.{ℤ, pos, ◌+ℤ◌, sum, int_laws}
use coreops_platform.Platform.{Calendar}
use coreops_platform.Finance.Rounding.{
  signed, magnitude, IsNearest, line_total_of, line_total_of-IsNearest,
}
use coreops_platform.Finance.Model.{LineInput, InvoiceInput, Line, Invoice, Books, Moment}
use coreops_platform.Finance.Invoices.{
  create_lines, assert_reference, new_line, new_invoice, add_invoice, create_invoice,
}
use coreops_platform.Finance.Balance.Money.{issue_if-KeepsMoney}
use coreops_platform.Finance.Balance.Operations.{create_invoice-eq-ok}

abbrev pub total_of : Line → ℤ
total_of l = l.line_total

-- A line bills what was asked for.
abbrev pub Bills : LineInput → Line → Type 0
Bills asked l =
    (l.catalog_item_id ≡ asked.catalog_item_id)
    × (l.line_total ≡ line_total_of asked.quantity_digits asked.quantity_scale asked.unit_price)

create_lines_lem :
    (b : Books) (tenant_id index : ℕ) (asked : List LineInput) (subtotal : ℤ)
    (built : List Line × ℤ)
    → create_lines b tenant_id index asked subtotal ≡ ok built
    → Pointwise Bills asked built.0 × (built.1 ≡ subtotal +ℤ sum (map total_of built.0))
unfolding create_lines new_line
create_lines_lem b tenant_id index [] subtotal built h =
    subst (λ x. Pointwise Bills [] x.0 × (x.1 ≡ subtotal +ℤ sum (map total_of x.0))) (ok_inj h)
      (tt, omega int_laws)
create_lines_lem b tenant_id index (l ∷ ls) subtotal built h =
    let line = new_line index l in
    let (u, g, h1) = >>=-eq-ok (assert_reference b.catalog_items tenant_id l.catalog_item_id) _ h in
    let (rest, e, h2) =
      >>=-eq-ok (create_lines b tenant_id (suc index) ls (subtotal +ℤ line.line_total)) _ h1 in
    let (p, s) = create_lines_lem b tenant_id (suc index) ls (subtotal +ℤ line.line_total) rest e in
    subst (λ x. Pointwise Bills (l ∷ ls) x.0 × (x.1 ≡ subtotal +ℤ sum (map total_of x.0)))
      (ok_inj h2) (((refl, refl), p), s ∙ omega int_laws)

-- An invoice that create_invoice returns bills each line that was asked for, in order; its total is
-- its subtotal, which is the sum of the totals of its lines; nothing of it is paid; and it is the one
-- invoice added to the tables.
pub create_invoice_totals :
    (c : Calendar) (b : Books) (tenant_id : ℕ) (m : Moment) (payload : InvoiceInput) (i : Invoice)
    (next : Books)
    → create_invoice c b tenant_id m payload ≡ ok (i, next)
    → Pointwise Bills payload.lines i.lines
      × (i.subtotal ≡ sum (map total_of i.lines))
      × (i.total ≡ i.subtotal)
      × (i.amount_paid ≡ pos 0)
      × (next.invoices ≡ i ∷ b.invoices)
unfolding new_invoice add_invoice
create_invoice_totals c b tenant_id m payload i next h =
    let (built, limit, l, q, en) = create_invoice-eq-ok c b tenant_id m payload i next h in
    let k = issue_if-KeepsMoney payload.issue m (new_invoice b tenant_id m payload built) i q in
    let (p, s) = create_lines_lem b tenant_id 0 payload.lines (pos 0) built l in
    (
      rw k.lines p,
      rw (k.lines, k.subtotal) (s ∙ omega int_laws),
      rw (k.total, k.subtotal) refl,
      k.amount_paid,
      ap (λ (x : Books). x.invoices) en,
    )

-- The total of a new line is its quantity times its price, to the nearest hundredth, with the sign of
-- the price: the quantity is quantity_digits / 10 ^ quantity_scale, and a product that is half-way
-- between two hundredths goes to the even one.
pub new_line-IsNearest :
    (index : ℕ) (l : LineInput)
    → (m : ℕ) × ((new_line index l).line_total ≡ signed l.unit_price.coefficient m)
      × IsNearest
          (magnitude l.unit_price.coefficient * l.quantity_digits)
          (l.quantity_scale + l.unit_price.scale)
          m
unfolding new_line
new_line-IsNearest index l = line_total_of-IsNearest l.quantity_digits l.quantity_scale l.unit_price
