-- ===== src/Finance/Balance/Operations.antt =====
-- Each operation of backend/app/modules/finance/service.py on balanced books, and any run of them.
use coreops_platform.Base.{
  ℕ, ◌≡◌, ◌≢◌, refl, sym, subst, ap, ◌∙◌, Bool, false, String, some, List, [], ◌∷◌, ok, >>=-eq-ok,
  or_raise, or_raise-eq-ok, ok_inj, All, All-map, inr, arith,
}
use coreops_platform.Base.Int.{ℤ, pos}
use coreops_platform.Platform.{not_found, Calendar}
use coreops_platform.Platform.Entitlements.{assert_within_limit}
use coreops_platform.Finance.Model.{
  Invoice, InvoiceInput, InvoiceChange, Line, Payment, PaymentInput, Allocation, Books, Moment,
}
use coreops_platform.Finance.Repository.{get_invoice, save_invoice, get_reference}
use coreops_platform.Finance.Invoices.{
  create_invoice, update_invoice, new_invoice, issue_if, add_invoice, create_lines,
  assert_reference, transition_if, apply_change, refresh_overdue_status,
}
use coreops_platform.Finance.Payments.{create_payment}
use coreops_platform.Finance.Balance.Defs.{
  total_where, to_invoice, of_payment, IsPaidUp, IsBalanced, IsFresh, IsPositive,
}
use coreops_platform.Finance.Balance.Money.{KeepsMoney, issue_if-KeepsMoney}

total_where_none :
    (p : Allocation → Bool) (rows : List Allocation)
    → All (λ a. p a ≡ false) rows
    → total_where p rows ≡ pos 0
total_where_none p [] h = refl
total_where_none p (a ∷ rows) h = rw h.0 (total_where_none p rows h.1)

-- A selection by a fresh identifier selects nothing.
none_to :
    (id : ℕ) (rows : List Allocation)
    → All (λ (a : Allocation). a.invoice_id ≢ id) rows
    → All (λ a. to_invoice id a ≡ false) rows
none_to id rows h =
    All-map (λ (a : Allocation). a.invoice_id ≢ id) (λ a. to_invoice id a ≡ false) rows
      (λ a n. ground (arith, n)) h

none_of :
    (id : ℕ) (rows : List Allocation)
    → All (λ (a : Allocation). a.payment_id ≢ id) rows
    → All (λ a. of_payment id a ≡ false) rows
none_of id rows h =
    All-map (λ (a : Allocation). a.payment_id ≢ id) (λ a. of_payment id a ≡ false) rows
      (λ a n. ground (arith, n)) h

-- The last steps of a call that returns an invoice.
pub create_invoice-eq-ok :
    (c : Calendar) (b : Books) (tenant_id : ℕ) (m : Moment) (payload : InvoiceInput) (i : Invoice)
    (next : Books)
    → create_invoice c b tenant_id m payload ≡ ok (i, next)
    → (built : List Line × ℤ) × (assert_within_limit c b.platform tenant_id "finance.invoices" 1
          m.now
        ≡ ok tt)
      × (create_lines b tenant_id 0 payload.lines (pos 0) ≡ ok built)
      × (issue_if payload.issue m (new_invoice b tenant_id m payload built) ≡ ok i)
      × (next ≡ add_invoice tenant_id m i b)
unfolding create_invoice
create_invoice-eq-ok c b tenant_id m payload i next h =
    let (u, limit, h1) =
      >>=-eq-ok (assert_within_limit c b.platform tenant_id "finance.invoices" 1 m.now) _ h in
    let (v, f, h2) =
      >>=-eq-ok (or_raise (get_reference b.parties tenant_id payload.party_id) not_found) _ h1 in
    let (w, g, h3) =
      >>=-eq-ok (assert_reference b.legal_entities tenant_id payload.legal_entity_id) _ h2 in
    let (x, k, h4) =
      >>=-eq-ok (assert_reference b.tax_profiles tenant_id payload.tax_profile_id) _ h3 in
    let (built, l, h5) = >>=-eq-ok (create_lines b tenant_id 0 payload.lines (pos 0)) _ h4 in
    let (made, q, h6) =
      >>=-eq-ok (issue_if payload.issue m (new_invoice b tenant_id m payload built)) _ h5 in
    let r = ok_inj h6 in
    let e : made ≡ i = ap (λ y. y.0) r in
    (
      built,
      limit,
      l,
      q ∙ ap (λ y. ok y) e,
      sym (ap (λ y. y.1) r) ∙ ap (λ y. add_invoice tenant_id m y b) e,
    )

unpaid-IsPaidUp :
    (rows : List Allocation) (i j : Invoice)
    → KeepsMoney i j
    → i.amount_paid ≡ pos 0
    → All (λ (a : Allocation). a.invoice_id ≢ i.id) rows
    → IsPaidUp rows j
unpaid-IsPaidUp rows i j k z h =
    let e : j.amount_paid ≡ pos 0 = k.amount_paid ∙ z in
    let t : total_where (to_invoice j.id) rows ≡ pos 0 =
      total_where_none (to_invoice j.id) rows (none_to j.id rows (rw k.id h)) in
    (e ∙ sym t, rw e (omega arith), inr e)

pub create_invoice-IsBalanced :
    (c : Calendar) (b : Books) (tenant_id : ℕ) (m : Moment) (payload : InvoiceInput) (i : Invoice)
    (next : Books)
    → IsBalanced b
    → IsFresh m.new_id b
    → create_invoice c b tenant_id m payload ≡ ok (i, next)
    → IsBalanced next
unfolding add_invoice new_invoice
create_invoice-IsBalanced c b tenant_id m payload i next h g e =
    let (built, limit, l, q, en) = create_invoice-eq-ok c b tenant_id m payload i next e in
    let new = new_invoice b tenant_id m payload built in
    let k = issue_if-KeepsMoney payload.issue m new i q in
    subst IsBalanced (sym en) (record {
      invoices = record {
        invoice_ids = (rw k.id g.no_invoice, h.invoices.invoice_ids);
        paid_up = (unpaid-IsPaidUp b.allocations new i k refl g.not_paid_to, h.invoices.paid_up);
        amounts = h.invoices.amounts;
        distinct = h.invoices.distinct;
      };
      payment_ids = h.payment_ids;
      spent = h.spent;
    })

pub create_payment-IsBalanced :
    (upper_stripped : String → String) (b : Books) (tenant_id : ℕ) (m : Moment)
    (payload : PaymentInput) (p : Payment) (next : Books)
    → IsBalanced b
    → IsFresh m.new_id b
    → IsPositive payload.amount
    → create_payment upper_stripped b tenant_id m payload ≡ ok (p, next)
    → IsBalanced next
unfolding create_payment
create_payment-IsBalanced upper_stripped b tenant_id m payload p next h g a e =
    let (u, f, e1) = >>=-eq-ok (assert_reference b.parties tenant_id payload.party_id) _ e in
    subst IsBalanced (ap (λ y. y.1) (ok_inj e1)) (record {
      invoices = record {
        invoice_ids = h.invoices.invoice_ids;
        paid_up = h.invoices.paid_up;
        amounts = h.invoices.amounts;
        distinct = h.invoices.distinct;
      };
      payment_ids = (g.no_payment, h.payment_ids);
      spent = (
        (
          sym (
              total_where_none (of_payment m.new_id) b.allocations
                (none_of m.new_id b.allocations g.not_paid_from)),
          omega arith,
          omega (arith, a),
        ),
        h.spent,
      );
    })

-- A row whose amounts are kept stays paid up.
pub kept-IsPaidUp :
    (rows : List Allocation) (i j : Invoice) → KeepsMoney i j → IsPaidUp rows i → IsPaidUp rows j
kept-IsPaidUp rows i j k (s, n, l) =
    (rw (k.amount_paid, k.id) s, rw k.amount_paid n, rw (k.amount_paid, k.total) l)

pub update_invoice-eq-ok :
    (b : Books) (tenant_id : ℕ) (m : Moment) (invoice_id : ℕ) (payload : InvoiceChange)
    (i : Invoice) (next : Books)
    → update_invoice b tenant_id m invoice_id payload ≡ ok (i, next)
    → (old : Invoice) × (moved : Invoice) × (get_invoice b tenant_id invoice_id ≡ some old)
      × (transition_if m old payload.status ≡ ok moved)
      × (i ≡ refresh_overdue_status m.today (apply_change payload moved))
      × (next ≡ save_invoice i b)
unfolding update_invoice
update_invoice-eq-ok b tenant_id m invoice_id payload i next h =
    let (old, f, h1) = >>=-eq-ok (or_raise (get_invoice b tenant_id invoice_id) not_found) _ h in
    let (moved, t, h2) = >>=-eq-ok (transition_if m old payload.status) _ h1 in
    let r = ok_inj h2 in
    let e = sym (ap (λ y. y.0) r) in
    (
      old,
      moved,
      or_raise-eq-ok _ _ f,
      t,
      e,
      sym (ap (λ y. y.1) r) ∙ ap (λ y. save_invoice y b) (sym e),
    )
