-- ===== src/Finance/Balance/Spending.antt =====
-- `allocate_payment` of backend/app/modules/finance/service.py on balanced books.
use coreops_platform.Base.{
  ℕ, ◌≡◌, refl, sym, subst, ap, ◌∙◌, Bool, true, false, not, some, List, [], ◌∷◌, map, ok,
  >>=-eq-ok, raise_if, or_raise, raise_if-eq-ok, or_raise-eq-ok, ok_inj, All, All-Elem, All-map,
  All-of_Elem, All-update_where, Pairwise-saved, find?-eq-some, update_where, ◌==◌, ==_refl, arith,
}
use coreops_platform.Base.Int.{ℤ, pos, ◌+ℤ◌, ◌-ℤ◌, ltb_ℤ, ◌≤ℤ◌, int_laws, sum, leq_of_ltb}
use coreops_platform.Platform.{not_found, conflict}
use coreops_platform.Finance.Model.{Payment, AllocationItem, Allocation, Books}
use coreops_platform.Finance.Repository.{get_payment, save_payment, is_completed}
use coreops_platform.Finance.Payments.{allocate_payment, allocate_items, amount_of}
use coreops_platform.Finance.Balance.Defs.{total_where, of_payment, IsSpent, IsBalanced, IsPositive}
use coreops_platform.Finance.Balance.Items.{Allocates, allocate_items-HasPaidInvoices}

-- A payment from which nothing was allocated while another was.
untouched-IsSpent :
    (payment_id : ℕ) (total : ℤ) (b next : Books) (q : Payment)
    → Allocates payment_id total b next
    → (q.id == payment_id) ≡ false
    → IsSpent b.allocations q
    → IsSpent next.allocations q
untouched-IsSpent payment_id total b next q a f (s, n, l) =
    let g : (payment_id == q.id) ≡ false = ground arith in
    let e : total_where (of_payment q.id) next.allocations
        ≡ total_where (of_payment q.id) b.allocations =
      a.spent q.id ∙ rw g (omega int_laws) in
    (s ∙ sym e, n, l)

-- The payment from which the total was allocated.
allocated-IsSpent :
    (total : ℤ) (b next : Books) (p : Payment)
    → Allocates p.id total b next
    → ltb_ℤ (p.amount -ℤ p.amount_allocated) total ≡ false
    → pos 0 ≤ℤ total
    → IsSpent b.allocations p
    → IsSpent next.allocations (record p { amount_allocated = p.amount_allocated +ℤ total })
allocated-IsSpent total b next p a w z (s, n, l) =
    let raw = a.spent p.id in
    let e : total_where (of_payment p.id) next.allocations
        ≡ total_where (of_payment p.id) b.allocations +ℤ total =
      rw (==_refl p.id) at raw in
    (
      rw s (sym e),
      omega int_laws,
      omega (int_laws, leq_of_ltb (p.amount -ℤ p.amount_allocated) total w),
    )

sum-nonneg :
    (items : List AllocationItem)
    → All (λ (item : AllocationItem). IsPositive item.amount) items
    → pos 0 ≤ℤ sum (map amount_of items)
sum-nonneg [] h = omega arith
sum-nonneg (item ∷ items) h = omega (int_laws, sum-nonneg items h.1, h.0)

pub allocate_payment-eq-ok :
    (b : Books) (tenant_id today payment_id : ℕ) (items : List AllocationItem) (p : Payment)
    (next : Books)
    → allocate_payment b tenant_id today payment_id items ≡ ok (p, next)
    → (old : Payment) × (mid : Books) × (get_payment b tenant_id payment_id ≡ some old)
      × (is_completed old.status ≡ true)
      × (ltb_ℤ (old.amount -ℤ old.amount_allocated) (sum (map amount_of items)) ≡ false)
      × (allocate_items tenant_id today old.id b items ≡ ok mid)
      × (p ≡ record old { amount_allocated = old.amount_allocated +ℤ sum (map amount_of items) })
      × (next ≡ save_payment p mid)
unfolding allocate_payment
allocate_payment-eq-ok b tenant_id today payment_id items p next h =
    let total_new = sum (map amount_of items) in
    let (old, f, h1) = >>=-eq-ok (or_raise (get_payment b tenant_id payment_id) not_found) _ h in
    let (u, g, h2) = >>=-eq-ok (raise_if (not (is_completed old.status)) conflict) _ h1 in
    let (v, w, h3) =
      >>=-eq-ok (raise_if (ltb_ℤ (old.amount -ℤ old.amount_allocated) total_new) conflict) _ h2 in
    let (mid, e, h4) = >>=-eq-ok (allocate_items tenant_id today old.id b items) _ h3 in
    let r = ok_inj h4 in
    let q : p ≡ record old { amount_allocated = old.amount_allocated +ℤ total_new } =
      sym (ap (λ x. x.0) r) in
    (
      old,
      mid,
      or_raise-eq-ok _ _ f,
      completed (is_completed old.status) (raise_if-eq-ok _ _ g),
      raise_if-eq-ok _ _ w,
      e,
      q,
      sym (ap (λ x. x.1) r) ∙ ap (λ x. save_payment x mid) (sym q),
    )
  where
    completed : (t : Bool) → not t ≡ false → t ≡ true
    completed true h = refl
    completed false h = cc

saved_payments :
    (p old : Payment) (rows : List Allocation) (ps : List Payment)
    → p.id ≡ old.id
    → IsSpent rows p
    → All (λ q. (q.id == old.id) ≡ false → IsSpent rows q) ps
    → All (IsSpent rows) (update_where (λ x. x.id == p.id) (λ _. p) ps)
saved_payments p old rows ps e h k =
    All-update_where (IsSpent rows) (λ x. x.id == p.id) (λ _. p) ps
      (All-of_Elem (λ x. (x.id == p.id) ≡ true → IsSpent rows p) ps (λ x m t. h))
      (All-map (λ q. (q.id == old.id) ≡ false → IsSpent rows q)
        (λ q. (q.id == p.id) ≡ false → IsSpent rows q) ps (λ q g f. g (rw e at f)) k)

-- A payment that is allocated leaves the books balanced.
pub allocate_payment-IsBalanced :
    (b : Books) (tenant_id today payment_id : ℕ) (items : List AllocationItem) (p : Payment)
    (next : Books)
    → IsBalanced b
    → All (λ (item : AllocationItem). IsPositive item.amount) items
    → allocate_payment b tenant_id today payment_id items ≡ ok (p, next)
    → IsBalanced next
unfolding save_payment get_payment
allocate_payment-IsBalanced b tenant_id today payment_id items p next h g e =
    let (old, mid, f, c, w, e1, ep, en) =
      allocate_payment-eq-ok b tenant_id today payment_id items p next e in
    let total = sum (map amount_of items) in
    let (k, a) =
      allocate_items-HasPaidInvoices tenant_id today old.id items b mid e1 g h.invoices in
    let same_id : p.id ≡ old.id = ap (λ (x : Payment). x.id) ep in
    let m = (find?-eq-some _ b.payments old f).1 in
    let now : IsSpent mid.allocations p = subst (IsSpent mid.allocations) (sym ep) (
      allocated-IsSpent total b mid old a w (sum-nonneg items g)
        (All-Elem (IsSpent b.allocations) old b.payments h.spent m)) in
    let others : All (λ q. (q.id == old.id) ≡ false → IsSpent mid.allocations q) b.payments =
      All-map (IsSpent b.allocations) (λ q. (q.id == old.id) ≡ false → IsSpent mid.allocations q)
        b.payments (λ q s n. untouched-IsSpent old.id total b mid q a n s) h.spent in
    subst IsBalanced (sym en) (record {
      invoices = record {
        invoice_ids = k.invoice_ids;
        paid_up = k.paid_up;
        amounts = k.amounts;
        distinct = k.distinct;
      };
      payment_ids =
          rw a.payments (Pairwise-saved (λ (x : Payment). x.id) p b.payments h.payment_ids);
      spent = rw a.payments (saved_payments p old mid.allocations b.payments same_id now others);
    })
