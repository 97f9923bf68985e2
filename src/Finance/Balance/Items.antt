-- ===== src/Finance/Balance/Items.antt =====
-- One allocation, and the loop over them, in `allocate_payment` of
-- backend/app/modules/finance/service.py.
use coreops_platform.Base.{
  ℕ, ◌≡◌, refl, sym, subst, ◌∙◌, Bool, true, false, Option, none, some, List, [], ◌∷◌, map, ok,
  >>=-eq-ok, raise_if, or_raise, raise_if-eq-ok, or_raise-eq-ok, ok_inj, All, All-Elem, All-map,
  All-of_Elem, All-update_where, Pairwise-saved, find?-eq-some, find?-eq-none, ◌==◌, ==_iff,
  is_some, Bool-cases, inl, inr, arith, if◌then◌else◌,
}
use coreops_platform.Base.Int.{ℤ, pos, ◌+ℤ◌, ◌-ℤ◌, ltb_ℤ, ◌≤ℤ◌, int_laws, sum, leq_of_ltb}
use coreops_platform.Platform.{not_found, conflict}
use coreops_platform.Finance.Model.{Invoice, AllocationItem, Allocation, Books}
use coreops_platform.Finance.Repository.{
  get_invoice, get_allocation, save_invoice, create_allocation, is_withheld,
}
use coreops_platform.Finance.Payments.{
  receive, new_allocation, allocate_item, allocate_items, amount_of,
}
use coreops_platform.Finance.Balance.Defs.{
  total_where, to_invoice, of_payment, IsPaidUp, HasPaidInvoices, IsPositive,
}
use coreops_platform.Finance.Balance.Money.{KeepsMoney, receive-KeepsMoney}

none_of : {A : Type 0} (o : Option A) → is_some o ≡ false → o ≡ none
none_of none h = refl
none_of (some x) h = cc

-- An allocation that passes its guards: the invoice, and what the guards say.
pub record Passes (tenant_id payment_id : ℕ) (b : Books) (item : AllocationItem) (i : Invoice)
    : Type 0 where
  pub found : get_invoice b tenant_id item.invoice_id ≡ some i
  pub billed : is_withheld i.status ≡ false
  pub within : ltb_ℤ (i.total -ℤ i.amount_paid) item.amount ≡ false
  pub first : is_some (get_allocation b tenant_id payment_id i.id) ≡ false

abbrev pub allocated : ℕ → ℕ → ℕ → Books → AllocationItem → Invoice → Books
allocated tenant_id today payment_id b item i =
    save_invoice (receive today item.amount i)
      (create_allocation (new_allocation tenant_id payment_id i.id item.amount) b)

pub allocate_item-eq-ok :
    (tenant_id today payment_id : ℕ) (b : Books) (item : AllocationItem) (next : Books)
    → allocate_item tenant_id today payment_id b item ≡ ok next
    → (i : Invoice) × Passes tenant_id payment_id b item i
      × (allocated tenant_id today payment_id b item i ≡ next)
unfolding allocate_item
allocate_item-eq-ok tenant_id today payment_id b item next h =
    let (i, f, h1) = >>=-eq-ok (or_raise (get_invoice b tenant_id item.invoice_id) not_found) _ h in
    let (u, g, h2) = >>=-eq-ok (raise_if (is_withheld i.status) conflict) _ h1 in
    let (v, w, h3) =
      >>=-eq-ok (raise_if (ltb_ℤ (i.total -ℤ i.amount_paid) item.amount) conflict) _ h2 in
    let (x, y, h4) =
      >>=-eq-ok (raise_if (is_some (get_allocation b tenant_id payment_id i.id)) conflict) _ h3 in
    (
      i,
      record {
        found = or_raise-eq-ok _ _ f;
        billed = raise_if-eq-ok _ _ g;
        within = raise_if-eq-ok _ _ w;
        first = raise_if-eq-ok _ _ y;
      },
      ok_inj h4,
    )

-- The first allocation counts where the test selects it.
total_where_hit :
    (p : Allocation → Bool) (a : Allocation) (rows : List Allocation)
    → p a ≡ true
    → total_where p (a ∷ rows) ≡ a.amount +ℤ total_where p rows
total_where_hit p a rows t = rw t refl

total_where_miss :
    (p : Allocation → Bool) (a : Allocation) (rows : List Allocation)
    → p a ≡ false
    → total_where p (a ∷ rows) ≡ total_where p rows
total_where_miss p a rows t = rw t refl

-- The invoice allocated to stays paid up.
received-IsPaidUp :
    (a : Allocation) (rows : List Allocation) (i j : Invoice)
    → KeepsMoney (record i { amount_paid = i.amount_paid +ℤ a.amount }) j
    → a.invoice_id ≡ i.id
    → IsPositive a.amount
    → ltb_ℤ (i.total -ℤ i.amount_paid) a.amount ≡ false
    → IsPaidUp rows i
    → IsPaidUp (a ∷ rows) j
received-IsPaidUp a rows i j k e g w (s, n, l) =
    let t : to_invoice i.id a ≡ true = (==_iff a.invoice_id i.id).1 e in
    let paid : i.amount_paid +ℤ a.amount ≡ total_where (to_invoice i.id) (a ∷ rows) =
      let h = total_where_hit (to_invoice i.id) a rows t in rw h (rw s (omega int_laws)) in
    (
      subst (λ x. j.amount_paid ≡ total_where (to_invoice x) (a ∷ rows)) (sym k.id)
          (k.amount_paid ∙ paid),
      subst (λ x. pos 0 ≤ℤ x) (sym k.amount_paid) (omega int_laws),
      inl (
          subst (λ x. j.amount_paid ≤ℤ x) (sym k.total)
            (subst (λ x. x ≤ℤ i.total) (sym k.amount_paid)
              (omega (int_laws, leq_of_ltb (i.total -ℤ i.amount_paid) a.amount w)))),
    )

-- An invoice that another was allocated to stays paid up.
other-IsPaidUp :
    (a : Allocation) (rows : List Allocation) (i x : Invoice)
    → a.invoice_id ≡ i.id
    → (x.id == i.id) ≡ false
    → IsPaidUp rows x
    → IsPaidUp (a ∷ rows) x
other-IsPaidUp a rows i x e f (s, n, l) =
    let t : to_invoice x.id a ≡ false = rw e (ground arith) in
    (s ∙ sym (total_where_miss (to_invoice x.id) a rows t), n, l)

pub allocated-HasPaidInvoices :
    (tenant_id today payment_id : ℕ) (b : Books) (item : AllocationItem) (i : Invoice)
    → Passes tenant_id payment_id b item i
    → IsPositive item.amount
    → HasPaidInvoices b
    → HasPaidInvoices (allocated tenant_id today payment_id b item i)
unfolding save_invoice create_allocation new_allocation get_invoice get_allocation
allocated-HasPaidInvoices tenant_id today payment_id b item i p g h =
    let a = new_allocation tenant_id payment_id i.id item.amount in
    let j = receive today item.amount i in
    let k = receive-KeepsMoney today item.amount i in
    let (t, m) = find?-eq-some _ b.invoices i p.found in
    record {
      invoice_ids = Pairwise-saved (λ (x : Invoice). x.id) j b.invoices h.invoice_ids;
      paid_up =
          All-update_where (IsPaidUp (a ∷ b.allocations)) (λ x. x.id == j.id) (λ _. j) b.invoices
            (All-of_Elem (λ x. (x.id == j.id) ≡ true → IsPaidUp (a ∷ b.allocations) j) b.invoices
              (λ x mx e.
                received-IsPaidUp a b.allocations i j k refl g p.within
                  (All-Elem (IsPaidUp b.allocations) i b.invoices h.paid_up m)))
            (All-map (IsPaidUp b.allocations)
              (λ x. (x.id == j.id) ≡ false → IsPaidUp (a ∷ b.allocations) x) b.invoices
              (λ x u e. other-IsPaidUp a b.allocations i x refl (rw k.id at e) u) h.paid_up);
      amounts = (g, h.amounts);
      distinct = (find?-eq-none _ b.allocations (none_of _ p.first), h.distinct);
    }

-- What an allocation leaves alone, and what it adds.
pub record Allocates (payment_id : ℕ) (amount : ℤ) (b next : Books) : Type 0 where
  pub payments : next.payments ≡ b.payments
  pub spent :
      (q : ℕ)
      → total_where (of_payment q) next.allocations
        ≡ total_where (of_payment q) b.allocations +ℤ (if payment_id == q then amount else pos 0)

pub allocated-Allocates :
    (tenant_id today payment_id : ℕ) (b : Books) (item : AllocationItem) (i : Invoice)
    → Allocates payment_id item.amount b (allocated tenant_id today payment_id b item i)
unfolding save_invoice create_allocation new_allocation
allocated-Allocates tenant_id today payment_id b item i = record {
  payments = refl;
  spent = λ q. elim (Bool-cases (payment_id == q)) [
    | inl t ↦ rw t (omega int_laws)
    | inr f ↦ rw f (omega int_laws)
  ];
}

pub allocate_items-HasPaidInvoices :
    (tenant_id today payment_id : ℕ) (items : List AllocationItem) (b next : Books)
    → allocate_items tenant_id today payment_id b items ≡ ok next
    → All (λ (item : AllocationItem). IsPositive item.amount) items
    → HasPaidInvoices b
    → HasPaidInvoices next × Allocates payment_id (sum (map amount_of items)) b next
unfolding allocate_items
allocate_items-HasPaidInvoices tenant_id today payment_id [] b next e g h =
    subst (λ n. HasPaidInvoices n × Allocates payment_id (pos 0) b n) (ok_inj e)
      (
        h,
        record {
          payments = refl;
          spent = λ q. elim (Bool-cases (payment_id == q)) [
            | inl t ↦ rw t (omega int_laws)
            | inr f ↦ rw f (omega int_laws)
          ];
        },
      )
allocate_items-HasPaidInvoices tenant_id today payment_id (item ∷ items) b next e g h =
    let (mid, e1, e2) = >>=-eq-ok (allocate_item tenant_id today payment_id b item) _ e in
    let (i, p, s) = allocate_item-eq-ok tenant_id today payment_id b item mid e1 in
    let one : HasPaidInvoices mid × Allocates payment_id item.amount b mid =
      subst (λ n. HasPaidInvoices n × Allocates payment_id item.amount b n) s
        (
          allocated-HasPaidInvoices tenant_id today payment_id b item i p g.0 h,
          allocated-Allocates tenant_id today payment_id b item i,
        ) in
    let (k, a) =
      allocate_items-HasPaidInvoices tenant_id today payment_id items mid next e2 g.1 one.0 in
    (
      k,
      record {
        payments = a.payments ∙ one.1.payments;
        spent = λ q.
            let x = one.1.spent q in
            let y = a.spent q in
            elim (Bool-cases (payment_id == q)) [
              | inl t ↦ rw t (rw y (rw x (rw t (omega int_laws))))
              | inr f ↦ rw f (rw y (rw x (rw f (omega int_laws))))
            ];
      },
    )
