-- ===== src/Finance/Balance/Accepts.antt =====
-- When `allocate_payment` of backend/app/modules/finance/service.py returns.
use coreops_platform.Base.{
  ℕ, ◌≡◌, ◌≢◌, refl, sym, ◌∙◌, Bool, true, false, ◌&&◌, some, List, [], ◌∷◌, map, ok, find?-eq-some,
  find?-update_other, ◌==◌, ==_iff, ==_refl, All, Pairwise, arith,
}
use coreops_platform.Base.Int.{◌+ℤ◌, ◌-ℤ◌, ltb_ℤ, sum}
use coreops_platform.Finance.Model.{Invoice, Payment, AllocationItem, Books}
use coreops_platform.Finance.Repository.{
  get_invoice, get_payment, get_allocation, save_invoice, save_payment, create_allocation,
  is_completed,
}
use coreops_platform.Finance.Payments.{
  receive, new_allocation, allocate_item, allocate_items, amount_of, allocate_payment,
}
use coreops_platform.Finance.Balance.Money.{receive-KeepsMoney}
use coreops_platform.Finance.Balance.Items.{Passes, allocated}

-- The item is for an invoice of the tenant that is billed, owes as much, and got nothing of the
-- payment yet.
abbrev pub IsAllocatable : ℕ → ℕ → Books → AllocationItem → Type 0
IsAllocatable tenant_id payment_id b item = (i : Invoice) × Passes tenant_id payment_id b item i

allocate_item-Passes :
    (tenant_id today payment_id : ℕ) (b : Books) (item : AllocationItem) (i : Invoice)
    → Passes tenant_id payment_id b item i
    → allocate_item tenant_id today payment_id b item
      ≡ ok (allocated tenant_id today payment_id b item i)
unfolding allocate_item
allocate_item-Passes tenant_id today payment_id b item i p =
    rw (p.found, p.billed, p.within, p.first) refl

found_id :
    (tenant_id id : ℕ) (b : Books) (i : Invoice) → get_invoice b tenant_id id ≡ some i → i.id ≡ id
unfolding get_invoice
found_id tenant_id id b i h = let (t, m) = find?-eq-some _ b.invoices i h in ground (arith, t)

-- An allocation to one invoice leaves another as it was.
Passes-allocated :
    (tenant_id today payment_id : ℕ) (b : Books) (item : AllocationItem) (i : Invoice)
    (other : AllocationItem) (x : Invoice)
    → Passes tenant_id payment_id b item i
    → item.invoice_id ≢ other.invoice_id
    → Passes tenant_id payment_id b other x
    → Passes tenant_id payment_id (allocated tenant_id today payment_id b item i) other x
unfolding get_invoice get_allocation save_invoice create_allocation new_allocation
Passes-allocated tenant_id today payment_id b item i other x p n q =
    let j = receive today item.amount i in
    let k = (receive-KeepsMoney today item.amount i).id in
    let e = found_id tenant_id item.invoice_id b i p.found in
    let f = found_id tenant_id other.invoice_id b x q.found in
    let apart : (y : Invoice)
        → y.id ≡ item.invoice_id
        → (y.tenant_id == tenant_id && y.id == other.invoice_id) ≡ false =
      λ y h. differs (y.tenant_id == tenant_id) y.id other.invoice_id (λ g. n (sym h ∙ g)) in
    let unlike : (i.id == x.id) ≡ false = differs true i.id x.id (λ g. n (sym e ∙ g ∙ f)) in
    record {
      found =
          find?-update_other (λ y. y.id == j.id)
            (λ y. y.tenant_id == tenant_id && y.id == other.invoice_id) j b.invoices
            (λ y t. apart y ((==_iff y.id j.id).0 t ∙ k ∙ e)) (apart j (k ∙ e))
          ∙ q.found;
      billed = q.billed;
      within = q.within;
      first = rw (==_refl tenant_id, ==_refl payment_id, unlike) q.first;
    }
  where
    differs : (t : Bool) (a c : ℕ) → a ≢ c → (t && a == c) ≡ false
    differs true a c h = ground (arith, h)
    differs false a c h = refl

-- Two predicates give a third.
All-both :
    {A : Type 0} (P Q R : A → Type 0) (xs : List A)
    → ((a : A) → P a → Q a → R a)
    → All P xs
    → All Q xs
    → All R xs
All-both P Q R [] f h k = tt
All-both P Q R (x ∷ xs) f h k = (f x h.0 k.0, All-both P Q R xs f h.1 k.1)

allocate_items_accepts :
    (tenant_id today payment_id : ℕ) (items : List AllocationItem) (b : Books)
    → All (IsAllocatable tenant_id payment_id b) items
    → Pairwise (λ (x y : AllocationItem). x.invoice_id ≢ y.invoice_id) items
    → (next : Books) × (allocate_items tenant_id today payment_id b items ≡ ok next)
unfolding allocate_items
allocate_items_accepts tenant_id today payment_id [] b h d = (b, refl)
allocate_items_accepts tenant_id today payment_id (item ∷ items) b h d =
    let (i, p) = h.0 in
    let mid = allocated tenant_id today payment_id b item i in
    let rest =
      All-both (λ y. item.invoice_id ≢ y.invoice_id) (IsAllocatable tenant_id payment_id b)
        (IsAllocatable tenant_id payment_id mid) items
        (λ y n (x, q). (x, Passes-allocated tenant_id today payment_id b item i y x p n q)) d.0
        h.1 in
    let (next, e) = allocate_items_accepts tenant_id today payment_id items mid rest d.1 in
    (next, rw (allocate_item-Passes tenant_id today payment_id b item i p) e)

-- A completed payment of the tenant with enough left is allocated, where the invoices are distinct
-- and each is billed, owes as much as it is given, and got nothing of the payment yet: the call
-- returns the payment, with the sum of the amounts added to what was allocated from it.
pub allocate_payment_accepts :
    (b : Books) (tenant_id today payment_id : ℕ) (items : List AllocationItem) (p : Payment)
    → get_payment b tenant_id payment_id ≡ some p
    → is_completed p.status ≡ true
    → ltb_ℤ (p.amount -ℤ p.amount_allocated) (sum (map amount_of items)) ≡ false
    → All (IsAllocatable tenant_id p.id b) items
    → Pairwise (λ (x y : AllocationItem). x.invoice_id ≢ y.invoice_id) items
    → (next : Books) × (allocate_payment b tenant_id today payment_id items
        ≡ ok
            (record p { amount_allocated = p.amount_allocated +ℤ sum (map amount_of items) }, next))
unfolding allocate_payment
allocate_payment_accepts b tenant_id today payment_id items p f c w h d =
    let (mid, e) = allocate_items_accepts tenant_id today p.id items b h d in
    let paid : Payment = record p {
      amount_allocated = p.amount_allocated +ℤ sum (map amount_of items);
    } in
    (save_payment paid mid, rw (f, c, w, e) refl)
