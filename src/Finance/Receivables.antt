-- ===== src/Finance/Receivables.antt =====
-- What the receivables and the summary of backend/app/modules/finance/service.py report.
use coreops_platform.Base.{
  ℕ, ◌≤◌, ◌≡◌, refl, ap, Bool, true, false, ◌&&◌, List, [], ◌∷◌, length, filter, map, ◌==◌, Elem,
  Elem-filter, filter-Elem, Bool-cases, ◌↔◌, inl, inr, arith, All, All-of_Elem, ==_iff,
}
use coreops_platform.Base.Int.{ℤ, pos, ◌-ℤ◌, leb_ℤ, ◌≤ℤ◌, ◌<ℤ◌, sum, int_laws}
use coreops_platform.Finance.Model.{Invoice, Receivable, Books}
use coreops_platform.Finance.Repository.{is_open, list_receivable_invoices}
use coreops_platform.Finance.Reports.{
  receivable_of, receivables_of, list_receivables, balance, get_summary,
}

-- An invoice of the tenant that is open and not yet paid in full.
abbrev pub IsReceivable : ℕ → Invoice → Type 0
IsReceivable tenant_id i =
    (i.tenant_id ≡ tenant_id) × (is_open i.status ≡ true) × (i.amount_paid <ℤ i.total)

receivables_of_sound :
    (today : ℕ) (is : List Invoice) (r : Receivable)
    → Elem r (receivables_of today is)
    → (i : Invoice) × Elem i is × (i.amount_paid <ℤ i.total) × (r ≡ receivable_of today i)
unfolding receivables_of
receivables_of_sound today [] r m = absurd m
receivables_of_sound today (i ∷ is) r m =
    elim (Bool-cases (leb_ℤ (i.total -ℤ i.amount_paid) (pos 0))) [
      | inl t ↦ let (j, n, l, e) = receivables_of_sound today is r (rw t at m) in (j, inr n, l, e)
      | inr f ↦
          elim (let k : Elem r (receivable_of today i ∷ receivables_of today is) = rw f at m in k) [
            | inl e ↦ (i, inl refl, unpaid i f, e)
            | inr n ↦ let (j, k, l, e) = receivables_of_sound today is r n in (j, inr k, l, e)
          ]
    ]
  where
    unpaid :
        (i : Invoice) → leb_ℤ (i.total -ℤ i.amount_paid) (pos 0) ≡ false → i.amount_paid <ℤ i.total
    unpaid i f =
        let b = i.total -ℤ i.amount_paid in
        let g : pos 0 <ℤ b = ground (arith, f) in omega (int_laws, g)

receivables_of_complete :
    (today : ℕ) (is : List Invoice) (i : Invoice)
    → Elem i is
    → i.amount_paid <ℤ i.total
    → Elem (receivable_of today i) (receivables_of today is)
unfolding receivables_of
receivables_of_complete today [] i m l = absurd m
receivables_of_complete today (j ∷ is) i (inl e) l =
    let k : pos 0 <ℤ i.total -ℤ i.amount_paid = omega int_laws in
    let g : pos 0 <ℤ j.total -ℤ j.amount_paid = rw e at k in
    let f : leb_ℤ (j.total -ℤ j.amount_paid) (pos 0) ≡ false = ground (arith, g) in
    rw f (inl (ap (receivable_of today) e))
receivables_of_complete today (j ∷ is) i (inr m) l =
    let n = receivables_of_complete today is i m l in
    elim (Bool-cases (leb_ℤ (j.total -ℤ j.amount_paid) (pos 0))) [
      | inl t ↦ rw t n
      | inr f ↦ rw f (inr n)
    ]

-- The receivables of a tenant are those of its open invoices that are not yet paid in full, each
-- with its balance: none is missing, and there is no other.
pub list_receivables_iff :
    (b : Books) (tenant_id today : ℕ) (r : Receivable)
    → Elem r (list_receivables b tenant_id today)
      ↔ ((i : Invoice) × Elem i b.invoices × IsReceivable tenant_id i × (r ≡ receivable_of today i))
unfolding list_receivables list_receivable_invoices
list_receivables_iff b tenant_id today r = (
  λ m.
      let rows = list_receivable_invoices b tenant_id in
      let (i, n, l, e) = receivables_of_sound today rows r m in
      let (k, t) = filter-Elem _ b.invoices i n in
      let (x, y) = both (i.tenant_id == tenant_id) (is_open i.status) t in
      (i, k, ((==_iff i.tenant_id tenant_id).0 x, y, l), e),
  λ w.
      let (i, m, (x, y, l), e) = w in
      let t : (i.tenant_id == tenant_id && is_open i.status) ≡ true =
        rw ((==_iff i.tenant_id tenant_id).1 x, y) refl in
      let n = Elem-filter (λ j. j.tenant_id == tenant_id && is_open j.status) b.invoices i m t in
      rw e (receivables_of_complete today (list_receivable_invoices b tenant_id) i n l),
)
  where
    both : (p q : Bool) → (p && q) ≡ true → (p ≡ true) × (q ≡ true)
    both true true h = (refl, refl)
    both true false h = cc
    both false q h = cc

-- A selection of amounts that are more than 0 comes to no more than all of them.
selected_within :
    (p : Receivable → Bool) (rs : List Receivable)
    → All (λ r. pos 0 ≤ℤ balance r) rs
    → (sum (map balance (filter p rs)) ≤ℤ sum (map balance rs))
      × (length (filter p rs) ≤ length rs)
      × (pos 0 ≤ℤ sum (map balance rs))
selected_within p [] h = (omega arith, omega arith, omega arith)
selected_within p (r ∷ rs) h =
    let (s, n, z) = selected_within p rs h.1 in
    elim (Bool-cases (p r)) [
      | inl t ↦ rw t (omega (int_laws, s), omega (arith, n), omega (int_laws, z, h.0))
      | inr f ↦ rw f (omega (int_laws, s, h.0), omega (arith, n), omega (int_laws, z, h.0))
    ]

-- In the summary of a tenant, the overdue invoices are among the open ones: their count is no more,
-- and their amount is no more than the outstanding total, which is not negative.
pub get_summary_bounds :
    {F : Type 0} (to_float : ℤ → F) (decimal_of : F → ℤ) (b : Books) (tenant_id today : ℕ)
    → ((get_summary to_float decimal_of b tenant_id today).overdue_amount
        ≤ℤ (get_summary to_float decimal_of b tenant_id today).total_outstanding)
      × ((get_summary to_float decimal_of b tenant_id today).overdue_invoices_count
          ≤ (get_summary to_float decimal_of b tenant_id today).open_invoices_count)
      × (pos 0 ≤ℤ (get_summary to_float decimal_of b tenant_id today).total_outstanding)
unfolding get_summary receivable_of
get_summary_bounds to_float decimal_of b tenant_id today =
    selected_within (λ (r : Receivable). r.is_overdue) (list_receivables b tenant_id today)
      (All-of_Elem (λ r. pos 0 ≤ℤ balance r) (list_receivables b tenant_id today)
        (λ r m.
          let (i, n, (x, y, l), e) = (list_receivables_iff b tenant_id today r).0 m in
          rw e (not_negative i l)))
  where
    not_negative :
        (i : Invoice) → i.amount_paid <ℤ i.total → pos 0 ≤ℤ balance (receivable_of today i)
    not_negative i l = omega int_laws
