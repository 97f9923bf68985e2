-- ===== src/Finance/Balance/Defs.antt =====
-- What balanced books are, for backend/app/modules/finance: the amounts that invoices and payments
-- carry are those of the allocations.
use coreops_platform.Base.{
  ℕ, ◌≡◌, ◌≢◌, ◌⊎◌, Bool, false, List, [], ◌∷◌, ◌==◌, All, Pairwise, if◌then◌else◌,
}
use coreops_platform.Base.Int.{ℤ, pos, ◌+ℤ◌, ◌≤ℤ◌, ◌<ℤ◌}
use coreops_platform.Finance.Model.{Invoice, Payment, Allocation, Books}
use coreops_platform.Finance.Repository.{is_allocation}

-- The sum of the allocations that a test selects.
abbrev pub total_where : (Allocation → Bool) → List Allocation → ℤ
total_where p [] = pos 0
total_where p (a ∷ rows) = let rest = total_where p rows in if p a then a.amount +ℤ rest else rest

abbrev pub to_invoice : ℕ → Allocation → Bool
to_invoice invoice_id a = a.invoice_id == invoice_id

abbrev pub of_payment : ℕ → Allocation → Bool
of_payment payment_id a = a.payment_id == payment_id

-- An invoice has been paid what was allocated to it, and no more than its total if that is anything.
abbrev pub IsPaidUp : List Allocation → Invoice → Type 0
IsPaidUp rows i =
    (i.amount_paid ≡ total_where (to_invoice i.id) rows)
    × (pos 0 ≤ℤ i.amount_paid)
    × ((i.amount_paid ≤ℤ i.total) ⊎ (i.amount_paid ≡ pos 0))

-- A payment has spent what was allocated from it, and never more than its amount.
abbrev pub IsSpent : List Allocation → Payment → Type 0
IsSpent rows p =
    (p.amount_allocated ≡ total_where (of_payment p.id) rows)
    × (pos 0 ≤ℤ p.amount_allocated)
    × (p.amount_allocated ≤ℤ p.amount)

abbrev pub DiffersFrom : Allocation → Allocation → Type 0
DiffersFrom a x = is_allocation a.tenant_id a.payment_id a.invoice_id x ≡ false

pub record HasPaidInvoices (b : Books) : Type 0 where
  pub invoice_ids : Pairwise (λ i j. i.id ≢ j.id) b.invoices
  pub paid_up : All (IsPaidUp b.allocations) b.invoices
  pub amounts : All (λ a. pos 0 <ℤ a.amount) b.allocations
  pub distinct : Pairwise DiffersFrom b.allocations

pub record IsBalanced (b : Books) : Type 0 where
  pub invoices : HasPaidInvoices b
  pub payment_ids : Pairwise (λ p q. p.id ≢ q.id) b.payments
  pub spent : All (IsSpent b.allocations) b.payments

-- The identifier of a new row is that of no row.
pub record IsFresh (id : ℕ) (b : Books) : Type 0 where
  pub no_invoice : All (λ (i : Invoice). id ≢ i.id) b.invoices
  pub no_payment : All (λ (p : Payment). id ≢ p.id) b.payments
  pub not_paid_to : All (λ (a : Allocation). a.invoice_id ≢ id) b.allocations
  pub not_paid_from : All (λ (a : Allocation). a.payment_id ≢ id) b.allocations

-- `Field(gt=0)`
abbrev pub IsPositive : ℤ → Type 0
IsPositive amount = pos 0 <ℤ amount
