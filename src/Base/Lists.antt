-- ===== src/Base/Lists.antt =====
-- Lists as tables of rows: selection, update by key, sums, and predicates that compute to tuples.
use Prim.Native.Nat.{ℕ, suc, ◌+◌}
use mathlib.Core.Path.{◌≡◌, refl, sym, ap, subst}
use mathlib.Core.Logic.{◌⊎◌, inl, inr}
use mathlib.Core.Bool.{Bool, true, false}
use mathlib.Core.Option.{Option, none, some}
use mathlib.Core.List.{List, [], ◌∷◌, ◌++◌}
use native.Mathlib.Omega.{arith}
use coreops_platform.Base.Tests.{if◌then◌else◌, Bool-cases}

module _ {ℓ} {A : Type ℓ} where
  abbrev pub length : List A → ℕ
  length [] = 0
  length (x ∷ xs) = suc (length xs)

  -- The rows that a `where` clause selects.
  abbrev pub filter : (A → Bool) → List A → List A
  filter p [] = []
  filter p (x ∷ xs) = let rest = filter p xs in if p x then x ∷ rest else rest

  -- `db.scalar(select(...).where(...))`: the first row selected.
  abbrev pub find? : (A → Bool) → List A → Option A
  find? p [] = none
  find? p (x ∷ xs) = let rest = find? p xs in if p x then some x else rest

  -- A write to the rows that a test selects.
  abbrev pub update_where : (A → Bool) → (A → A) → List A → List A
  update_where p f [] = []
  update_where p f (x ∷ xs) = (if p x then f x else x) ∷ update_where p f xs

  abbrev pub is_empty : List A → Bool
  is_empty [] = true
  is_empty (x ∷ xs) = false

  -- Every element satisfies the predicate.
  abbrev pub All {κ} : (A → Type κ) → List A → Type κ
  All P [] = Unit
  All P (x ∷ xs) = P x × All P xs

  -- Any two elements at different places are related.
  abbrev pub Pairwise {κ} : (A → A → Type κ) → List A → Type κ
  Pairwise R [] = Unit
  Pairwise R (x ∷ xs) = All (R x) xs × Pairwise R xs

-- The element stands somewhere in the list.
module _ {A : Type 0} where
  abbrev pub Elem : A → List A → Type 0
  Elem a [] = ⊥
  Elem a (x ∷ xs) = (a ≡ x) ⊎ Elem a xs

module _ {ℓ κ} {A : Type ℓ} (P : A → Type κ) where
  pub All-append : (xs ys : List A) → All P xs → All P ys → All P (xs ++ ys)
  All-append [] ys hx hy = hy
  All-append (x ∷ xs) ys hx hy = (hx.0, All-append xs ys hx.1 hy)

  pub All-append_left : (xs ys : List A) → All P (xs ++ ys) → All P xs
  All-append_left [] ys h = tt
  All-append_left (x ∷ xs) ys h = (h.0, All-append_left xs ys h.1)

  pub All-append_right : (xs ys : List A) → All P (xs ++ ys) → All P ys
  All-append_right [] ys h = h
  All-append_right (x ∷ xs) ys h = All-append_right xs ys h.1

module _ {κ} {A : Type 0} (P : A → Type κ) where
  pub All-Elem : (a : A) (xs : List A) → All P xs → Elem a xs → P a
  All-Elem a [] h m = absurd m
  All-Elem a (x ∷ xs) h (inl e) = subst P (sym e) h.0
  All-Elem a (x ∷ xs) h (inr m) = All-Elem a xs h.1 m

  pub All-of_Elem : (xs : List A) → ((a : A) → Elem a xs → P a) → All P xs
  All-of_Elem [] f = tt
  All-of_Elem (x ∷ xs) f = (f x (inl refl), All-of_Elem xs (λ a m. f a (inr m)))

module _ {ℓ κ ι} {A : Type ℓ} (P : A → Type κ) (Q : A → Type ι) where
  pub All-map : (xs : List A) → ((a : A) → P a → Q a) → All P xs → All Q xs
  All-map [] f h = tt
  All-map (x ∷ xs) f h = (f x h.0, All-map xs f h.1)

module _ {ℓ κ} {A : Type ℓ} (R : A → A → Type κ) where
  pub Pairwise-append :
      (xs ys : List A)
      → Pairwise R xs
      → Pairwise R ys
      → All (λ x. All (R x) ys) xs
      → Pairwise R (xs ++ ys)
  Pairwise-append [] ys hx hy c = hy
  Pairwise-append (x ∷ xs) ys hx hy c =
      (All-append (R x) xs ys hx.0 c.0, Pairwise-append xs ys hx.1 hy c.1)

  pub Pairwise-append_left : (xs ys : List A) → Pairwise R (xs ++ ys) → Pairwise R xs
  Pairwise-append_left [] ys h = tt
  Pairwise-append_left (x ∷ xs) ys h =
      (All-append_left (R x) xs ys h.0, Pairwise-append_left xs ys h.1)

  pub Pairwise-append_right : (xs ys : List A) → Pairwise R (xs ++ ys) → Pairwise R ys
  Pairwise-append_right [] ys h = h
  Pairwise-append_right (x ∷ xs) ys h = Pairwise-append_right xs ys h.1

  pub Pairwise-append_cross : (xs ys : List A) → Pairwise R (xs ++ ys) → All (λ x. All (R x) ys) xs
  Pairwise-append_cross [] ys h = tt
  Pairwise-append_cross (x ∷ xs) ys h =
      (All-append_right (R x) xs ys h.0, Pairwise-append_cross xs ys h.1)

module _ {ℓ} {A : Type ℓ} where
  pub length-append : (xs ys : List A) → length (xs ++ ys) ≡ length xs + length ys
  length-append [] ys = omega arith
  length-append (x ∷ xs) ys = omega (arith, length-append xs ys)

  pub length-update_where :
      (p : A → Bool) (f : A → A) (xs : List A) → length (update_where p f xs) ≡ length xs
  length-update_where p f [] = refl
  length-update_where p f (x ∷ xs) = ap suc (length-update_where p f xs)

module _ {A : Type 0} where
  pub Elem-append_left : (a : A) (xs ys : List A) → Elem a xs → Elem a (xs ++ ys)
  Elem-append_left a [] ys m = absurd m
  Elem-append_left a (x ∷ xs) ys (inl e) = inl e
  Elem-append_left a (x ∷ xs) ys (inr m) = inr (Elem-append_left a xs ys m)

  pub Elem-append_right : (a : A) (xs ys : List A) → Elem a ys → Elem a (xs ++ ys)
  Elem-append_right a [] ys m = m
  Elem-append_right a (x ∷ xs) ys m = inr (Elem-append_right a xs ys m)

  -- A row found is selected by the test, and stands in the table.
  pub find?-eq-some :
      (p : A → Bool) (xs : List A) (a : A) → find? p xs ≡ some a → (p a ≡ true) × Elem a xs
  find?-eq-some p [] a h = cc
  find?-eq-some p (x ∷ xs) a h = elim (Bool-cases (p x)) [
    | inl t ↦ (ground arith, inl (ground arith))
    | inr f ↦ let ih = find?-eq-some p xs a (rw f at h) in (ih.0, inr ih.1)
  ]

  -- A row that the test selects is in the selection, and nothing else is.
  pub Elem-filter :
      (p : A → Bool) (xs : List A) (a : A) → Elem a xs → p a ≡ true → Elem a (filter p xs)
  Elem-filter p [] a m t = absurd m
  Elem-filter p (x ∷ xs) a (inl e) t = rw (rw e at t) (inl e)
  Elem-filter p (x ∷ xs) a (inr m) t = elim (Bool-cases (p x)) [
    | inl y ↦ rw y (inr (Elem-filter p xs a m t))
    | inr n ↦ rw n (Elem-filter p xs a m t)
  ]

  pub filter-Elem :
      (p : A → Bool) (xs : List A) (a : A) → Elem a (filter p xs) → Elem a xs × (p a ≡ true)
  filter-Elem p [] a m = absurd m
  filter-Elem p (x ∷ xs) a m = elim (Bool-cases (p x)) [
    | inl y ↦ elim (let k : Elem a (x ∷ filter p xs) = rw y at m in k) [
      | inl e ↦ (inl e, rw e y)
      | inr r ↦ let ih = filter-Elem p xs a r in (inr ih.0, ih.1)
    ]
    | inr n ↦ let ih = filter-Elem p xs a (rw n at m) in (inr ih.0, ih.1)
  ]

  pub append-eq-nil : (xs ys : List A) → xs ++ ys ≡ [] → (xs ≡ []) × (ys ≡ [])
  append-eq-nil [] ys h = (refl, h)
  append-eq-nil (x ∷ xs) ys h = cc

-- A selection keeps what holds of each row, and of any two rows.
module _ {A : Type 0} (p : A → Bool) where
  pub All-filter :
      (P : A → Type 0) (xs : List A) → All (λ x. p x ≡ true → P x) xs → All P (filter p xs)
  All-filter P [] h = tt
  All-filter P (x ∷ xs) h = elim (Bool-cases (p x)) [
    | inl t ↦ rw t (h.0 t, All-filter P xs h.1)
    | inr n ↦ rw n (All-filter P xs h.1)
  ]

  pub Pairwise-filter :
      (R : A → A → Type 0) (xs : List A) → Pairwise R xs → Pairwise R (filter p xs)
  Pairwise-filter R [] h = tt
  Pairwise-filter R (x ∷ xs) h = elim (Bool-cases (p x)) [
    | inl t ↦ rw t (
      All-filter (R x) xs (All-map (R x) (λ y. p y ≡ true → R x y) xs (λ y r t. r) h.0),
      Pairwise-filter R xs h.1,
    )
    | inr n ↦ rw n (Pairwise-filter R xs h.1)
  ]

module _ {A : Type 0} (P : A → Type 0) (p : A → Bool) (f : A → A) where
  -- What holds of each row written, and of each row left, holds of the table.
  pub All-update_where :
      (xs : List A)
      → All (λ x. p x ≡ true → P (f x)) xs
      → All (λ x. p x ≡ false → P x) xs
      → All P (update_where p f xs)
  All-update_where [] h k = tt
  All-update_where (x ∷ xs) h k = (
    elim (Bool-cases (p x)) [ inl t ↦ rw t (h.0 t) | inr n ↦ rw n (k.0 n) ],
    All-update_where xs h.1 k.1,
  )

module _ {A : Type 0} where
  -- A lookup that finds nothing: the test fails on each row.
  pub find?-eq-none : (p : A → Bool) (xs : List A) → find? p xs ≡ none → All (λ x. p x ≡ false) xs
  find?-eq-none p [] h = tt
  find?-eq-none p (x ∷ xs) h = elim (Bool-cases (p x)) [
    | inl t ↦ let k : some x ≡ none = rw t at h in cc
    | inr n ↦ (n, find?-eq-none p xs (rw n at h))
  ]

  -- Rows that another test selects are found as before.
  pub find?-update_other :
      (p q : A → Bool) (m : A) (rows : List A)
      → ((x : A) → p x ≡ true → q x ≡ false)
      → q m ≡ false
      → find? q (update_where p (λ _. m) rows) ≡ find? q rows
  find?-update_other p q m [] h n = refl
  find?-update_other p q m (x ∷ rows) h n =
      let ih = find?-update_other p q m rows h n in
      elim (Bool-cases (p x)) [
        | inl t ↦ rw (t, h x t, n) ih
        | inr f ↦ elim (Bool-cases (q x)) [ inl u ↦ rw (f, u) refl | inr v ↦ rw (f, v) ih ]
      ]
