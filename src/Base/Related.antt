-- ===== src/Base/Related.antt =====
-- Two tables related row by row: what one operation does to a table.
use Prim.Native.Nat.{ℕ}
use mathlib.Core.Path.{◌≡◌, refl, sym, ap, ◌∙◌}
use mathlib.Core.Logic.{◌≢◌, ◌⊎◌, inl, inr}
use mathlib.Core.Bool.{Bool, true, false}
use mathlib.Core.List.{List, [], ◌∷◌, ◌++◌}
use coreops_platform.Base.Tests.{Bool-cases, ◌==◌, ==_iff}
use coreops_platform.Base.Lists.{All, Pairwise, Elem, All-Elem, All-of_Elem, update_where}

abbrev pub Pointwise : {A B : Type 0} → (A → B → Type 0) → List A → List B → Type 0
Pointwise R [] [] = Unit
Pointwise R [] (y ∷ ys) = ⊥
Pointwise R (x ∷ xs) [] = ⊥
Pointwise R (x ∷ xs) (y ∷ ys) = R x y × Pointwise R xs ys

module _ {A B : Type 0} (R : A → B → Type 0) where
  pub Pointwise-append :
      (xs ys : List A) (us vs : List B)
      → Pointwise R xs us
      → Pointwise R ys vs
      → Pointwise R (xs ++ ys) (us ++ vs)
  Pointwise-append [] ys [] vs h k = k
  Pointwise-append [] ys (u ∷ us) vs h k = absurd h
  Pointwise-append (x ∷ xs) ys [] vs h k = absurd h
  Pointwise-append (x ∷ xs) ys (u ∷ us) vs h k = (h.0, Pointwise-append xs ys us vs h.1 k)

module _ {A B : Type 0} (R : A → B → Type 0) (P : A → Type 0) (Q : B → Type 0) where
  -- A predicate that each row keeps holds of the whole table after the operation.
  pub All-Pointwise :
      ((x : A) (y : B) → R x y → P x → Q y)
      → (xs : List A) (ys : List B) → Pointwise R xs ys
      → All P xs
      → All Q ys
  All-Pointwise keep [] [] h a = tt
  All-Pointwise keep [] (y ∷ ys) h a = absurd h
  All-Pointwise keep (x ∷ xs) [] h a = absurd h
  All-Pointwise keep (x ∷ xs) (y ∷ ys) h a = (keep x y h.0 a.0, All-Pointwise keep xs ys h.1 a.1)

module _ {A : Type 0} (R : A → A → Type 0) where
  -- So does a relation between any two rows.
  pub Pairwise-Pointwise :
      (S : A → A → Type 0)
      → ((x y u v : A) → R x u → R y v → S x y → S u v)
      → (xs us : List A) → Pointwise R xs us
      → Pairwise S xs
      → Pairwise S us
  Pairwise-Pointwise S keep [] [] h p = tt
  Pairwise-Pointwise S keep [] (u ∷ us) h p = absurd h
  Pairwise-Pointwise S keep (x ∷ xs) [] h p = absurd h
  Pairwise-Pointwise S keep (x ∷ xs) (u ∷ us) h p = (
    All-Pointwise R (S x) (S u) (λ y v r s. keep x y u v h.0 r s) xs us h.1 p.0,
    Pairwise-Pointwise S keep xs us h.1 p.1,
  )

  pub Pointwise-trans :
      ((x y z : A) → R x y → R y z → R x z)
      → (xs ys zs : List A) → Pointwise R xs ys
      → Pointwise R ys zs
      → Pointwise R xs zs
  Pointwise-trans t [] [] [] h k = tt
  Pointwise-trans t [] [] (z ∷ zs) h k = absurd k
  Pointwise-trans t [] (y ∷ ys) zs h k = absurd h
  Pointwise-trans t (x ∷ xs) [] zs h k = absurd h
  Pointwise-trans t (x ∷ xs) (y ∷ ys) [] h k = absurd k
  Pointwise-trans t (x ∷ xs) (y ∷ ys) (z ∷ zs) h k =
      (t x y z h.0 k.0, Pointwise-trans t xs ys zs h.1 k.1)

  pub Pointwise-refl : ((x : A) → R x x) → (xs : List A) → Pointwise R xs xs
  Pointwise-refl r [] = tt
  Pointwise-refl r (x ∷ xs) = (r x, Pointwise-refl r xs)

  -- An update of the selected rows, where the relation holds of each row so changed.
  pub Pointwise-update_where :
      ((x : A) → R x x)
      → (p : A → Bool) (f : A → A) (xs : List A) → All (λ x. p x ≡ true → R x (f x)) xs
      → Pointwise R xs (update_where p f xs)
  Pointwise-update_where r p f [] h = tt
  Pointwise-update_where r p f (x ∷ xs) h = (
    elim (Bool-cases (p x)) [ inl t ↦ rw t (h.0 t) | inr n ↦ rw n (r x) ],
    Pointwise-update_where r p f xs h.1,
  )

module _ {A : Type 0} (p : A → Bool) (f : A → A) where
  -- A row after the update is an updated row, or an old row that was not selected.
  pub Elem-update_where :
      (a : A) (xs : List A)
      → Elem a (update_where p f xs)
      → ((x : A) × Elem x xs × (p x ≡ true) × (a ≡ f x)) ⊎ (Elem a xs × (p a ≡ false))
  Elem-update_where a [] m = absurd m
  Elem-update_where a (x ∷ xs) (inl e) = elim (Bool-cases (p x)) [
    | inl t ↦ inl (x, inl refl, t, rw t at e)
    | inr n ↦ let k : a ≡ x = rw n at e in inr (inl k, rw k n)
  ]
  Elem-update_where a (x ∷ xs) (inr m) = elim (Elem-update_where a xs m) [
    | inl (y, my, ty, ey) ↦ inl (y, inr my, ty, ey)
    | inr (ma, na) ↦ inr (inr ma, na)
  ]

-- In a table whose keys are distinct, two rows of one key are one row.
module _ {A B : Type 0} (key : A → B) where
  pub same_by_key :
      (a x : A) (xs : List A)
      → Pairwise (λ u v. key u ≢ key v) xs
      → Elem a xs
      → Elem x xs
      → key x ≡ key a
      → x ≡ a
  same_by_key a x [] u ma mx e = absurd ma
  same_by_key a x (y ∷ ys) u ma mx e = pick (λ p q. same_by_key a x ys u.1 p q e) ma mx
    where
      distinct : (b : A) → Elem b ys → key y ≢ key b
      distinct b m = All-Elem (λ v. key y ≢ key v) b ys u.0 m

      pick : (Elem a ys → Elem x ys → x ≡ a) → Elem a (y ∷ ys) → Elem x (y ∷ ys) → x ≡ a
      pick ih (inl p) (inl q) = q ∙ sym p
      pick ih (inl p) (inr q) = absurd (distinct x q (ap key (sym p) ∙ sym e))
      pick ih (inr p) (inl q) = absurd (distinct a p (ap key (sym q) ∙ e))
      pick ih (inr p) (inr q) = ih p q

module _ {A : Type 0} (key : A → ℕ) where
  -- A row written back by its key leaves the keys distinct.
  pub Pairwise-saved :
      (a : A) (xs : List A)
      → Pairwise (λ u v. key u ≢ key v) xs
      → Pairwise (λ u v. key u ≢ key v) (update_where (λ x. key x == key a) (λ _. a) xs)
  Pairwise-saved a xs h =
      Pairwise-Pointwise (λ x y. key y ≡ key x) (λ x y. key x ≢ key y)
        (λ x y u v r s d. rw r (rw s d)) xs (update_where (λ x. key x == key a) (λ _. a) xs)
        (Pointwise-update_where (λ x y. key y ≡ key x) (λ x. refl) (λ x. key x == key a) (λ _. a) xs
          (All-of_Elem (λ x. (key x == key a) ≡ true → key a ≡ key x) xs
            (λ x mx e. sym ((==_iff (key x) (key a)).0 e))))
        h
