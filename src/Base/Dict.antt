-- ===== src/Base/Dict.antt =====
-- Python's `dict` with numeric keys, in insertion order: a later write to a key replaces the value.
use Prim.Native.Nat.{ℕ}
use mathlib.Core.Path.{◌≡◌, ap, subst}
use mathlib.Core.Logic.{◌⊎◌, inl, inr}
use mathlib.Core.Bool.{true}
use mathlib.Core.Option.{Option, none, some}
use mathlib.Core.List.{List, [], ◌∷◌}
use native.Mathlib.Omega.{arith}
use coreops_platform.Base.Tests.{◌==◌, if◌then◌else◌, Bool-cases, is_some}
use coreops_platform.Base.Lists.{All}

abbrev pub Dict {ℓ} : Type ℓ → Type ℓ
Dict V = List (ℕ × V)

module _ {ℓ} {V : Type ℓ} where
  -- `entries.get(key)`
  abbrev pub lookup : ℕ → Dict V → Option V
  lookup key [] = none
  lookup key (entry ∷ entries) =
      let further = lookup key entries in if key == entry.0 then some entry.1 else further

  -- `entries[key] = value`
  abbrev pub insert : ℕ → V → Dict V → Dict V
  insert key value [] = (key, value) ∷ []
  insert key value (entry ∷ entries) =
      let further = insert key value entries in
      if key == entry.0 then (key, value) ∷ entries else entry ∷ further

  pub lookup-insert :
      (key other : ℕ) (value : V) (entries : Dict V)
      → lookup other (insert key value entries)
        ≡ (if key == other then some value else lookup other entries)
  lookup-insert key other value [] = ground arith
  lookup-insert key other value (entry ∷ entries) =
      ground (arith, lookup-insert key other value entries)

  -- `{key(v): v for v in rows}`
  abbrev pub from_rows : (V → ℕ) → Dict V → List V → Dict V
  from_rows key d [] = d
  from_rows key d (v ∷ vs) = from_rows key (insert (key v) v d) vs

module _ {V : Type 0} (key : V → ℕ) (P : V → Type 0) where
  abbrev IsKeyed : Dict V → Type 0
  IsKeyed d = (k : ℕ) (v : V) → lookup k d ≡ some v → (key v ≡ k) × P v

  from_rows-IsKeyed :
      (d : Dict V) (vs : List V) → All P vs → IsKeyed d → IsKeyed (from_rows key d vs)
  from_rows-IsKeyed d [] a h = h
  from_rows-IsKeyed d (v ∷ vs) a h = from_rows-IsKeyed (insert (key v) v d) vs a.1 (λ k w e.
      elim (Bool-cases (key v == k)) [
        | inl t ↦
            let same : v ≡ w = ground (arith, lookup-insert (key v) k v d) in
            (ground (arith, ap key same), subst P same a.0)
        | inr n ↦ h k w (ground (arith, lookup-insert (key v) k v d))
      ])

  -- A value found in a dictionary of rows stands under its own key, and is one of the rows.
  pub lookup-from_rows :
      (vs : List V) (k : ℕ) (v : V)
      → All P vs
      → lookup k (from_rows key [] vs) ≡ some v
      → (key v ≡ k) × P v
  lookup-from_rows vs k v a h = from_rows-IsKeyed [] vs a (λ j w e. cc) k v h

module _ {V : Type 0} (key : V → ℕ) where
  abbrev HasKey : ℕ → Dict V → Type 0
  HasKey k d = is_some (lookup k d) ≡ true

  from_rows-HasKey : (k : ℕ) (d : Dict V) (vs : List V) → HasKey k d → HasKey k (from_rows key d vs)
  from_rows-HasKey k d [] h = h
  from_rows-HasKey k d (v ∷ vs) h =
      from_rows-HasKey k (insert (key v) v d) vs (ground (arith, lookup-insert (key v) k v d))

  abbrev pub HasRow : ℕ → List V → Type 0
  HasRow k [] = ⊥
  HasRow k (v ∷ vs) = (key v ≡ k) ⊎ HasRow k vs

  -- The key of a row is found.
  pub from_rows_found :
      (k : ℕ) (d : Dict V) (vs : List V)
      → HasRow k vs
      → is_some (lookup k (from_rows key d vs)) ≡ true
  from_rows_found k d [] h = absurd h
  from_rows_found k d (v ∷ vs) (inl e) =
      from_rows-HasKey k (insert (key v) v d) vs (ground (arith, lookup-insert (key v) k v d))
  from_rows_found k d (v ∷ vs) (inr h) = from_rows_found k (insert (key v) v d) vs h
