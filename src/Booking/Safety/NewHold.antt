-- ===== src/Booking/Safety/NewHold.antt =====
-- A new hold of backend/app/modules/booking/service/hold.py overlaps no reservation.
use coreops_platform.Base.{
  ℕ, ◌≡◌, ◌≢◌, refl, sym, subst, ◌∙◌, ap, true, false, none, some, List, [], ◌∷◌, ◌++◌, arith, All,
  Pairwise, Elem, All-Elem, All-of_Elem, All-map, All-append, Pairwise-append, Elem-filter, filter,
  same_by_key, ◌⊎◌, inl, inr, Bool-cases, append-nil, append_assoc,
}
use coreops_platform.Booking.Model.{BookableObject, Item, Order, Store}
use coreops_platform.Booking.Timezone.{intervals_overlap}
use coreops_platform.Booking.Repository.{
  is_blocking_status, is_stale, is_order_blocking, is_candidate, find_overlapping_items, with_order,
  joined,
}
use coreops_platform.Booking.Safety.Defs.{Compatible, IsPlaced, HoldExpires, IsConsistent}

-- The order of a joined row stands in the table.
Elem-with_order :
    (o : Order) (is : List Item) (row : Order × Item) → Elem row (with_order o is) → row.0 ≡ o
Elem-with_order o [] row m = absurd m
Elem-with_order o (i ∷ is) row (inl e) = ap (λ (r : Order × Item). r.0) e
Elem-with_order o (i ∷ is) row (inr m) = Elem-with_order o is row m

Elem-split :
    (xs ys : List (Order × Item)) (row : Order × Item)
    → Elem row (xs ++ ys)
    → Elem row xs ⊎ Elem row ys
Elem-split [] ys row m = inr m
Elem-split (x ∷ xs) ys row (inl e) = inl (inl e)
Elem-split (x ∷ xs) ys row (inr m) = elim (Elem-split xs ys row m) [
  | inl a ↦ inl (inr a)
  | inr b ↦ inr b
]

Elem-joined : (os : List Order) (row : Order × Item) → Elem row (joined os) → Elem row.0 os
Elem-joined [] row m = absurd m
Elem-joined (o ∷ os) row m = elim (Elem-split (with_order o o.items) (joined os) row m) [
  | inl a ↦ inl (Elem-with_order o o.items row a)
  | inr b ↦ inr (Elem-joined os row b)
]

pub joined-append : (xs ys : List Order) → joined (xs ++ ys) ≡ joined xs ++ joined ys
joined-append [] ys = refl
joined-append (x ∷ xs) ys =
    rw (joined-append xs ys) (sym (append_assoc (with_order x x.items) (joined xs) (joined ys)))

-- An item of the new order: it stands for an object of the territory, and nothing overlaps it.
pub record IsFree (tenant_id territory_id now : ℕ) (s : Store) (i : Item) : Type 0 where
  pub object : BookableObject
  pub in_table : Elem object s.objects
  pub tenant_matches : object.tenant_id ≡ tenant_id
  pub territory_matches : object.territory_id ≡ territory_id
  pub object_matches : i.bookable_object_id ≡ object.id
  pub clear :
      find_overlapping_items s i.bookable_object_id i.check_in_at i.check_out_at now none ≡ []

abbrev pub DistinctItems : Item → Item → Type 0
DistinctItems i j = i.bookable_object_id ≢ j.bookable_object_id

module _ (tenant_id territory_id now : ℕ) (s : Store) (c : IsConsistent s)
    (swept : (x : Order)
      → Elem x s.orders
      → is_stale tenant_id now (some territory_id) x ≡ false) where
  -- A reservation of the territory after the sweep blocks now.
  reserved_blocks :
      (o : Order)
      → Elem o s.orders
      → o.tenant_id ≡ tenant_id
      → o.territory_id ≡ territory_id
      → is_blocking_status o.status ≡ true
      → is_order_blocking o now ≡ true
  unfolding is_order_blocking
  reserved_blocks o m t r b =
      let h : HoldExpires o = All-Elem HoldExpires o s.orders c.hold_expires m in
      ground (arith, swept o m, h)

  -- So it does not overlap a free item of the same object.
  free-Compatible :
      (a : Order × Item) (o : Order) (i : Item)
      → Elem a (joined s.orders)
      → IsFree tenant_id territory_id now s i
      → Compatible a (o, i)
  unfolding find_overlapping_items intervals_overlap
  free-Compatible a o i m f ra rb same =
      let placed = All-Elem (IsPlaced s.objects) a (joined s.orders) c.placed m in
      let at = placed f.object f.in_table (sym f.object_matches ∙ sym same) in
      let b =
        reserved_blocks a.0 (Elem-joined s.orders a m) (sym at.0 ∙ f.tenant_matches)
          (sym at.1 ∙ f.territory_matches) (ground (arith, ra)) in
      elim (Bool-cases
        (intervals_overlap a.1.check_in_at a.1.check_out_at i.check_in_at i.check_out_at)) [
          | inl over ↦
              let cand : is_candidate i.bookable_object_id i.check_in_at i.check_out_at none a
                  ≡ true =
                ground (arith, ra, over, same) in
              let found =
                Elem-filter (λ (row : Order × Item). is_order_blocking row.0 now)
                  (filter (is_candidate i.bookable_object_id i.check_in_at i.check_out_at none)
                    (joined s.orders))
                  a
                  (Elem-filter (is_candidate i.bookable_object_id i.check_in_at i.check_out_at none)
                    (joined s.orders) a m cand)
                  b in
              absurd (subst (Elem a) f.clear found)
          | inr apart ↦ apart
        ]

  -- A free item stands for an object of the new order's tenant and territory.
  free-IsPlaced :
      (o : Order) (i : Item)
      → o.tenant_id ≡ tenant_id
      → o.territory_id ≡ territory_id
      → IsFree tenant_id territory_id now s i
      → IsPlaced s.objects (o, i)
  free-IsPlaced o i t r f x m e =
      let same : x ≡ f.object =
        same_by_key (λ (b : BookableObject). b.id) f.object x s.objects c.unique_objects f.in_table
          m (e ∙ f.object_matches) in
      (
        ap (λ (b : BookableObject). b.tenant_id) same ∙ f.tenant_matches ∙ sym t,
        ap (λ (b : BookableObject). b.territory_id) same ∙ f.territory_matches ∙ sym r,
      )

  new_rows_All :
      (P : Order × Item → Type 0) (o : Order) (is : List Item)
      → All (λ i. P (o, i)) is
      → All P (with_order o is)
  new_rows_All P o [] h = tt
  new_rows_All P o (i ∷ is) h = (h.0, new_rows_All P o is h.1)

  new_rows_apart :
      (o : Order) (is : List Item)
      → Pairwise DistinctItems is
      → Pairwise Compatible (with_order o is)
  new_rows_apart o [] h = tt
  new_rows_apart o (i ∷ is) h = (
    new_rows_All (Compatible (o, i)) o is (
        All-map (DistinctItems i) (λ j. Compatible (o, i) (o, j)) is (λ j d ra rb e. absurd (d e))
          h.0),
    new_rows_apart o is h.1,
  )

  -- Tables with one more order, whose items are free and stand for distinct objects.
  pub add_order-IsConsistent :
      (o : Order)
      → o.tenant_id ≡ tenant_id
      → o.territory_id ≡ territory_id
      → HoldExpires o
      → All (λ x. x.id ≢ o.id) s.orders
      → All (IsFree tenant_id territory_id now s) o.items
      → Pairwise DistinctItems o.items
      → IsConsistent (record s { orders = s.orders ++ o ∷ [] })
  add_order-IsConsistent o t r e fresh free apart = record {
    no_double = rw rows (
        Pairwise-append Compatible (joined s.orders) (with_order o o.items) c.no_double
          (new_rows_apart o o.items apart) cross);
    hold_expires = All-append HoldExpires s.orders (o ∷ []) c.hold_expires (e, tt);
    placed = rw rows (
        All-append (IsPlaced s.objects) (joined s.orders) (with_order o o.items) c.placed (
          new_rows_All (IsPlaced s.objects) o o.items (
            All-map (IsFree tenant_id territory_id now s) (λ i. IsPlaced s.objects (o, i)) o.items
              (λ i f. free-IsPlaced o i t r f) free)));
    unique_ids =
        Pairwise-append (λ a b. a.id ≢ b.id) s.orders (o ∷ []) c.unique_ids (tt, tt)
          (All-map (λ x. x.id ≢ o.id) (λ x. (x.id ≢ o.id) × Unit) s.orders (λ x n. (n, tt)) fresh);
    unique_objects = c.unique_objects;
  }
    where
      rows : joined (s.orders ++ o ∷ []) ≡ joined s.orders ++ with_order o o.items
      rows =
          joined-append s.orders (o ∷ [])
          ∙ ap (λ (l : List (Order × Item)). joined s.orders ++ l)
              (append-nil (with_order o o.items))

      cross : All (λ a. All (Compatible a) (with_order o o.items)) (joined s.orders)
      cross =
          All-of_Elem (λ a. All (Compatible a) (with_order o o.items)) (joined s.orders)
            (λ a m. new_rows_All (Compatible a) o o.items (
              All-map (IsFree tenant_id territory_id now s) (λ i. Compatible a (o, i)) o.items
                (λ i f. free-Compatible a o i m f) free))
