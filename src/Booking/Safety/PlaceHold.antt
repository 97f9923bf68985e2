-- ===== src/Booking/Safety/PlaceHold.antt =====
-- `create_hold` of backend/app/modules/booking/service/hold.py keeps the tables consistent.
use coreops_platform.Base.{
  ℕ, suc, ◌≡◌, ◌≢◌, refl, sym, subst, ◌∙◌, true, ◌&&◌, none, some, List, [], ◌∷◌, arith, All,
  Pairwise, Pointwise, Elem, All-of_Elem, All-filter, All-Pointwise, ◌==◌, ok, >>=-eq-ok,
  or_raise-eq-ok, or_raise,
}
use coreops_platform.Base.Int.{ℤ, ◌+ℤ◌, ◌*ℕ◌, sum, int_laws}
use coreops_platform.Base.Dict.{Dict, lookup, from_rows, lookup-from_rows}
use coreops_platform.Booking.Model.{
  BookableObject, Item, Store, StayRequest, StayInterval, key_error,
}
use coreops_platform.Booking.Repository.{id_in, list_objects_for_territory, find_overlapping_items}
use coreops_platform.Booking.Availability.{objects_by_id}
use coreops_platform.Booking.Hold.{new_item, build_items}
use coreops_platform.Booking.Safety.NewHold.{IsFree, DistinctItems}

-- No object is in the cart twice.
abbrev pub DistinctStays : StayRequest → StayRequest → Type 0
DistinctStays a b = a.bookable_object_id ≢ b.bookable_object_id

-- An interval is that of an object of which nothing overlaps it.
abbrev IsClear : Store → ℕ → StayInterval → Type 0
IsClear s now v =
    find_overlapping_items s v.bookable_object_id v.check_in_at v.check_out_at now none ≡ []

-- An object that the query for the territory returned.
abbrev IsLocal : ℕ → ℕ → Store → BookableObject → Type 0
IsLocal tenant_id territory_id s o =
    Elem o s.objects × (o.tenant_id ≡ tenant_id) × (o.territory_id ≡ territory_id)

-- An item as the loop writes it.
pub record IsBuilt (tenant_id : ℕ) (intervals : Dict StayInterval) (objects : Dict BookableObject)
    (stay : StayRequest) (i : Item) : Type 0 where
  pub interval : StayInterval
  pub object : BookableObject
  pub id : ℕ
  pub interval_found : lookup stay.bookable_object_id intervals ≡ some interval
  pub object_found : lookup stay.bookable_object_id objects ≡ some object
  pub item_is : i ≡ new_item id tenant_id object interval

abbrev pub line_totals : List Item → List ℤ
line_totals [] = []
line_totals (i ∷ is) = i.line_total ∷ line_totals is

module _ (ids : ℕ → ℕ) (tenant_id : ℕ) (intervals : Dict StayInterval)
    (objects : Dict BookableObject) where
  -- The loop writes one item for each stay, and adds the lines up.
  pub build_items_sound :
      (n : ℕ) (stays : List StayRequest) (subtotal : ℤ) (r : List Item × ℤ)
      → build_items ids n tenant_id intervals objects stays subtotal ≡ ok r
      → Pointwise (IsBuilt tenant_id intervals objects) stays r.0
        × (r.1 ≡ subtotal +ℤ sum (line_totals r.0))
  unfolding build_items new_item
  build_items_sound n [] subtotal r h =
      let e : r ≡ ([], subtotal) = cc h in
      subst
        (λ (q : List Item × ℤ).
          Pointwise (IsBuilt tenant_id intervals objects) [] q.0
          × (q.1 ≡ subtotal +ℤ sum (line_totals q.0)))
        (sym e) (tt, omega int_laws)
  build_items_sound n (stay ∷ stays) subtotal r h =
      let (v, fv, h1) =
        >>=-eq-ok (or_raise (lookup stay.bookable_object_id intervals) key_error) _ h in
      let (o, fo, h2) =
        >>=-eq-ok (or_raise (lookup stay.bookable_object_id objects) key_error) _ h1 in
      let (q, rest, done) =
        >>=-eq-ok
          (build_items ids (suc n) tenant_id intervals objects stays
            (subtotal +ℤ o.base_price *ℕ v.nights))
          _ h2 in
      let (built, total) =
        build_items_sound (suc n) stays (subtotal +ℤ o.base_price *ℕ v.nights) q rest in
      let e : r ≡ (new_item (ids n) tenant_id o v ∷ q.0, q.1) = cc done in
      let first : IsBuilt tenant_id intervals objects stay (new_item (ids n) tenant_id o v) =
        record {
          interval = v;
          object = o;
          id = ids n;
          interval_found = or_raise-eq-ok _ _ fv;
          object_found = or_raise-eq-ok _ _ fo;
          item_is = refl;
        } in
      subst
        (λ (p : List Item × ℤ).
          Pointwise (IsBuilt tenant_id intervals objects) (stay ∷ stays) p.0
          × (p.1 ≡ subtotal +ℤ sum (line_totals p.0)))
        (sym e) ((first, built), rw total (omega int_laws))

module _ (tenant_id territory_id now : ℕ) (s : Store) where
  -- The rows of the query are objects of the territory.
  rows-IsLocal :
      (ids : List ℕ)
      → All
          (IsLocal tenant_id territory_id s)
          (list_objects_for_territory s tenant_id territory_id ids)
  unfolding list_objects_for_territory
  rows-IsLocal ids =
      All-filter
        (λ (o : BookableObject).
          o.tenant_id == tenant_id && o.territory_id == territory_id && id_in o.id ids)
        (IsLocal tenant_id territory_id s) s.objects
        (All-of_Elem
          (λ (o : BookableObject).
            (o.tenant_id == tenant_id && o.territory_id == territory_id && id_in o.id ids) ≡ true
            → IsLocal tenant_id territory_id s o)
          s.objects (λ o m t. (m, ground (arith, t), ground (arith, t))))

  -- An item written from clear intervals and local objects is free.
  built-IsFree :
      (vs : List StayInterval) (ids : List ℕ) (stay : StayRequest) (i : Item)
      → All (IsClear s now) vs
      → IsBuilt tenant_id
          (from_rows (λ (v : StayInterval). v.bookable_object_id) [] vs)
          (objects_by_id s tenant_id territory_id ids)
          stay
          i
      → IsFree tenant_id territory_id now s i × (i.bookable_object_id ≡ stay.bookable_object_id)
  unfolding objects_by_id new_item
  built-IsFree vs ids stay i clear b =
      let v =
        lookup-from_rows (λ (v : StayInterval). v.bookable_object_id) (IsClear s now) vs
          stay.bookable_object_id b.interval clear b.interval_found in
      let o =
        lookup-from_rows (λ (o : BookableObject). o.id) (IsLocal tenant_id territory_id s)
          (list_objects_for_territory s tenant_id territory_id ids) stay.bookable_object_id b.object
          (rows-IsLocal ids) b.object_found in
      let same : b.interval.bookable_object_id ≡ b.object.id = v.0 ∙ sym o.0 in
      subst
        (λ (j : Item).
          IsFree tenant_id territory_id now s j × (j.bookable_object_id ≡ stay.bookable_object_id))
        (sym b.item_is)
        (
          record {
            object = b.object;
            in_table = o.1.0;
            tenant_matches = o.1.1;
            territory_matches = o.1.2;
            object_matches = refl;
            clear =
                subst
                  (λ (k : ℕ).
                    find_overlapping_items s k b.interval.check_in_at b.interval.check_out_at now
                      none
                    ≡ [])
                  same v.1;
          },
          o.0,
        )

  -- So the items of a cart with distinct objects are free and of distinct objects.
  pub items-IsFree :
      (vs : List StayInterval) (ids : List ℕ) (stays : List StayRequest) (is : List Item)
      → All (IsClear s now) vs
      → Pointwise
          (IsBuilt tenant_id
            (from_rows (λ (v : StayInterval). v.bookable_object_id) [] vs)
            (objects_by_id s tenant_id territory_id ids))
          stays
          is
      → All (IsFree tenant_id territory_id now s) is
  items-IsFree vs ids [] [] clear b = tt
  items-IsFree vs ids [] (i ∷ is) clear b = absurd b
  items-IsFree vs ids (stay ∷ stays) [] clear b = absurd b
  items-IsFree vs ids (stay ∷ stays) (i ∷ is) clear b =
      ((built-IsFree vs ids stay i clear b.0).0, items-IsFree vs ids stays is clear b.1)

  pub items_objects :
      (vs : List StayInterval) (ids : List ℕ) (stays : List StayRequest) (is : List Item)
      → All (IsClear s now) vs
      → Pointwise
          (IsBuilt tenant_id
            (from_rows (λ (v : StayInterval). v.bookable_object_id) [] vs)
            (objects_by_id s tenant_id territory_id ids))
          stays
          is
      → Pointwise
          (λ (stay : StayRequest) (i : Item). i.bookable_object_id ≡ stay.bookable_object_id)
          stays
          is
  items_objects vs ids [] [] clear b = tt
  items_objects vs ids [] (i ∷ is) clear b = absurd b
  items_objects vs ids (stay ∷ stays) [] clear b = absurd b
  items_objects vs ids (stay ∷ stays) (i ∷ is) clear b =
      ((built-IsFree vs ids stay i clear b.0).1, items_objects vs ids stays is clear b.1)

pub distinct_items :
    (stays : List StayRequest) (is : List Item)
    → Pointwise
        (λ (stay : StayRequest) (i : Item). i.bookable_object_id ≡ stay.bookable_object_id)
        stays
        is
    → Pairwise DistinctStays stays
    → Pairwise DistinctItems is
distinct_items [] [] h d = tt
distinct_items [] (i ∷ is) h d = absurd h
distinct_items (stay ∷ stays) [] h d = absurd h
distinct_items (stay ∷ stays) (i ∷ is) h d = (
  All-Pointwise (λ (a : StayRequest) (j : Item). j.bookable_object_id ≡ a.bookable_object_id)
      (DistinctStays stay) (DistinctItems i) (λ a j e n q. n (sym h.0 ∙ q ∙ e)) stays is h.1 d.0,
  distinct_items stays is h.1 d.1,
)
