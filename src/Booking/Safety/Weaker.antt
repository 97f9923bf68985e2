-- ===== src/Booking/Safety/Weaker.antt =====
-- An order after a change that gives reservations up and takes none: such changes keep the tables
-- consistent.
use coreops_platform.Base.{
  ◌≡◌, refl, sym, subst, ◌∙◌, true, List, [], ◌∷◌, Pairwise, Pointwise, Pointwise-append,
  All-Pointwise, Pairwise-Pointwise, Pointwise-trans, Pointwise-refl, Pointwise-update_where, Elem,
  ◌==◌, ==_iff, All-of_Elem, same_by_key,
}
use coreops_platform.Booking.Model.{Item, Order, Store}
use coreops_platform.Booking.Repository.{with_order, joined, save_order}
use coreops_platform.Booking.Safety.Defs.{
  reserves, Compatible, IsPlaced, HoldExpires, DistinctIds, IsConsistent,
}

-- The same stay, and still a reservation only if it was one.
pub record WeakerRow (a b : Order × Item) : Type 0 where
  pub same_object : b.1.bookable_object_id ≡ a.1.bookable_object_id
  pub same_in : b.1.check_in_at ≡ a.1.check_in_at
  pub same_out : b.1.check_out_at ≡ a.1.check_out_at
  pub same_tenant : b.0.tenant_id ≡ a.0.tenant_id
  pub same_territory : b.0.territory_id ≡ a.0.territory_id
  pub no_new : reserves b ≡ true → reserves a ≡ true

pub record Weaker (a b : Order) : Type 0 where
  pub same_id : b.id ≡ a.id
  pub keeps_expiry : HoldExpires a → HoldExpires b
  pub rows : Pointwise WeakerRow (with_order a a.items) (with_order b b.items)

WeakerRow-refl : (a : Order × Item) → WeakerRow a a
WeakerRow-refl a = record {
  same_object = refl;
  same_in = refl;
  same_out = refl;
  same_tenant = refl;
  same_territory = refl;
  no_new = λ h. h;
}

WeakerRow-trans : (a b c : Order × Item) → WeakerRow a b → WeakerRow b c → WeakerRow a c
WeakerRow-trans a b c h k = record {
  same_object = k.same_object ∙ h.same_object;
  same_in = k.same_in ∙ h.same_in;
  same_out = k.same_out ∙ h.same_out;
  same_tenant = k.same_tenant ∙ h.same_tenant;
  same_territory = k.same_territory ∙ h.same_territory;
  no_new = λ r. h.no_new (k.no_new r);
}

pub Weaker-refl : (a : Order) → Weaker a a
Weaker-refl a = record {
  same_id = refl;
  keeps_expiry = λ h. h;
  rows = Pointwise-refl WeakerRow WeakerRow-refl (with_order a a.items);
}

pub Weaker-trans : (a b c : Order) → Weaker a b → Weaker b c → Weaker a c
Weaker-trans a b c h k = record {
  same_id = k.same_id ∙ h.same_id;
  keeps_expiry = λ e. k.keeps_expiry (h.keeps_expiry e);
  rows =
      Pointwise-trans WeakerRow WeakerRow-trans (with_order a a.items) (with_order b b.items)
        (with_order c c.items) h.rows k.rows;
}

Compatible-WeakerRow :
    (x y u v : Order × Item) → WeakerRow x u → WeakerRow y v → Compatible x y → Compatible u v
Compatible-WeakerRow x y u v h k c ru rv same =
    rw (h.same_in, h.same_out, k.same_in, k.same_out)
      (c (h.no_new ru) (k.no_new rv) (sym h.same_object ∙ same ∙ k.same_object))

joined-Pointwise :
    (xs ys : List Order) → Pointwise Weaker xs ys → Pointwise WeakerRow (joined xs) (joined ys)
joined-Pointwise [] [] h = tt
joined-Pointwise [] (y ∷ ys) h = absurd h
joined-Pointwise (x ∷ xs) [] h = absurd h
joined-Pointwise (x ∷ xs) (y ∷ ys) h =
    Pointwise-append WeakerRow (with_order x x.items) (joined xs) (with_order y y.items) (joined ys)
      h.0.rows (joined-Pointwise xs ys h.1)

IsPlaced-WeakerRow :
    (s : Store) (a b : Order × Item) → WeakerRow a b → IsPlaced s.objects a → IsPlaced s.objects b
IsPlaced-WeakerRow s a b h p x m e =
    let found = p x m (e ∙ h.same_object) in
    (found.0 ∙ sym h.same_tenant, found.1 ∙ sym h.same_territory)

DistinctIds-Weaker : (x y u v : Order) → Weaker x u → Weaker y v → DistinctIds x y → DistinctIds u v
DistinctIds-Weaker x y u v h k d e = d (sym h.same_id ∙ e ∙ k.same_id)

-- A store whose orders are all weaker is consistent again.
pub Weaker-IsConsistent :
    (s t : Store)
    → t.objects ≡ s.objects
    → Pointwise Weaker s.orders t.orders
    → IsConsistent s
    → IsConsistent t
Weaker-IsConsistent s t same w c = record {
  no_double =
      Pairwise-Pointwise WeakerRow Compatible Compatible-WeakerRow (joined s.orders)
        (joined t.orders) rows c.no_double;
  hold_expires =
      All-Pointwise Weaker HoldExpires HoldExpires (λ x y h. h.keeps_expiry) s.orders t.orders w
        c.hold_expires;
  placed = rw same (
      All-Pointwise WeakerRow (IsPlaced s.objects) (IsPlaced s.objects) (IsPlaced-WeakerRow s)
        (joined s.orders) (joined t.orders) rows c.placed);
  unique_objects = rw same c.unique_objects;
  unique_ids =
      Pairwise-Pointwise Weaker DistinctIds DistinctIds-Weaker s.orders t.orders w c.unique_ids;
}
  where
    rows : Pointwise WeakerRow (joined s.orders) (joined t.orders)
    rows = joined-Pointwise s.orders t.orders w

-- Writing back a weaker version of a row of the table makes the table weaker.
pub save_order-Weaker :
    (a b : Order) (s : Store)
    → Pairwise DistinctIds s.orders
    → Elem a s.orders
    → Weaker a b
    → Pointwise Weaker s.orders (save_order b s).orders
unfolding save_order
save_order-Weaker a b s u m w =
    Pointwise-update_where Weaker Weaker-refl (λ x. x.id == b.id) (λ _. b) s.orders
      (All-of_Elem (λ x. (x.id == b.id) ≡ true → Weaker x b) s.orders
        (λ x mx t.
          let e : x.id ≡ a.id = (==_iff x.id b.id).0 t ∙ w.same_id in
          subst (λ y. Weaker y b) (sym (same_by_key (λ (o : Order). o.id) a x s.orders u m mx e))
            w))
