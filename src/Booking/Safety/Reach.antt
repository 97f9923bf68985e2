-- ===== src/Booking/Safety/Reach.antt =====
-- Every sequence of calls of the services of backend/app/modules/booking/service: in no reachable
-- state is an object reserved twice at one instant.
use coreops_platform.Base.{
  ℕ, ◌≤◌, ◌≡◌, ◌≢◌, refl, Bool, true, false, ◌&&◌, Option, List, [], ◌∷◌, arith, All, Pairwise,
  filter, length, ◌==◌, ltb, leb, ok, Bool-cases, inl, inr,
}
use coreops_platform.Booking.Model.{OrderStatus, Item, Order, Store, HoldCart, ZoneRules}
use coreops_platform.Booking.Timezone.{intervals_overlap}
use coreops_platform.Booking.Repository.{joined}
use coreops_platform.Booking.Orders.{
  transition, submit_for_payment, mark_paid, confirm, cancel, expire,
}
use coreops_platform.Booking.Hold.{Context, expire_stale_holds, create_hold}
use coreops_platform.Booking.Safety.Defs.{reserves, Compatible, IsConsistent}
use coreops_platform.Booking.Safety.Operations.{
  Weakened-IsConsistent, submit_for_payment-Weakened, mark_paid-Weakened, confirm-Weakened,
  cancel-Weakened, expire-Weakened, transition-Weakened,
}
use coreops_platform.Booking.Safety.Transitions.{is_target}
use coreops_platform.Booking.Safety.Sweep.{expire_stale_holds-Weakened}
use coreops_platform.Booking.Safety.PlaceHold.{DistinctStays}
use coreops_platform.Booking.Safety.CreateHold.{create_hold-IsConsistent}

-- One call of a service by a tenant at an instant. A call that raises, other than `create_hold`,
-- writes nothing. `shift` is `transition` itself, to a status other than held: an order gets that status
-- from `create_hold`, which checks that its objects are free, and `transition` does not.
pub data Step (zone : ZoneRules) (s : Store) : Store → Type 0 where
  hold :
      (c : Context) (tenant_id now : ℕ) (cart : HoldCart)
      → All (λ (o : Order). o.id ≢ c.order_id) s.orders
      → Pairwise DistinctStays cart.items
      → Step zone s (create_hold zone tenant_id c s cart now).1
  sweep :
      (tenant_id now : ℕ) (territory_id : Option ℕ) (r : List ℕ × Store)
      → expire_stale_holds tenant_id s territory_id now ≡ ok r
      → Step zone s r.1
  submit :
      (tenant_id order_id now : ℕ) (r : Order × Store)
      → submit_for_payment s tenant_id order_id now ≡ ok r
      → Step zone s r.1
  pay :
      (tenant_id order_id now : ℕ) (r : Order × Store)
      → mark_paid s tenant_id order_id now ≡ ok r
      → Step zone s r.1
  approve :
      (tenant_id order_id now : ℕ) (r : Order × Store)
      → confirm s tenant_id order_id now ≡ ok r
      → Step zone s r.1
  withdraw :
      (tenant_id order_id now : ℕ) (r : Order × Store)
      → cancel s tenant_id order_id now ≡ ok r
      → Step zone s r.1
  lapse :
      (tenant_id order_id now : ℕ) (r : Order × Store)
      → expire s tenant_id order_id now ≡ ok r
      → Step zone s r.1
  shift :
      (tenant_id order_id now : ℕ) (target : OrderStatus) (r : Order × Store)
      → is_target target ≡ true
      → transition s tenant_id order_id target now ≡ ok r
      → Step zone s r.1

pub data Reach (zone : ZoneRules) (s : Store) : Store → Type 0 where
  here : Reach zone s s
  next : {t u : Store} → Reach zone s t → Step zone t u → Reach zone s u

pub Step-IsConsistent :
    (zone : ZoneRules) (s : Store) {t : Store} → Step zone s t → IsConsistent s → IsConsistent t
Step-IsConsistent zone s (hold c tenant_id now cart fresh distinct) k =
    create_hold-IsConsistent zone c tenant_id s cart now k fresh distinct
Step-IsConsistent zone s (sweep tenant_id now territory_id r h) k =
    Weakened-IsConsistent s r.1 (expire_stale_holds-Weakened tenant_id now s territory_id r k h) k
Step-IsConsistent zone s (submit tenant_id order_id now r h) k =
    Weakened-IsConsistent s r.1 (submit_for_payment-Weakened s tenant_id order_id now k r h) k
Step-IsConsistent zone s (pay tenant_id order_id now r h) k =
    Weakened-IsConsistent s r.1 (mark_paid-Weakened s tenant_id order_id now k r h) k
Step-IsConsistent zone s (approve tenant_id order_id now r h) k =
    Weakened-IsConsistent s r.1 (confirm-Weakened s tenant_id order_id now k r h) k
Step-IsConsistent zone s (withdraw tenant_id order_id now r h) k =
    Weakened-IsConsistent s r.1 (cancel-Weakened s tenant_id order_id now k r h) k
Step-IsConsistent zone s (lapse tenant_id order_id now r h) k =
    Weakened-IsConsistent s r.1 (expire-Weakened s tenant_id order_id now k r h) k
Step-IsConsistent zone s (shift tenant_id order_id now target r t h) k =
    Weakened-IsConsistent s r.1 (transition-Weakened s tenant_id order_id now k target r t h) k

pub Reach-IsConsistent :
    (zone : ZoneRules) (s : Store) {t : Store} → IsConsistent s → Reach zone s t → IsConsistent t
Reach-IsConsistent zone s k here = k
Reach-IsConsistent zone s k (next {t = t} r st) =
    Step-IsConsistent zone t st (Reach-IsConsistent zone s k r)

-- The item reserves the object at the instant.
abbrev pub occupies : ℕ → ℕ → Order × Item → Bool
occupies object_id x row =
    reserves row
    && row.1.bookable_object_id == object_id
    && leb row.1.check_in_at x
    && ltb x row.1.check_out_at

occupied_apart :
    (object_id x : ℕ) (a b : Order × Item)
    → Compatible a b
    → occupies object_id x a ≡ true
    → occupies object_id x b ≡ false
unfolding intervals_overlap
occupied_apart object_id x a b c h = elim (Bool-cases (occupies object_id x b)) [
  | inr n ↦ n
  | inl t ↦
      let ra : reserves a ≡ true = ground arith in
      let rb : reserves b ≡ true = ground arith in
      let same : a.1.bookable_object_id ≡ b.1.bookable_object_id = ground arith in
      ground (arith, c ra rb same)
]

none_occupies :
    (object_id x : ℕ) (a : Order × Item) (rows : List (Order × Item))
    → occupies object_id x a ≡ true
    → All (Compatible a) rows
    → length (filter (occupies object_id x) rows) ≡ 0
none_occupies object_id x a [] h c = refl
none_occupies object_id x a (b ∷ rows) h c =
    rw (occupied_apart object_id x a b c.0 h) (none_occupies object_id x a rows h c.1)

at_most_one :
    (object_id x : ℕ) (rows : List (Order × Item))
    → Pairwise Compatible rows
    → length (filter (occupies object_id x) rows) ≤ 1
at_most_one object_id x [] c = omega arith
at_most_one object_id x (a ∷ rows) c = elim (Bool-cases (occupies object_id x a)) [
  | inl t ↦ rw t (omega (arith, none_occupies object_id x a rows t c.0))
  | inr n ↦ rw n (at_most_one object_id x rows c.1)
]

-- From consistent tables, whatever calls of create_hold, expire_stale_holds, submit_for_payment,
-- mark_paid, confirm, cancel, expire, and transition to a status other than held or draft are made, by
-- whichever tenants and at whatever instants, each object is reserved by at most one item at each
-- instant. The carts of the calls of create_hold name no object twice, and each new order has a fresh
-- identifier.
pub Reach-at_most_one :
    (zone : ZoneRules) (s t : Store)
    → IsConsistent s
    → Reach zone s t
    → (object_id x : ℕ) → length (filter (occupies object_id x) (joined t.orders)) ≤ 1
Reach-at_most_one zone s t k r object_id x =
    at_most_one object_id x (joined t.orders) (Reach-IsConsistent zone s k r).no_double
