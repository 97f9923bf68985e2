-- ===== src/Booking/Availability.antt =====
-- backend/app/modules/booking/service/availability.py: the check of a cart against the territory, the
-- objects and the items that block them.
use coreops_platform.Base.{
  ℕ, Bool, not, ◌&&◌, Option, none, some, List, [], ◌∷◌, ◌++◌, map, Result, ok, err, ◌>>=◌, ◌>>◌,
  raise_if, or_raise, ltb, is_empty, if◌then◌else◌,
}
use coreops_platform.Base.Dict.{Dict, lookup, from_rows}
use coreops_platform.Platform.{CoreError}
use coreops_platform.Platform.Guard.{assert_enabled}
use coreops_platform.Booking.Model.{
  Territory, BookableObject, Item, Order, Store, StayRequest, AvailabilityCart, StayInterval,
  Conflict, Reason, empty_cart, territory_not_found, territory_not_active, object_not_found,
  object_not_available, too_short, AvailabilityResult, BookingError, core, not_available,
  validation_error, ZoneRules,
}
use coreops_platform.Booking.Timezone.{build_item_interval}
use coreops_platform.Booking.Repository.{
  get_territory, list_objects_for_territory, find_overlapping_items, territory_is_bookable,
  object_is_bookable,
}

-- A core exception, passed on.
abbrev pub lift : {A : Type 0} → Result CoreError A → Result BookingError A
lift (ok a) = ok a
lift (err e) = err (core e)

abbrev pub is_available : AvailabilityResult → Bool
is_available r = is_empty r.conflicts && is_empty r.validation_errors

abbrev pub no_result : AvailabilityResult
no_result = record { intervals = []; conflicts = []; validation_errors = [] }

abbrev pub add_error : Reason → AvailabilityResult → AvailabilityResult
add_error e r = record r { validation_errors = r.validation_errors ++ e ∷ [] }

abbrev pub conflict_with : StayInterval → Order × Item → Conflict
conflict_with v (o, i) = record {
  bookable_object_id = v.bookable_object_id;
  requested_check_in_at = v.check_in_at;
  requested_check_out_at = v.check_out_at;
  conflicting_item_id = i.id;
  conflicting_order_id = o.id;
  conflicting_order_status = o.status;
}

abbrev pub object_ids_of : List StayRequest → List ℕ
object_ids_of [] = []
object_ids_of (r ∷ rs) = r.bookable_object_id ∷ object_ids_of rs

-- `{obj.id: obj for obj in ...}`
unfoldable pub objects_by_id : Store → ℕ → ℕ → List ℕ → Dict BookableObject
objects_by_id s tenant_id territory_id object_ids =
    from_rows (λ (o : BookableObject). o.id) []
      (list_objects_for_territory s tenant_id territory_id object_ids)

-- The interval is long enough: it is resolved, and each overlapping item is a conflict.
unfoldable pub add_interval :
    Store → Option ℕ → ℕ → StayInterval → AvailabilityResult → AvailabilityResult
add_interval s exclude_order_id now v r =
    let overlapping =
      find_overlapping_items s v.bookable_object_id v.check_in_at v.check_out_at now
        exclude_order_id in
    record r {
      intervals = r.intervals ++ v ∷ [];
      conflicts = r.conflicts ++ map (conflict_with v) overlapping;
    }

module _ (zone : ZoneRules) (tenant_id : ℕ) where
  unfoldable pub check_interval :
      Store
      → Territory
      → Option ℕ
      → ℕ
      → BookableObject
      → StayRequest
      → AvailabilityResult
      → Result BookingError AvailabilityResult
  check_interval s t exclude_order_id now o stay r = do
    v ← build_item_interval zone t o stay.check_in_date stay.check_out_date
    ok (
        if ltb v.nights t.min_stay_nights
        then add_error (too_short o.code t.min_stay_nights) r
        else add_interval s exclude_order_id now v r)

  -- One round of the loop; `continue` returns the result with one more error.
  unfoldable pub check_stay_request :
      Store
      → Territory
      → Dict BookableObject
      → Option ℕ
      → ℕ
      → StayRequest
      → AvailabilityResult
      → Result BookingError AvailabilityResult
  check_stay_request s t objects exclude_order_id now stay r =
      elim (lookup stay.bookable_object_id objects) [
        | none ↦ ok (add_error (object_not_found stay.bookable_object_id) r)
        | some o ↦
            if object_is_bookable o
            then check_interval s t exclude_order_id now o stay r
            else ok (add_error (object_not_available o.code) r)
      ]

  unfoldable pub check_stays :
      Store
      → Territory
      → Dict BookableObject
      → Option ℕ
      → ℕ
      → List StayRequest
      → AvailabilityResult
      → Result BookingError AvailabilityResult
  check_stays s t objects exclude_order_id now [] r = ok r
  check_stays s t objects exclude_order_id now (stay ∷ stays) r =
      check_stay_request s t objects exclude_order_id now stay r
      >>= check_stays s t objects exclude_order_id now stays

  unfoldable pub check_cart :
      Store → AvailabilityCart → Option ℕ → ℕ → Result BookingError AvailabilityResult
  check_cart s cart exclude_order_id now = do
    lift (assert_enabled s.platform tenant_id "booking")
    raise_if (is_empty cart.items) (validation_error (empty_cart ∷ []))
    t ←
        or_raise (get_territory s tenant_id cart.territory_id)
          (validation_error (territory_not_found cart.territory_id ∷ []))
    let objects = objects_by_id s tenant_id cart.territory_id (object_ids_of cart.items)
    let checked = check_stays s t objects exclude_order_id now cart.items no_result
    if territory_is_bookable t then checked else ok (add_error territory_not_active no_result)

  unfoldable pub intervals_or_raise : AvailabilityResult → Result BookingError (List StayInterval)
  intervals_or_raise r = do
    raise_if (not (is_empty r.validation_errors)) (validation_error r.validation_errors)
    raise_if (not (is_empty r.conflicts)) (not_available r.conflicts)
    ok r.intervals

  unfoldable pub assert_cart_available :
      Store → AvailabilityCart → Option ℕ → ℕ → Result BookingError (List StayInterval)
  assert_cart_available s cart exclude_order_id now =
      check_cart s cart exclude_order_id now >>= intervals_or_raise

  unfoldable pub check_stay :
      Store
      → Territory
      → BookableObject
      → StayRequest
      → Option ℕ
      → ℕ
      → Result BookingError AvailabilityResult
  check_stay s t o stay exclude_order_id now =
      check_cart s (record { territory_id = t.id; items = stay ∷ [] }) exclude_order_id now
