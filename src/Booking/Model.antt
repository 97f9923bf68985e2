-- ===== src/Booking/Model.antt =====
-- The data of booking: backend/app/modules/booking/enums.py, exceptions.py, schemas.py and the
-- columns of models.py that the services read or write. A date is a number of days, a time of day
-- and an instant are numbers of microseconds, and money is in hundredths.
use coreops_platform.Base.{ℕ, Bool, Option, List, String}
use coreops_platform.Base.Int.{ℤ}
use coreops_platform.Platform.{CoreError, Platform}

pub data TerritoryStatus : Type 0 where
  draft active archived : TerritoryStatus

pub data ObjectStatus : Type 0 where
  active maintenance unlisted : ObjectStatus

pub data PricingUnit : Type 0 where
  per_night per_stay : PricingUnit

pub data OrderStatus : Type 0 where
  draft held pending_payment paid confirmed cancelled expired : OrderStatus

pub data OrderSource : Type 0 where
  public_web admin two_gis external : OrderSource

pub data ItemStatus : Type 0 where
  active cancelled : ItemStatus

-- `BookingTerritory`
pub record Territory : Type 0 where
  pub id : ℕ
  pub tenant_id : ℕ
  pub timezone : String
  pub currency : String
  pub default_check_in_time : ℕ
  pub default_check_out_time : ℕ
  pub hold_duration_minutes : ℕ
  pub min_stay_nights : ℕ
  pub status : TerritoryStatus

-- `BookingBookableObject`
pub record BookableObject : Type 0 where
  pub id : ℕ
  pub tenant_id : ℕ
  pub territory_id : ℕ
  pub owner_id : ℕ
  pub code : String
  pub base_price : ℤ
  pub pricing_unit : PricingUnit
  pub check_in_time : Option ℕ
  pub check_out_time : Option ℕ
  pub status : ObjectStatus

-- `BookingItem`; `booking_order_id` is the order that holds it.
pub record Item : Type 0 where
  pub id : ℕ
  pub tenant_id : ℕ
  pub bookable_object_id : ℕ
  pub check_in_date : ℕ
  pub check_out_date : ℕ
  pub check_in_at : ℕ
  pub check_out_at : ℕ
  pub nights : ℕ
  pub unit_price : ℤ
  pub line_total : ℤ
  pub owner_id : ℕ
  pub status : ItemStatus

-- An order's number as the cart gives it, or the year and the sequence number that
-- `BO-{year}-{count:05d}` prints.
pub data OrderNumber : Type 0 where
  given : String → OrderNumber
  generated : ℕ → ℕ → OrderNumber

-- `BookingOrder`
pub record Order : Type 0 where
  pub id : ℕ
  pub tenant_id : ℕ
  pub territory_id : ℕ
  pub order_number : OrderNumber
  pub guest_party_id : ℕ
  pub status : OrderStatus
  pub hold_expires_at : Option ℕ
  pub currency : String
  pub subtotal : ℤ
  pub source : OrderSource
  pub confirmed_at : Option ℕ
  pub cancelled_at : Option ℕ
  pub items : List Item

-- A row of `parties`.
pub record Party : Type 0 where
  pub id : ℕ
  pub tenant_id : ℕ

-- The tables that the booking services use.
pub record Store : Type 0 where
  pub platform : Platform
  pub parties : List Party
  pub territories : List Territory
  pub objects : List BookableObject
  pub orders : List Order

-- `BookingStayRequest`
pub record StayRequest : Type 0 where
  pub bookable_object_id : ℕ
  pub check_in_date : ℕ
  pub check_out_date : ℕ

-- `BookingAvailabilityCartInput`
pub record AvailabilityCart : Type 0 where
  pub territory_id : ℕ
  pub items : List StayRequest

-- `BookingHoldCartInput`
pub record HoldCart : Type 0 where
  pub territory_id : ℕ
  pub guest_party_id : ℕ
  pub source : OrderSource
  pub items : List StayRequest
  pub order_number : Option String

-- `ResolvedStayInterval`
pub record StayInterval : Type 0 where
  pub bookable_object_id : ℕ
  pub check_in_date : ℕ
  pub check_out_date : ℕ
  pub check_in_at : ℕ
  pub check_out_at : ℕ
  pub nights : ℕ

-- `AvailabilityConflict`
pub record Conflict : Type 0 where
  pub bookable_object_id : ℕ
  pub requested_check_in_at : ℕ
  pub requested_check_out_at : ℕ
  pub conflicting_item_id : ℕ
  pub conflicting_order_id : ℕ
  pub conflicting_order_status : OrderStatus

-- The texts of the validation errors, as values.
pub data Reason : Type 0 where
  empty_cart : Reason
  territory_not_found : ℕ → Reason
  territory_not_active : Reason
  object_not_found : ℕ → Reason
  object_not_available : String → Reason
  too_short : String → ℕ → Reason
  objects_not_found : Reason

-- `BookingAvailabilityResult`
pub record AvailabilityResult : Type 0 where
  pub intervals : List StayInterval
  pub conflicts : List Conflict
  pub validation_errors : List Reason

-- `BookingError`, the core exceptions that the services pass on, and Python's own
-- `ValueError` and `KeyError`.
pub data BookingError : Type 0 where
  core : CoreError → BookingError
  timezone_error : BookingError
  not_available : List Conflict → BookingError
  validation_error : List Reason → BookingError
  status_transition : OrderStatus → OrderStatus → BookingError
  value_error key_error : BookingError

-- `zoneinfo` and `datetime.combine`: whether a zone's name is known, and the instant of a local
-- day and time in a zone, if there is one.
pub record ZoneRules : Type 0 where
  pub is_known : String → Bool
  pub instant : String → ℕ → ℕ → Option ℕ
