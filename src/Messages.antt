-- ===== src/Messages.antt =====
-- Documents of backend/src/models in the payload of an event. A weight is in grams there.
use hop_drop.Model.DeliveryRequest.{
  DeliveryWindow, Package, DeliveryStatus, pending, matched, pickup_otp_sent, picked_up, in_transit,
  delivery_otp_sent, delivered, cancelled, expired, created,
}
use hop_drop.Model.Trip.{
  Location, Category, documents, clothing, electronics, food, fragile, medicine, other,
}
use Prim.Native.String.{◌++◌}
use hop_drop.Common.{suc, String, Option, ℕ, some, none}
use hop_drop.Common.Int.{ℤ, pos, negsuc}
use hop_drop.Json.{Json, num, text, flag, null, obj, arr, nil, cons, field, end}

-- Documents in a message.
abbrev pub opt_text : Option String → Json
opt_text none = null
opt_text (some t) = text t

abbrev pub opt_num : Option ℕ → Json
opt_num none = null
opt_num (some n) = num n

abbrev pub int_json : ℤ → Json
int_json (pos n) = num n
int_json (negsuc n) = obj (field "negative" (num (suc n)) end)

abbrev pub point_json : Option (ℤ × ℤ) → Json
point_json none = null
point_json (some (lng, lat)) = arr (cons (int_json lng) (cons (int_json lat) nil))

abbrev pub location_json : Location → Json
location_json l = obj (
    field "city" (text l.city) (
      field "state" (opt_text l.state) (
        field "coordinates" (point_json l.coordinates) (
          field "placeId" (opt_text l.place_id)
            (field "fullAddress" (opt_text l.full_address) end)))))

abbrev pub window_json : DeliveryWindow → Json
window_json w = obj (field "earliest" (num w.earliest) (field "latest" (num w.latest) end))

abbrev pub category_name : Category → String
category_name documents = "documents"
category_name clothing = "clothing"
category_name electronics = "electronics"
category_name food = "food"
category_name fragile = "fragile"
category_name medicine = "medicine"
category_name other = "other"

abbrev pub package_json : Package → Json
package_json p = obj (
    field "description" (text p.description) (
      field "category" (text (category_name p.category)) (
        field "weightG" (num p.weight_g) (
          field "isFragile" (flag p.is_fragile) (
            field "declaredValue" (opt_num p.declared_value)
              (field "photoUrl" (opt_text p.photo_url) end))))))

abbrev pub delivery_status_name : DeliveryStatus → String
delivery_status_name pending = "pending"
delivery_status_name matched = "matched"
delivery_status_name pickup_otp_sent = "pickup_otp_sent"
delivery_status_name picked_up = "picked_up"
delivery_status_name in_transit = "in_transit"
delivery_status_name delivery_otp_sent = "delivery_otp_sent"
delivery_status_name delivered = "delivered"
delivery_status_name cancelled = "cancelled"
delivery_status_name expired = "expired"
delivery_status_name created = "created"

-- The body of the notification of a proposal.
abbrev pub new_request_text : String → String → String
new_request_text origin destination =
    ("New package request from " ++ origin) ++ (" to " ++ (destination ++ "."))
