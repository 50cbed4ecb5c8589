-- ===== src/Tests/Fixtures.antt =====
-- A small store for the runs: a carrier (1), a sender (2), a trip (3), a paid request (5) and a match
-- (7) of the models of backend/src/models, and a stand-in for bcrypt.
use hop_drop.Model.Match.{Match, new_match, TimelineEvent}
use hop_drop.Store.{Store, Bus}
use hop_drop.Model.DeliveryRequest.{
  DeliveryRequest, DeliveryWindow, Package, DeliveryStatus, PaymentStatus,
}
use hop_drop.Model.Trip.{Location, Trip, Category, TransportMode, TripStatus}
use hop_drop.Model.User.{User, new_user}
use hop_drop.Otp.{Bcrypt}
use hop_drop.Common.{
  ◌<◌, String, ◌≡◌, refl, ap, List, ◌==◌, ==_iff, ==_refl, ℕ, false, true, none, some, [], ◌∷◌,
  zero, suc, ◌*◌, arith,
}
use hop_drop.Common.Int.{pos}
use hop_drop.Env.{Env, replica_set}

abbrev pub demo_env : Env
demo_env = record {
  topology = replica_set;
  demo_mode = false;
  platform_fee_percent = 10;
  default_safety_deposit_paise = 50000;
  escrow_release_delay_ms = 86400000;
  outbox_relay_enabled = true;
  kafka_configured = true;
  outbox_batch_size = 10;
  outbox_max_attempts = 3;
}

abbrev pub place : String → Location
place city = record {
  city = city;
  state = none;
  coordinates = none;
  place_id = none;
  full_address = none;
}

abbrev pub demo_package : Package
demo_package = record {
  description = "books";
  category = Category.documents;
  weight_g = 2000;
  dimensions_cm = none;
  is_fragile = true;
  declared_value = some 6000;
  photo_url = none;
}

abbrev pub demo_window : DeliveryWindow
demo_window = record { earliest = 1000; latest = 3600000 }

abbrev pub demo_trip : Trip
demo_trip = record {
  carrier = 1;
  origin = place "Pune";
  destination = place "Mumbai";
  departure_time = 9000;
  estimated_arrival_time = none;
  mode_of_transport = TransportMode.bus;
  transport_details = none;
  available_capacity = record {
    weight_g = 5000;
    dimensions_cm = none;
    allowed_categories = Category.documents ∷ [];
  };
  price_per_kg = 50;
  status = TripStatus.active;
  safety_deposit_paid = true;
  safety_deposit_amount = some 50000;
  safety_deposit_transaction_id = some 77;
  pickup_instructions = none;
  dropoff_instructions = none;
  matches = 7 ∷ [];
}

abbrev pub demo_request : DeliveryRequest
demo_request = record {
  sender = 2;
  origin = place "Pune";
  destination = place "Mumbai";
  parcel = demo_package;
  recipient = record { name = "Asha"; phone = "99"; address = "1 Road" };
  preferred_delivery_window = demo_window;
  status = DeliveryStatus.matched;
  quoted_price = some 20000;
  platform_fee = some 2000;
  total_charge = some 22000;
  match = none;
  payment_order_id = none;
  payment_status = PaymentStatus.paid;
  expires_at = none;
}

abbrev pub demo_match : Match
demo_match =
    new_match 3 5 1 2 22000 none (record {
      event = TimelineEvent.match_proposed;
      timestamp = 0;
      actor = none;
      metadata = none;
    })

abbrev pub with_wallet : ℕ → ℕ → User → User
with_wallet balance held u = record u {
  wallet = record { balance = pos balance; escrow_held = pos held };
}

abbrev pub empty_bus : Bus
empty_bus = record { next_event_id = 0; outbox = []; notifications = []; realtime = []; jobs = [] }

abbrev pub demo_store : Store
demo_store = record {
  now = 1000;
  next_id = 10;
  matches = (7, demo_match) ∷ [];
  trips = (3, demo_trip) ∷ [];
  requests = (5, demo_request) ∷ [];
  users =
      (1, with_wallet 0 50000 (new_user "Ravi" "r@x" 91))
      ∷ (2, with_wallet 0 22000 (new_user "Meera" "m@x" 92))
      ∷ [];
  transactions = [];
  reviews = [];
  webhooks = [];
  otps = [];
  locks = [];
  bus = empty_bus;
  faults = [];
}

-- A pair of numbers as one, and a list as one.
unfoldable pub pair_code : ℕ → ℕ → ℕ
pair_code zero n = suc (2 * n)
pair_code (suc x) n = 2 * pair_code x n

pair_code_inj : (x y n m : ℕ) → pair_code x n ≡ pair_code y m → (x ≡ y) × (n ≡ m)
unfolding pair_code
pair_code_inj zero zero n m h = (refl, omega arith)
pair_code_inj zero (suc y) n m h = absurd (omega arith)
pair_code_inj (suc x) zero n m h = absurd (omega arith)
pair_code_inj (suc x) (suc y) n m h =
    let ih = pair_code_inj x y n m (omega arith) in (ap suc ih.0, ih.1)

pair_code_pos : (x n : ℕ) → 0 < pair_code x n
unfolding pair_code
pair_code_pos zero n = omega arith
pair_code_pos (suc x) n = omega (arith, pair_code_pos x n)

unfoldable pub list_code : List ℕ → ℕ
list_code [] = 0
list_code (x ∷ xs) = pair_code x (list_code xs)

pub list_code_inj : (t u : List ℕ) → list_code t ≡ list_code u → t ≡ u
unfolding list_code
list_code_inj [] [] h = refl
list_code_inj [] (y ∷ u) h = absurd (omega (arith, pair_code_pos y (list_code u)))
list_code_inj (x ∷ t) [] h = absurd (omega (arith, pair_code_pos x (list_code t)))
list_code_inj (x ∷ t) (y ∷ u) h =
    let (same, rest) = pair_code_inj x y (list_code t) (list_code u) h in
    rw (same, list_code_inj t u rest) refl

-- A stand-in for bcrypt that hashes by a number for the text.
unfoldable pub demo_bcrypt : Bcrypt
demo_bcrypt = record {
  hash = λ salt t. list_code t;
  compare = λ t h. list_code t == h;
  accepts_own = λ salt t. ==_refl (list_code t);
  rejects_other = λ salt t u h. list_code_inj t u ((==_iff (list_code t) (list_code u)).0 h);
}
