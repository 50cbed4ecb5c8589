-- ===== src/Store.antt =====
-- The state that the handlers share: the collections of the database, the entries of Redis, and
-- what leaves the backend. A handler is an action on it, which may throw; what was written before
-- a throw stays written.
pub mod Keeps
use hop_drop.Common.{
  ℕ, String, Bool, true, false, Option, none, some, List, Error, api, Result, ok, err, ⊤,
}
use hop_drop.Json.{Json, Fields}
use hop_drop.Model.Match.{Match}
use hop_drop.Model.Trip.{Trip}
use hop_drop.Model.DeliveryRequest.{DeliveryRequest}
use hop_drop.Model.User.{User}
use hop_drop.Model.Transaction.{Transaction, OrderId}
use hop_drop.Model.OutboxEvent.{OutboxEvent}
use hop_drop.Collection.{Collection}

-- The targets of a realtime message that the services name (backend/src/services/realtime.service.ts);
-- the type there has a room and everybody besides.
pub data Target : Type 0 where
  to_user to_match to_trip : ℕ → Target

pub record RealtimeMessage : Type 0 where
  pub target : Target
  pub event : String
  pub payload : Fields

-- backend/src/models/Notification.ts, with the paths of `timestamps`
pub record Notification : Type 0 where
  pub id : ℕ
  pub user : ℕ
  pub title : String
  pub body : String
  pub type : String
  pub read : Bool
  pub metadata : Option Json
  pub created_at : ℕ
  pub updated_at : ℕ

-- Jobs that the handlers put on the BullMQ queues, with their delay.
pub data Job : Type 0 where
  release_payout trip_two_hour_reminder trip_thirty_min_reminder : ℕ → ℕ → Job
  find_matches : ℕ → Job

-- What leaves the backend: outbox rows, notifications, published messages, queued jobs.
pub record Bus : Type 0 where
  pub next_event_id : ℕ
  pub outbox : Collection OutboxEvent
  pub notifications : List Notification
  pub realtime : List RealtimeMessage
  pub jobs : List Job

-- backend/src/models/Review.ts
pub record Review : Type 0 where
  pub match : ℕ
  pub from : ℕ
  pub to : ℕ
  pub score : ℕ
  pub comment : Option String

-- backend/src/models/ProcessedWebhook.ts; `event_id` is unique.
pub record ProcessedWebhook : Type 0 where
  pub event_id : ℕ
  pub event : String
  pub order_id : Option OrderId
  pub processed_at : ℕ

-- The keys of a one-time code (`otpKeys` of backend/src/services/otp.service.ts).
pub data OtpKey : Type 0 where
  phone pickup delivery : ℕ → OtpKey

-- What Redis holds for a code: the JSON that the service writes, and when it expires.
pub record OtpEntry : Type 0 where
  pub hash : ℕ
  pub attempts : ℕ
  pub created_at : ℕ
  pub expires_at : ℕ

pub record LockEntry : Type 0 where
  pub token : ℕ
  pub expires_at : ℕ

-- What becomes of one attempt of a database transaction: it commits, it fails and is rolled back,
-- or the answer to the commit is lost, with the commit applied or not.
pub data Fault : Type 0 where
  commits : Fault
  fails : Error → Fault
  commit_unknown : Bool → Fault

pub record Store : Type 0 where
  pub now : ℕ
  pub next_id : ℕ
  pub matches : Collection Match
  pub trips : Collection Trip
  pub requests : Collection DeliveryRequest
  pub users : Collection User
  pub transactions : Collection Transaction
  pub reviews : Collection Review
  pub webhooks : Collection ProcessedWebhook
  pub otps : List (OtpKey × OtpEntry)
  pub locks : List (ℕ × LockEntry)
  pub bus : Bus
  pub faults : List Fault

abbrev pub Action : Type 0 → Type 0
Action A = Store → Result A × Store

module _ {A : Type 0} where
  abbrev pub pure : A → Action A
  pure a s = (ok a, s)

  abbrev pub throw : Error → Action A
  throw e s = (err e, s)

  abbrev pub gets : (Store → A) → Action A
  gets f s = (ok (f s), s)

  -- `if (!found) throw new ApiError(status, message)`
  abbrev pub require : Option A → ℕ → String → Action A
  require none status message = throw (api status message)
  require (some a) status message = pure a

-- How an action goes on after a step: an error ends it.
abbrev pub continue : {A B : Type 0} → Result A × Store → (A → Action B) → Result B × Store
continue (ok a, s) f = f a s
continue (err e, s) f = (err e, s)

infixl 5 ◌>>=◌ ◌>>◌
abbrev pub ◌>>=◌ : {A B : Type 0} → Action A → (A → Action B) → Action B
◌>>=◌ m f s = continue (m s) f

abbrev pub ◌>>◌ : {A B : Type 0} → Action A → Action B → Action B
m >> k = m >>= λ _. k

-- `if (!condition) throw new ApiError(status, message)`
abbrev pub guard : Bool → ℕ → String → Action ⊤
guard true status message s = (ok tt, s)
guard false status message s = (err (api status message), s)

abbrev pub modify : (Store → Store) → Action ⊤
modify f s = (ok tt, f s)

abbrev pub when : Bool → Action ⊤ → Action ⊤
when true m = m
when false m = pure tt
