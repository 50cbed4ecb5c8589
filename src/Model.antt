-- ===== src/Model.antt =====
-- The documents of the database (backend/src/models), one record to a collection, each with the
-- value that `create` gives it from the schema's defaults. Identifiers, dates (milliseconds), order
-- and payment identifiers are numbers; a field that may be missing is an `Option`. A weight in kg
-- is kept in grams, and an amount in rupees (`pricePerKg`, `declaredValue`) in paise.
pub mod Match
pub mod Trip
pub mod DeliveryRequest
pub mod User
pub mod Transaction
pub mod OutboxEvent
