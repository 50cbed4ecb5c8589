-- ===== src/Json.antt =====
-- JSON values: the payloads of events, and the bodies that backend/src/utils/sanitize.ts walks.
use hop_drop.Common.{ℕ, String, Bool}

mutual
  pub data Json : Type 0 where
    null : Json
    flag : Bool → Json
    num : ℕ → Json
    text : String → Json
    arr : Items → Json
    obj : Fields → Json

  pub data Items : Type 0 where
    nil : Items
    cons : Json → Items → Items

  pub data Fields : Type 0 where
    end : Fields
    field : String → Json → Fields → Fields
