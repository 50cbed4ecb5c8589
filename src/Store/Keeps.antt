-- ===== src/Store/Keeps.antt =====
-- What an action keeps, whether it answers or throws, from what its steps keep.
use hop_drop.Common.{ℕ, String, Bool, true, false, Option, none, some, Result, ok, err}
use hop_drop.Store.{Store, Action, require, guard, ◌>>=◌, continue}

module _ {ℓ} (P : Store → Type ℓ) where
  -- The action keeps `P`.
  abbrev pub Keeps : {A : Type 0} → Action A → Type ℓ
  Keeps m = (s : Store) → P s → P (m s).1

  pub continue-keeps :
      {A B : Type 0} (r : Result A × Store) (f : A → Action B)
      → P r.1
      → ((a : A) → Keeps (f a))
      → P (continue r f).1
  continue-keeps (ok a, s) f h k = k a s h
  continue-keeps (err e, s) f h k = h

  pub bind-Keeps :
      {A B : Type 0} (m : Action A) (f : A → Action B)
      → Keeps m
      → ((a : A) → Keeps (f a))
      → Keeps (m >>= f)
  bind-Keeps m f hm hf s h = continue-keeps (m s) f (hm s h) hf

  pub require-Keeps :
      {A : Type 0} (o : Option A) (status : ℕ) (message : String) → Keeps (require o status message)
  require-Keeps none status message s h = h
  require-Keeps (some a) status message s h = h

  pub guard-Keeps : (b : Bool) (status : ℕ) (message : String) → Keeps (guard b status message)
  guard-Keeps true status message s h = h
  guard-Keeps false status message s h = h
