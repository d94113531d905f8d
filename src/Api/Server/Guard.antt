-- ===== src/Api/Server/Guard.antt =====
-- internal/api/middleware.go, authMiddleware: who passes it.
use text.Mathlib.Text.{◌==◌ as str_eq}
use jobit.Prelude.{ℕ, ◌≡◌, String, Bool, true, false, Option}
use jobit.Job.{Time}
use jobit.World.{World, Tenant}
use jobit.Storage.Schedules.{is_active}
use jobit.Api.{Response, no_content, unauthorized}
use jobit.Api.Bearer.{extract_bearer_token}
use jobit.Api.Server.{Route, handle}

-- A world in which only answers of the servers have been used up.
pub record SameStores (w w' : World) : Type 0 where
  pub db : w'.db ≡ w.db
  pub redis : w'.redis ≡ w.redis

module _ {Location : Type 0} (load_location : String → Option Location)
    (parse : String → Option (Location → Time → Time)) (by_name : String → String → Bool)
    (has_limiter : Bool) (new_id : ℕ) where
  -- How a request under /v1 ends: it is OPTIONS, and is answered 204 in the world as it was; or it is
  -- refused, and no store has changed; or an active tenant has the key that its header bears, and the
  -- answer and the world are those of the tenant's handler.
  pub data IsGuarded (is_options : Bool) (header : String) (r : Route) (w : World)
      (p : Response × World) : Type 0 where
    preflight : is_options ≡ true → p ≡ (no_content, w) → IsGuarded is_options header r w p
    refused :
        is_options ≡ false
        → p.0 ≡ unauthorized
        → SameStores w p.1
        → IsGuarded is_options header r w p
    admitted :
        (t : Tenant) (v : World)
        → is_options ≡ false
        → is_active t ≡ true
        → str_eq t.api_key (extract_bearer_token header) ≡ true
        → SameStores w v
        → p ≡ handle load_location parse by_name has_limiter new_id t r v
        → IsGuarded is_options header r w p
