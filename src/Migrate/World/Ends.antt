-- ===== src/Migrate/World/Ends.antt =====
-- Steps of scripts/migrate-dokploy.ts that return or throw, and are never cut off by the fuel.
use vexdock.Base.{Bool, true, false, Option, none, some, ◌≢◌, refl, if◌then◌else◌, arith}
use vexdock.Text.{Text}
use vexdock.Migrate.Types.{Body, Method, Call, Shape, Answer, rejected, resolved}
use vexdock.Migrate.World.{
  Host, World, Result, ok, error, waiting, M, pure, throw, continue, ◌>>=◌, require, expect, fetch,
  dokploy, vexdock_api, vexdock_json, dokploy_result, vexdock_result,
}

pub record Ends {A : Type 0} (m : M A) : Type 0 where
  pub at : (w : World) → (m w).0 ≢ waiting

module _ {A : Type 0} where
  pub Ends-pure : (a : A) → Ends (pure a)
  unfolding pure
  Ends-pure a = record { at = λ w. ground arith }

  pub Ends-throw : (message : Text) → Ends (throw {A = A} message)
  unfolding throw
  Ends-throw message = record { at = λ w. ground arith }

  pub Ends-expect : (o : Option A) (message : Text) → Ends (expect o message)
  Ends-expect none message = Ends-throw message
  Ends-expect (some a) message = Ends-pure a

  pub Ends-if : (b : Bool) (m n : M A) → Ends m → Ends n → Ends (if b then m else n)
  Ends-if true m n e f = e
  Ends-if false m n e f = f

pub Ends-require : (b : Bool) (message : Text) → Ends (require b message)
Ends-require true message = Ends-pure tt
Ends-require false message = Ends-throw message

module _ {A B : Type 0} where
  Ends-continue :
      (r : Result A) (f : A → M B) (w : World)
      → r ≢ waiting
      → ((a : A) → Ends (f a))
      → (continue r f w).0 ≢ waiting
  Ends-continue (ok a) f w h k = (k a).at w
  Ends-continue (error message) f w h k = ground arith
  Ends-continue waiting f w h k = absurd (h refl)

  pub Ends-bind : (m : M A) (f : A → M B) → Ends m → ((a : A) → Ends (f a)) → Ends (m >>= f)
  unfolding ◌>>=◌
  Ends-bind m f e k = record { at = λ w. Ends-continue (m w).0 f (m w).1 (e.at w) k }

module _ (h : Host) where
  Ends-fetch : (s : Shape) (c : Call) → Ends (fetch h s c)
  unfolding fetch
  Ends-fetch s c = record { at = λ w. ground arith }

  Ends-dokploy_result :
      (s : Shape) (procedure : Text) (a : Answer s) → Ends (dokploy_result h procedure a)
  Ends-dokploy_result s procedure (rejected message) = Ends-throw message
  Ends-dokploy_result s procedure (resolved res) = Ends-if _ _ _ (Ends-pure _) (Ends-throw _)

  pub Ends-dokploy :
      (s : Shape) (method : Method) (procedure : Text) (input : Body)
      → Ends (dokploy h s method procedure input)
  unfolding dokploy
  Ends-dokploy s method procedure input =
      Ends-bind _ _ (Ends-fetch s _) (Ends-dokploy_result s procedure)

  Ends-vexdock_result :
      (s : Shape) (method : Method) (path : Text) (a : Answer s)
      → Ends (vexdock_result h method path a)
  Ends-vexdock_result s method path (rejected message) = Ends-throw message
  Ends-vexdock_result s method path (resolved res) =
      Ends-if _ _ _ (Ends-if _ _ _ (Ends-pure _) (Ends-pure _)) (Ends-throw _)

  pub Ends-vexdock_json :
      (s : Shape) (method : Method) (path : Text) (body : Body)
      → Ends (vexdock_json h s method path body)
  unfolding vexdock_json vexdock_api
  Ends-vexdock_json s method path body =
      Ends-bind _ _ (Ends-bind _ _ (Ends-fetch s _) (Ends-vexdock_result s method path))
        λ o. Ends-expect o _

pub ruleset ends_rules = (
  Ends-pure, Ends-throw, Ends-expect, Ends-if, Ends-require, Ends-bind, Ends-dokploy,
  Ends-vexdock_json,
)
