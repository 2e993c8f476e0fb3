-- ===== src/Migrate/World/Keeps.antt =====
-- Invariants of the steps of scripts/migrate-dokploy.ts: one rule for each way to build a step.
use vexdock.Base.{Bool, true, false, Option, none, some, List, [], ◌∷◌, if◌then◌else◌}
use vexdock.Text.{Text}
use vexdock.Migrate.Types.{
  Body, Method, Call, to_dokploy, to_vexdock, Shape, Answer, rejected, resolved,
}
use vexdock.Migrate.World.{
  Host, World, Result, ok, error, waiting, M, pure, throw, continue, ◌>>=◌, modify, gets, each,
  collect, require, expect, fetch, dokploy, vexdock_api, vexdock_json, env, env_value,
  dokploy_result, vexdock_result,
}

-- `m` keeps `P`, whether it returns, throws or is cut off.
pub record Keeps {A : Type 0} (P : World → Type 0) (m : M A) : Type 0 where
  pub at : (w : World) → P w → P (m w).1

module _ {P : World → Type 0} where
  module _ {A : Type 0} where
    pub Keeps-pure : (a : A) → Keeps P (pure a)
    unfolding pure
    Keeps-pure a = record { at = λ w p. p }

    pub Keeps-throw : (message : Text) → Keeps P (throw {A = A} message)
    unfolding throw
    Keeps-throw message = record { at = λ w p. p }

    pub Keeps-gets : (f : World → A) → Keeps P (gets f)
    unfolding gets
    Keeps-gets f = record { at = λ w p. p }

    pub Keeps-if : (b : Bool) (m n : M A) → Keeps P m → Keeps P n → Keeps P (if b then m else n)
    Keeps-if true m n km kn = km
    Keeps-if false m n km kn = kn

    pub Keeps-expect : (o : Option A) (message : Text) → Keeps P (expect o message)
    Keeps-expect none message = Keeps-throw message
    Keeps-expect (some a) message = Keeps-pure a

  pub Keeps-require : (b : Bool) (message : Text) → Keeps P (require b message)
  Keeps-require true message = Keeps-pure tt
  Keeps-require false message = Keeps-throw message

  pub Keeps-modify : (f : World → World) → ((w : World) → P w → P (f w)) → Keeps P (modify f)
  unfolding modify
  Keeps-modify f h = record { at = h }

  module _ {A B : Type 0} where
    Keeps-continue :
        (r : Result A) (f : A → M B) → ((a : A) → Keeps P (f a)) → Keeps P (continue r f)
    Keeps-continue (ok a) f kf = kf a
    Keeps-continue (error message) f kf = record { at = λ w p. p }
    Keeps-continue waiting f kf = record { at = λ w p. p }

    pub Keeps-bind :
        (m : M A) (f : A → M B) → Keeps P m → ((a : A) → Keeps P (f a)) → Keeps P (m >>= f)
    unfolding ◌>>=◌
    Keeps-bind m f km kf = record {
      at = λ w p. (Keeps-continue (m w).0 f kf).at (m w).1 (km.at w p);
    }

  module _ {A : Type 0} where
    pub Keeps-each :
        (as' : List A) (f : A → M (Unit {0})) → ((a : A) → Keeps P (f a)) → Keeps P (each as' f)
    unfolding each
    Keeps-each [] f kf = Keeps-pure tt
    Keeps-each (a ∷ as') f kf = Keeps-bind (f a) _ (kf a) (λ _. Keeps-each as' f kf)

  pub Keeps-collect :
      {A B : Type 0} (as' : List A) (f : A → M B)
      → ((a : A) → Keeps P (f a))
      → Keeps P (collect as' f)
  unfolding collect
  Keeps-collect [] f kf = Keeps-pure []
  Keeps-collect (a ∷ as') f kf =
      Keeps-bind (f a) _ (kf a)
        λ b. Keeps-bind (collect as' f) _ (Keeps-collect as' f kf) λ bs. Keeps-pure (b ∷ bs)

  module _ (h : Host) where
    pub Keeps-fetch :
        (s : Shape) (call : Call)
        → ((w : World) → P w → P (record w { calls = call ∷ w.calls }))
        → Keeps P (fetch h s call)
    unfolding fetch
    Keeps-fetch s call k = record { at = k }

    Keeps-dokploy_result :
        (s : Shape) (procedure : Text) (a : Answer s) → Keeps P (dokploy_result h procedure a)
    Keeps-dokploy_result s procedure (rejected message) = Keeps-throw message
    Keeps-dokploy_result s procedure (resolved res) = Keeps-if _ _ _ (Keeps-pure _) (Keeps-throw _)

    pub Keeps-dokploy :
        (s : Shape) (method : Method) (procedure : Text) (input : Body)
        → ((w : World) → P w → P (record w { calls = to_dokploy method procedure input ∷ w.calls }))
        → Keeps P (dokploy h s method procedure input)
    unfolding dokploy
    Keeps-dokploy s method procedure input k =
        Keeps-bind _ _ (Keeps-fetch s _ k) (Keeps-dokploy_result s procedure)

    Keeps-vexdock_result :
        (s : Shape) (method : Method) (path : Text) (a : Answer s)
        → Keeps P (vexdock_result h method path a)
    Keeps-vexdock_result s method path (rejected message) = Keeps-throw message
    Keeps-vexdock_result s method path (resolved res) =
        Keeps-if _ _ _ (Keeps-if _ _ _ (Keeps-pure _) (Keeps-pure _)) (Keeps-throw _)

    pub Keeps-vexdock_api :
        (s : Shape) (method : Method) (path : Text) (body : Body)
        → ((w : World) → P w → P (record w { calls = to_vexdock method path body ∷ w.calls }))
        → Keeps P (vexdock_api h s method path body)
    unfolding vexdock_api
    Keeps-vexdock_api s method path body k =
        Keeps-bind _ _ (Keeps-fetch s _ k) (Keeps-vexdock_result s method path)

    pub Keeps-vexdock_json :
        (s : Shape) (method : Method) (path : Text) (body : Body)
        → ((w : World) → P w → P (record w { calls = to_vexdock method path body ∷ w.calls }))
        → Keeps P (vexdock_json h s method path body)
    unfolding vexdock_json
    Keeps-vexdock_json s method path body k =
        Keeps-bind _ _ (Keeps-vexdock_api s method path body k) (λ o. Keeps-expect o _)

    Keeps-env_value : (key : Text) (o : Option Text) → Keeps P (env_value h key o)
    Keeps-env_value key none = Keeps-throw _
    Keeps-env_value key (some []) = Keeps-throw _
    Keeps-env_value key (some (c ∷ cs)) = Keeps-pure _

    pub Keeps-env : (key : Text) → Keeps P (env h key)
    unfolding env
    Keeps-env key = Keeps-env_value key (h.env key)

pub ruleset keeps_rules = (
  Keeps-pure, Keeps-throw, Keeps-gets, Keeps-if, Keeps-expect, Keeps-require, Keeps-bind,
  Keeps-each, Keeps-collect, Keeps-env,
)
