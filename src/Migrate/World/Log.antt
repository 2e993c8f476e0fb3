-- ===== src/Migrate/World/Log.antt =====
-- What a request of scripts/migrate-dokploy.ts leaves in the history, and how a loop's requests
-- add up.
use vexdock.Base.{Bool, true, false, List, [], ◌∷◌, ◌≡◌, refl, ap, ◌∙◌, if◌then◌else◌}
use vexdock.Text.{Text}
use vexdock.Migrate.Types.{Body, Method, Call, to_dokploy, Shape, Answer, rejected, resolved}
use vexdock.Migrate.World.{
  Host, World, Result, ok, error, waiting, M, pure, throw, continue, ◌>>=◌, fetch, dokploy,
  dokploy_result, is_ok, each,
}

world-if :
    {A : Type 0} (b : Bool) (m n : M A) (w : World)
    → (m w).1 ≡ w
    → (n w).1 ≡ w
    → ((if b then m else n) w).1 ≡ w
world-if true m n w e f = e
world-if false m n w e f = f

world-dokploy_result :
    (h : Host) (s : Shape) (procedure : Text) (a : Answer s) (w : World)
    → (dokploy_result h procedure a w).1 ≡ w
unfolding pure throw
world-dokploy_result h s procedure (rejected message) w = refl
world-dokploy_result h s procedure (resolved res) w = world-if (is_ok res.status) _ _ w refl refl

-- A request is in the history whatever comes of it, and changes nothing else.
pub world-dokploy :
    (h : Host) (s : Shape) (method : Method) (procedure : Text) (input : Body) (w : World)
    → (dokploy h s method procedure input w).1
      ≡ record w { calls = to_dokploy method procedure input ∷ w.calls }
unfolding dokploy ◌>>=◌ fetch
world-dokploy h s method procedure input w =
    world-dokploy_result h s procedure (h.answer s w.calls (to_dokploy method procedure input)) _

pub world-bind_pure :
    {A B : Type 0} (m : M A) (b : B) (w : World) → ((m >>= λ _. pure b) w).1 ≡ (m w).1
unfolding ◌>>=◌
world-bind_pure {A} m b w = last (m w).0 (m w).1
  where
    last : (r : Result A) (v : World) → (continue r (λ _. pure b) v).1 ≡ v
    last (ok a) v = unfold pure in refl
    last (error message) v = refl
    last waiting v = refl

pub world-bind_throw :
    {A : Type 0} (B : Type 0) (m : M A) (message : Text) (w : World)
    → ((m >>= λ _. throw {A = B} message) w).1 ≡ (m w).1
unfolding ◌>>=◌
world-bind_throw {A} B m message w = last (m w).0 (m w).1
  where
    last : (r : Result A) (v : World) → (continue r (λ _. throw {A = B} message) v).1 ≡ v
    last (ok a) v = unfold throw in refl
    last (error text) v = refl
    last waiting v = refl

-- A step that sends one request and has nothing to return.
pub record Sends {A : Type 0} (call : A → Call) (f : A → M (Unit {0})) : Type 0 where
  pub at : (a : A) (w : World) → (f a w).1.calls ≡ call a ∷ w.calls

abbrev pub sent : {A : Type 0} → (A → Call) → List A → List Call → List Call
sent call [] cs = cs
sent call (a ∷ as') cs = sent call as' (call a ∷ cs)

-- Inversion of a bind that returned.
pub >>=-eq-ok :
    {A B : Type 0} (m : M A) (f : A → M B) (w : World) {b : B}
    → ((m >>= f) w).0 ≡ ok b
    → (a : A) × ((m w).0 ≡ ok a) × ((m >>= f) w ≡ f a (m w).1)
unfolding ◌>>=◌
>>=-eq-ok {A} {B} m f w {b} = split (m w).0 (m w).1
  where
    split :
        (r : Result A) (v : World)
        → (continue r f v).0 ≡ ok b
        → (a : A) × (r ≡ ok a) × (continue r f v ≡ f a v)
    split (ok a) v h = (a, refl, refl)
    split (error message) v h = cc
    split waiting v h = cc

-- A loop of such steps that comes to its end has sent one request for each element, in order.
pub calls-each :
    {A : Type 0} (call : A → Call) (f : A → M (Unit {0})) (as' : List A) (w : World)
    → Sends call f
    → (each as' f w).0 ≡ ok tt
    → (each as' f w).1.calls ≡ sent call as' w.calls
unfolding each
calls-each call f [] w s h = unfold pure in refl
calls-each call f (a ∷ as') w s h =
    let (x, first, rest) = >>=-eq-ok (f a) (λ _. each as' f) w h in
    ap (λ (r : Result (Unit {0}) × World). r.1.calls) rest
    ∙ calls-each call f as' (f a w).1 s (rw rest at h)
    ∙ ap (sent call as') (s.at a w)
