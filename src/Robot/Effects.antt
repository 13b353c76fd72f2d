-- ===== src/Robot/Effects.antt =====
-- What a request can do to the part of the state that its service works on, for each service that
-- src/Robot/Robot.cpp registers.
use polar_uv_robot.Prelude.{◌≡◌, refl, ap, utf8}
use polar_uv_robot.Network.Packet.{RequestType, r, w, wr, undefined, response, ok, no_content}
use polar_uv_robot.Network.Exec.{
  Outcome, returned, thrown, fault, Exec, pure, continue, ◌>>=◌, zoom,
}
use polar_uv_robot.Network.Buffer.{StringView}
use polar_uv_robot.Network.Service as Service
use polar_uv_robot.Network.Service.{
  IService, do_action, read_data, write_data, write_read_data, base_service, not_empty,
  no_such_method,
}
use polar_uv_robot.Robot.{on_part}

-- A part of a state, which is read and written on its own.
pub record IsPart {ℓ κ} {S : Type ℓ} {T : Type κ} (get : S → T) (put : T → S → S)
    : Type (ℓ ⊔ κ) where
  pub get_put : (t : T) (s : S) → get (put t s) ≡ t
  pub put_put : (t u : T) (s : S) → put t (put u s) ≡ put t s
  pub put_get : (s : S) → s ≡ put (get s) s

-- How a request changes the state of a service, by its type and its data.
pub record HasEffect {ℓ κ} {T : Type ℓ} (E : RequestType → StringView → T → T → Type κ)
    (svc : IService T) : Type (ℓ ⊔ κ) where
  pub do_action :
      (k : RequestType) (v : StringView) (t : T) → E k v t (Service.do_action svc k v t).1

module _ {ℓ κ} {S : Type ℓ} {T : Type κ} (get : S → T) (put : T → S → S)
    (part : IsPart get put) where
  continue-zoom {μ ν} :
      {A : Type μ} {B : Type ν} (o : Outcome A) (t : T) (f : A → Exec T B) (g : A → Exec S B)
      (s : S)
      → ((a : A) (x : S) → g a x ≡ zoom get put (f a) x)
      → continue o g (put t s) ≡ ((continue o f t).0, put (continue o f t).1 s)
  continue-zoom (returned a) t f g s h =
      rw (h a (put t s), part.get_put t s, part.put_put (f a t).1 t s) refl
  continue-zoom (thrown e) t f g s h = refl
  continue-zoom fault t f g s h = refl

  bind-zoom {μ ν} :
      {A : Type μ} {B : Type ν} (m : Exec T A) (f : A → Exec T B) (g : A → Exec S B)
      → ((a : A) (s : S) → g a s ≡ zoom get put (f a) s)
      → (s : S) → (zoom get put m >>= g) s ≡ zoom get put (m >>= f) s
  bind-zoom m f g h s = continue-zoom (m (get s)).0 (m (get s)).1 f g s h

  pure-zoom {μ} : {A : Type μ} (a : A) (s : S) → pure a s ≡ zoom get put (pure a) s
  pure-zoom a s = ap (λ x. (returned a, x)) (part.put_get s)

  -- A request to a service on a part is that request to the service, on the part.
  do_action-on_part :
      (svc : IService T) (k : RequestType) (v : StringView) (s : S)
      → do_action (on_part get put svc) k v s ≡ zoom get put (do_action svc k v) s
  unfolding do_action read_data write_data write_read_data on_part
  do_action-on_part svc r v s =
      bind-zoom svc.read_validate _ _
        (λ _. bind-zoom svc.read _ _ (λ out. pure-zoom (response out ok svc.service_id))) s
  do_action-on_part svc w v s =
      bind-zoom (svc.write_validate v) _ _
        (λ _.
          bind-zoom (svc.write v) _ _
            (λ _. pure-zoom (response (utf8 "") no_content svc.service_id)))
        s
  do_action-on_part svc wr v s =
      bind-zoom (svc.write_read_validate v) _ _
        (λ _. bind-zoom (svc.write_read v) _ _ (λ out. pure-zoom (response out ok svc.service_id)))
        s
  do_action-on_part svc (undefined t) v s = ap (λ x. (thrown _, x)) (part.put_get s)

  -- What is true of the whole before a request to the service of a part is followed by what is true
  -- after every change of the part that this request may make.
  pub on_part-acted {μ ξ} :
      (R : S → Type μ) (E : RequestType → StringView → T → T → Type ξ) (svc : IService T)
      (k : RequestType) (v : StringView) (s : S)
      → HasEffect E svc
      → ((t : T) → E k v (get s) t → R (put t s))
      → R (do_action (on_part get put svc) k v s).1
  on_part-acted R E svc k v s h change =
      rw (do_action-on_part svc k v s)
        (change (do_action svc k v (get s)).1 (h.do_action k v (get s)))
