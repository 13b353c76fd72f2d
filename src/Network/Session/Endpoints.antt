-- ===== src/Network/Session/Endpoints.antt =====
-- The map from endpoints to services, `TcpSession::CreateService` and `FindService` of
-- src/Lib/TcpSession.
use polar_uv_robot.Prelude.{
  ℕ, ◌<◌, ◌≡◌, refl, Option, none, some, [], ◌∷◌, arith, All, ◌==◌, if◌then◌else◌,
}
use polar_uv_robot.Network.Service.{IService}
use polar_uv_robot.Network.Session.{ServiceMap, insert_service, lookup_service}

module _ {ℓ} {S : Type ℓ} where
  -- The keys rise.
  abbrev pub IsSorted : ServiceMap S → Type 0
  IsSorted [] = Unit
  IsSorted ((k, _) ∷ m) = All (λ e. k < e.0) m × IsSorted m

  abbrev Above : ℕ → ServiceMap S → Type 0
  Above k = All (λ e. k < e.0)

  insert_service-Above :
      (k : ℕ) (svc : IService S) (m : ServiceMap S)
      → Above k m
      → k < svc.service_id
      → Above k (insert_service svc m)
  unfolding insert_service
  insert_service-Above k svc [] a h = (h, tt)
  insert_service-Above k svc ((j, other) ∷ m) a h =
      ground (arith, insert_service-Above k svc m a.1 h)

  Above-trans : (j k : ℕ) (m : ServiceMap S) → j < k → Above k m → Above j m
  Above-trans j k [] h a = tt
  Above-trans j k ((i, _) ∷ m) h (p, a) = (omega arith, Above-trans j k m h a)

  lookup_service-Above : (k : ℕ) (m : ServiceMap S) → Above k m → lookup_service k m ≡ none
  unfolding lookup_service
  lookup_service-Above k [] a = refl
  lookup_service-Above k ((j, svc) ∷ m) (p, a) = ground (arith, lookup_service-Above k m a)

  insert_service-IsSorted :
      (svc : IService S) (m : ServiceMap S) → IsSorted m → IsSorted (insert_service svc m)
  unfolding insert_service
  insert_service-IsSorted svc [] s = (tt, tt)
  insert_service-IsSorted svc ((k, other) ∷ m) (a, s) = ground (
    arith,
    insert_service-Above k svc m a,
    insert_service-IsSorted svc m s,
    Above-trans svc.service_id k m,
  )

  abbrev after_insert : IService S → ℕ → Option (IService S) → Option (IService S)
  after_insert svc j (some old) = some old
  after_insert svc j none = if svc.service_id == j then some svc else none

  lookup_insert :
      (j : ℕ) (svc : IService S) (m : ServiceMap S)
      → IsSorted m
      → lookup_service j (insert_service svc m) ≡ after_insert svc j (lookup_service j m)
  unfolding insert_service lookup_service
  lookup_insert j svc [] s = refl
  lookup_insert j svc ((k, other) ∷ m) (a, s) = ground (
    arith,
    lookup_insert j svc m s,
    λ (p : j < k). lookup_service-Above j m (Above-trans j k m p a),
  )

  -- After a service is registered under an id that is free, its endpoint leads to it, and every other
  -- endpoint to where it led; an id that is taken keeps its first service. The map stays sorted.
  pub lookup_service-insert_service :
      (j : ℕ) (svc : IService S) (m : ServiceMap S)
      → IsSorted m
      → IsSorted (insert_service svc m)
        × (lookup_service j (insert_service svc m) ≡ after_insert svc j (lookup_service j m))
  lookup_service-insert_service j svc m s =
      (insert_service-IsSorted svc m s, lookup_insert j svc m s)
