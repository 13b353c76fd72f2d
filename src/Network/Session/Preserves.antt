-- ===== src/Network/Session/Preserves.antt =====
-- Statements that the parts of a round of src/Lib/TcpSession/TcpSession.cpp leave true of the session.
use polar_uv_robot.Prelude.{◌≡◌, refl}
use polar_uv_robot.Network.Exec.{Outcome, returned, thrown, fault, Exec, continue, ◌>>=◌}
use polar_uv_robot.Network.Session.{Session}

module _ {ℓ κ} {S : Type ℓ} (P : Session S → Type κ) where
  abbrev pub Preserves {μ} : {A : Type μ} → Exec (Session S) A → Type (ℓ ⊔ κ)
  Preserves m = (s : Session S) → P s → P (m s).1

  module _ {μ ν} {A : Type μ} {B : Type ν} where
    pub Preserves-continue :
        (o : Outcome A) (f : A → Exec (Session S) B)
        → ((a : A) → o ≡ returned a → Preserves (f a))
        → Preserves (continue o f)
    Preserves-continue (returned a) f h s p = h a refl s p
    Preserves-continue (thrown e) f h s p = p
    Preserves-continue fault f h s p = p

    pub Preserves-bind :
        (m : Exec (Session S) A) (f : A → Exec (Session S) B)
        → Preserves m
        → ((a : A) → Preserves (f a))
        → Preserves (m >>= f)
    Preserves-bind m f hm hf s p = Preserves-continue (m s).0 f (λ a _. hf a) (m s).1 (hm s p)
