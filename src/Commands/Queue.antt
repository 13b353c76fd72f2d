-- ===== src/Commands/Queue.antt =====
-- src/Robot/Features/Commands/CommandsCycle.hpp: the `CommandsQueue` between the service that gets
-- the operator's commands and the loop that drives the motors.
use polar_uv_robot.Prelude.{
  ℕ, zero, suc, ◌+◌, ◌%◌, ◌^◌, ◌≤◌, ◌<◌, ◌≡◌, refl, Bool-cases, inl, inr, ltb, ◌==◌, if◌then◌else◌,
  arith,
}
use polar_uv_robot.Real.{Real}
use polar_uv_robot.Commands.Struct.{CommandsStruct, no_commands}

abbrev pub max_count : ℕ
max_count = 400

pub record CommandsQueue {ℓ} (F : Type ℓ) : Type ℓ where
  pub commands : CommandsStruct F
  pub requests_count : ℕ

module _ {ℓ} {F : Type ℓ} ⦃f : Real F⦄ where
  unfoldable pub new_queue : CommandsQueue F
  new_queue = record { commands = no_commands; requests_count = 0 }

  unfoldable pub get_commands : CommandsQueue F → CommandsStruct F × CommandsQueue F
  get_commands q =
      let count = (q.requests_count + 1) % 2 ^ 64 in
      let commands = if count == max_count then no_commands else q.commands in
      (commands, record { commands = commands; requests_count = count })

  unfoldable pub add_commands : CommandsStruct F → CommandsQueue F → CommandsQueue F
  add_commands c q = record { commands = c; requests_count = 0 }

  -- The queue after `n` requests.
  unfoldable pub requests : ℕ → CommandsQueue F → CommandsQueue F
  unfolding get_commands
  requests zero q = q
  requests (suc n) q = let before = requests n q in (get_commands before).1

  -- What the queue holds when it was asked `n` times after commands arrived.
  held :
      (c : CommandsStruct F) (q : CommandsQueue F) (n : ℕ)
      → n < max_count
      → ((requests n (add_commands c q)).commands ≡ c)
        × ((requests n (add_commands c q)).requests_count ≡ n)
  unfolding requests add_commands get_commands
  held c q zero h = (refl, refl)
  held c q (suc n) h = let (e, k) = held c q n (omega arith) in ground arith

  dropped :
      (c : CommandsStruct F) (q : CommandsQueue F) (n : ℕ)
      → max_count ≤ n
      → (requests n (add_commands c q)).commands ≡ no_commands
  unfolding requests get_commands
  dropped c q zero h = elim h [ ]
  dropped c q (suc n) h = elim (Bool-cases (ltb n max_count)) [
    | inl e ↦ let (e1, e2) = held c q n (grind arith) in ground arith
    | inr e ↦ let e1 = dropped c q n (grind arith) in ground arith
  ]

  -- For every number of requests since the last commands, also once the counter has wrapped around: the
  -- first 399 requests get these commands, and from the 400th on each request gets the commands that
  -- stand still.
  pub get_commands-add_commands :
      (c : CommandsStruct F) (q : CommandsQueue F) (n : ℕ)
      → (get_commands (requests n (add_commands c q))).0
        ≡ (if ltb (n + 1) max_count then c else no_commands)
  unfolding requests get_commands
  get_commands-add_commands c q n = elim (Bool-cases (ltb (n + 1) max_count)) [
    | inl e ↦ let (e1, e2) = held c q (suc n) (grind arith) in ground arith
    | inr e ↦ let e1 = dropped c q (suc n) (grind arith) in ground arith
  ]
