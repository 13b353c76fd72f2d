-- ===== src/Devices/Online.antt =====
-- What a connection that is still online says about its transfers.
use polar_uv_robot.Prelude.{
  ℕ, ◌≡◌, refl, ap, Bool, Bool-cases, inl, inr, true, false, List, [], ◌∷◌, map, if◌then◌else◌,
  length, arith,
}
use polar_uv_robot.Prelude.Int.{ℤ, pos, negsuc}
use polar_uv_robot.Devices.{
  Kernel, Device, Transfer, receiving, sending, size, is_size, recvall, sendall, transfer,
  transfers,
}

is_size_lem : (n : ℤ) (len : ℕ) → is_size n len ≡ true → n ≡ pos len
unfolding is_size
is_size_lem (pos n) len h = let e : n ≡ len = grind arith in ap pos e
is_size_lem (negsuc n) len h = ground arith

kept :
    (n : ℤ) (len : ℕ) (online : Bool)
    → (if is_size n len then online else false) ≡ true
    → (online ≡ true) × (n ≡ pos len)
kept n len online h = elim (Bool-cases (is_size n len)) [
  | inl whole ↦ (ground arith, is_size_lem n len whole)
  | inr short ↦ ground arith
]

module _ {ℓ} {K : Type ℓ} (os : Kernel K) where
  -- A transfer that leaves the connection online found it online and moved its whole length.
  transfer-online :
      (t : Transfer) (s : Device K)
      → (transfer os t s).1.is_online ≡ true
      → (s.is_online ≡ true) × ((transfer os t s).0 ≡ pos (size t))
  unfolding transfer recvall sendall
  transfer-online (receiving len) s h =
      let k = (os.poll s.kernel).1 in
      let (polled, whole) = kept (os.recv s.client len k).0.0 len _ h in (ground arith, whole)
  transfer-online (sending msg) s h = elim (Bool-cases s.is_online) [
    | inl on ↦
        let whole : is_size (os.send s.client msg s.kernel).0 (length msg) ≡ true = ground arith in
        let e = is_size_lem (os.send s.client msg s.kernel).0 (length msg) whole in
        (on, rw (on, e) refl)
    | inr off ↦ ground arith
  ]

  -- After any transfers, a connection is online only if it was online before them and each of them
  -- moved its whole length.
  pub transfers-online :
      (ts : List Transfer) (s : Device K)
      → (transfers os ts s).1.is_online ≡ true
      → (s.is_online ≡ true) × ((transfers os ts s).0 ≡ map (λ t. pos (size t)) ts)
  unfolding transfers
  transfers-online [] s h = (h, refl)
  transfers-online (t ∷ ts) s h =
      let (before, rest) = transfers-online ts (transfer os t s).1 h in
      let (start, first) = transfer-online t s before in (start, rw (first, rest) refl)
