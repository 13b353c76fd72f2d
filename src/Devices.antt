-- ===== src/Devices.antt =====
-- src/Lib/DataTransmissions/Socket.cpp: the connection of the deprecated class Socket, which remembers
-- whether its client is still there. The calls of the operating system are parameters.
pub mod Online
use polar_uv_robot.Prelude.{
  ℕ, Bool, true, false, List, [], ◌∷◌, Bytes, ◌==◌, ◌&&◌, if◌then◌else◌, length,
}
use polar_uv_robot.Prelude.Int.{ℤ, pos, negsuc}

-- What the kernel does in some state: the result of a call, and the state after it. `accept` gives
-- the descriptor of a client, `recv` also what was received.
pub record Kernel {ℓ} (K : Type ℓ) : Type ℓ where
  pub listen : K → ℤ × K
  pub accept : K → ℤ × K
  pub poll : K → ℤ × K
  pub recv : ℤ → ℕ → K → (ℤ × Bytes) × K
  pub send : ℤ → Bytes → K → ℤ × K

-- The members that change after the constructor, and the kernel beside them.
pub record Device {ℓ} (K : Type ℓ) : Type ℓ where
  pub client : ℤ
  pub is_online : Bool
  pub kernel : K

-- The tests of a result against -1 and against a length.
unfoldable pub is_error : ℤ → Bool
is_error (negsuc n) = n == 0
is_error (pos n) = false

unfoldable pub is_size : ℤ → ℕ → Bool
is_size (pos n) len = n == len
is_size (negsuc n) len = false

-- A call of `RecvDataLen` or of `SendDataLen`.
pub data Transfer : Type 0 where
  receiving : ℕ → Transfer
  sending : Bytes → Transfer

abbrev pub size : Transfer → ℕ
size (receiving len) = len
size (sending msg) = length msg

module _ {ℓ} {K : Type ℓ} (os : Kernel K) where
  -- `Listen`. The result of `accept` is not looked at.
  unfoldable pub listen : Device K → ℤ × Device K
  unfolding is_error
  listen s =
      let (heard, k) = os.listen s.kernel in
      let (client, k') = os.accept k in
      if is_error heard
      then (negsuc 0, record s { kernel = k })
      else (pos 1, record { client = client; is_online = true; kernel = k' })

  -- `recvall`: the wait of one second, then the call that may block. What was received is the second
  -- part of the result.
  unfoldable pub recvall : ℕ → Device K → (ℤ × Bytes) × Device K
  unfolding is_error is_size
  recvall len s =
      let (waited, k) = os.poll s.kernel in
      let polled = if is_error waited then false else s.is_online in
      let ((n, msg), k') = os.recv s.client len k in
      ((n, msg), record s { is_online = if is_size n len then polled else false; kernel = k' })

  unfoldable pub sendall : Bytes → Device K → ℤ × Device K
  unfolding is_size
  sendall msg s =
      let (n, k) = os.send s.client msg s.kernel in
      if s.is_online
      then (n, record s { is_online = is_size n (length msg); kernel = k })
      else (negsuc 0, s)

  unfoldable pub transfer : Transfer → Device K → ℤ × Device K
  unfolding recvall sendall
  transfer (receiving len) s = let ((n, msg), s') = recvall len s in (n, s')
  transfer (sending msg) s = sendall msg s

  -- Transfers in turn, with their results.
  unfoldable pub transfers : List Transfer → Device K → List ℤ × Device K
  unfolding transfer
  transfers [] s = ([], s)
  transfers (t ∷ ts) s =
      let (n, s') = transfer t s in let (ns, s'') = transfers ts s' in (n ∷ ns, s'')
