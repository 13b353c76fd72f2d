-- ===== src/Network/Socket.antt =====
-- src/Lib/TcpSession/TcpSession.cpp: a connection of boost::asio, as the session sees it.
use polar_uv_robot.Prelude.{ℕ, Bool, Bytes, [], utf8, ltb, if◌then◌else◌, length, take, drop}
use polar_uv_robot.Network.Exceptions.{std_exception}
use polar_uv_robot.Network.Exec.{returned, thrown, Exec}

-- A connection: what the peer will still send before it closes its side, how many writes it will
-- still take before they fail, and what was sent to it.
pub record Socket : Type 0 where
  pub is_open : Bool
  pub input : Bytes
  pub writes_left : ℕ
  pub output : Bytes

-- `boost::asio::read` of exactly `n` bytes; if the peer closes before, it throws.
unfoldable pub read_exactly : ℕ → Exec Socket Bytes
unfolding utf8
read_exactly n k =
    if ltb (length k.input) n
    then (thrown (std_exception (utf8 "End of file")), record k { input = [] })
    else (returned (take n k.input), record k { input = drop n k.input })
