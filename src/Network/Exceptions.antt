-- ===== src/Network/Exceptions.antt =====
-- src/Lib/Exceptions: each exception of the library carries a message and a response code.
use polar_uv_robot.Prelude.{Option, none, some, Bytes, utf8}
use polar_uv_robot.Network.Packet.{Code, bad_request, connection_error, not_found}

-- `base_exception` is one thrown as `BaseException` itself. `std_exception` is any other
-- `std::exception`, such as an error of the socket library; `unknown` is what only `catch (...)` takes.
pub data Exception : Type 0 where
  base_exception : Bytes → Code → Exception
  buffer_overflow : Bytes → Exception
  connection_timeout : Exception
  invalid_operation : Bytes → Exception
  not_fount : Bytes → Exception
  transfer_error : Bytes → Exception
  std_exception : Bytes → Exception
  unknown : Exception

-- `e.Code` and `e.Message`, for the classes that derive from `BaseException`.
unfoldable pub exception_code : Exception → Option Code
exception_code (base_exception m c) = some c
exception_code (buffer_overflow m) = some Code.buffer_overflow
exception_code connection_timeout = some Code.connection_timeout
exception_code (invalid_operation m) = some bad_request
exception_code (not_fount m) = some not_found
exception_code (transfer_error m) = some connection_error
exception_code (std_exception m) = none
exception_code unknown = none

unfoldable pub exception_message : Exception → Bytes
unfolding utf8
exception_message (base_exception m c) = m
exception_message (buffer_overflow m) = m
exception_message connection_timeout = utf8 "[CONNECTION TIMEOUT]"
exception_message (invalid_operation m) = m
exception_message (not_fount m) = m
exception_message (transfer_error m) = m
exception_message (std_exception m) = m
exception_message unknown = utf8 ""
