-- ===== src/Lib.antt =====
-- PolarUV-robot: the software of an underwater robot. A client talks to it over TCP; services hold the
-- settings and take commands; a loop turns commands, settings and measurements into values for the
-- motors; and sensors on an I2C bus are driven by coroutines that timers resume.
--
-- The parts, and the files that model them. Paths are from the repository's root.
--
--   Network (src/Lib/TcpSession, src/Lib/Exceptions). Packet has RequestHeaderType and Response of
--   Packet.hpp and their bytes; Exceptions the exception classes; Buffer the BufferType of
--   BufferType.hpp, with zstd as a parameter of type Zstd and its documented laws in Buffer/Zlaws;
--   Service the class IService; Socket a connection; Session the functions of TcpSession.cpp
--   (read_request is ReadData, find_service FindService, catch_exception the catch clauses), and
--   Session/Serve the loop of TcpSession::Start; Session/Heard is its part up to the call of a
--   service, and Session/Moves says what a round does to the state of the services by that request.
--   Methods are functions from a state to a result and a state (Network/Exec): a value, an exception or
--   a fault, which is undefined behaviour.
--
--   Settings (src/Robot/Features/RobotSettings): the service of RobotSettings.cpp, a client of
--   Network.Service; Settings/Motion hands the settings to the loop of the motors. The generated
--   protobuf code is a parameter of type Protobuf.
--
--   Commands (src/Robot/Features/Commands, src/Robot/Features/MotorsSender). Queue is CommandsQueue of
--   CommandsCycle.hpp; Service the CommandsService that fills it; Pid the regulators of PID.hpp;
--   Stabilization the classes of Stabilization.hpp; Cycle one round of CommandsCycle::StartCommands;
--   Motors the message of MotorsSender/SPI.hpp.
--
--   Linear (src/Lib/Math). Linear and Lanes have the loops over four lanes of Static and TypeTraits.hpp,
--   Plain and Product the plain loops and the product of matrices, Dynamic the vectors and matrices of
--   Vector.hpp and Matrix.hpp.
--
--   Filters (src/Lib/Filters): the moving averages, which the sensors use.
--
--   Sensors (src/Robot/Features/Sensors): the service that hands out what the sensors published.
--
--   Video (src/Robot/Features/Video, src/Lib/Videostream): the service that starts and stops the stream
--   of a camera, as the calls that GStreamer is given.
--
--   Robot (src/Robot/Robot.cpp, src/Robot/Features/StartSettings, src/Lib/Math/SIPrefix.hpp). Start reads
--   the settings of the start, with the JSON library as a parameter; set_up registers the services, each
--   on its part of one state; Boot is the start of the program (src/Startup.cpp); Reach is the robot as
--   it runs, with requests, updates of the sensors and rounds of the loop as steps in any order.
--   Model is the robot without sessions, services, counters and arrays; Effects, Changes and Configures
--   say what each request changes, and Refines what the model shows of a state. In Loop and Run a round
--   of the loop takes what it needs under one mutex after the other, and other threads run in between;
--   Order, Commute, Arrivals, Rounds and Finish find the place of such a round in the model, Sends shows
--   that it stays inside its arrays, Arrived and Served which events a request is, and Traces compares a
--   run with the model.
--   Bus is the way from a round to the motors' end of the SPI bus.
--
--   Devices (src/Lib/DataTransmissions/Socket.cpp): the deprecated class Socket, which remembers whether
--   its client is still there. The other parts do not use it.
--
--   Peripheral (src/Lib/Peripheral, src/Lib/Schedular, src/Lib/DataTransmissions/I2C.cpp). I2c has the
--   transfers, with ioctl as a parameter; Task the coroutine type SensorTask; Handler the
--   SensorHandler; Bno055 the orientation sensor and Ms5837 the pressure sensor, whose coroutines are
--   machines with one point for each co_await; Measures relates them to the registers of the sensor,
--   and Ads1115 has the analog converter. Below Ms5837, Crc divides polynomials over bits, Words and Xor
--   compare CRC4 with that, and Checksum says when Init takes the sensor online.
--
-- Conventions. Numbers are natural numbers, with the wrap-around of a word written out where the code
-- can reach it. float and double are types with a record of operations (Real), so that no result
-- depends on rounding; the tests use whole numbers. Two conversions that the language leaves undefined
-- are taken to wrap around: a signed product of 32 bits (Peripheral/Ms5837) and a float out of the
-- range of a word (word_of in Commands/Cycle). Loops over what a client sends have fuel: a round
-- consumes at least the 24 bytes of a header or closes the connection, so two more rounds than there
-- are bytes are enough, and this is a theorem.
--
-- Not modelled: the regulator of one value in PID.hpp, which stands under #if 0; GStreamer, the
-- logger, the JSON parser, the UART device and the opening and closing of files and devices, which
-- only call libraries or the operating system. Of the concurrency the order of steps is modelled,
-- one step for what is done under a mutex (Run), or a whole request, update of a sensor or round
-- where the coarser order is enough (Reach).
pub mod Prelude
pub mod Real
pub mod Network
pub mod Linear
pub mod Filters
pub mod Peripheral
pub mod Settings
pub mod Commands
pub mod Devices
pub mod Sensors
pub mod Video
pub mod Robot
