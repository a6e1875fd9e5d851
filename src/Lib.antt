-- ===== src/Lib.antt =====
-- Verification of aiohomematic, the client library for Homematic and HomematicIP devices.
--
-- A central unit (aiohomematic/central) owns a client for each interface of the backend
-- (aiohomematic/client); a client reaches the backend through RPC proxies, each behind a circuit
-- breaker that reports to the central's connection state. Commands wait in a throttle, are repeated by
-- the retry, remembered by the command tracker and shown as optimistic values until an event confirms
-- them; pings and pongs tell whether events still arrive. This library models the parts that decide
-- when requests flow, what is remembered of them, and how failures are followed:
--
--   Const, DataPointKey, Exceptions   aiohomematic/const.py, exceptions.py, client/_rpc_errors.py
--   Client.CircuitBreaker             aiohomematic/client/circuit_breaker.py
--   Client.StateMachine               aiohomematic/client/state_machine.py
--   Client.InterfaceClient            the connection lifecycle of aiohomematic/client/interface_client.py
--   Client.RequestCoalescer           aiohomematic/client/request_coalescer.py
--   Client.CommandRetry               aiohomematic/client/command_retry.py
--   Client.CommandThrottle            aiohomematic/client/command_throttle.py
--   Store.Types                       PongTracker and PingPongJournal of aiohomematic/store/types.py
--   Store.PingPong                    aiohomematic/store/dynamic/ping_pong.py
--   Store.Command                     aiohomematic/store/dynamic/command.py, changed_within_seconds of
--                                     aiohomematic/support/__init__.py
--   Support.Address                   aiohomematic/support/address.py, on the texts of Support.Integers and
--                                     Support.Texts
--   Converter                         the combined parameters of aiohomematic/converter.py
--   Model.Optimistic                  aiohomematic/model/optimistic.py and its use by data points
--   Central.ConnectionState           aiohomematic/central/connection_state.py
--   Central.StateMachine              aiohomematic/central/state_machine.py
--   Central.ConnectionRecovery        aiohomematic/central/coordinators/connection_recovery.py
--   Central.CentralUnit               the verdict of aiohomematic/central/central_unit.py on the clients
--
-- A class is a record, a method a function from the record to the new record, with the effects
-- that it causes on other objects (events, metrics, calls) as a list in their order. A module of
-- the list has its definitions in its own file; the theorems stand in the files below it, named
-- for what they prove, and the runs and instances in its Tests. Reconnecting, checking and
-- stopping a client are defined in the files below Client.InterfaceClient, above their theorems,
-- the retry loop in Client.CommandRetry.Attempts, the data of the throttle in the files Queue and
-- State below it, and the stages, retries, checks and handlers of the connection recovery in the files
-- State, Stages, Retries, Checks and Handlers below it. Prelude holds the shared names: Boolean tests, lists measured by native
-- numbers, dictionaries as association lists, and Python's sorted. The heap queue of Python's
-- heapq, which the throttle uses, is a parameter with its documented laws (HeapQueue);
-- Client.CommandThrottle.Heap has one that obeys them. What a combined parameter stands for is an
-- argument of the command tracker, which Converter fills for texts.
--
-- Times are natural numbers of microseconds, the resolution of Python's datetime, in the ping/pong
-- tracker of milliseconds, and a method takes the reading of the clock as an argument. Python's
-- integers have no bound, and neither have the numbers here. All recursion is structural, on
-- histories of calls and on the attempts that are left; the printing of a number has the number
-- itself as its bound on the digits, which is enough since each round divides it by ten. Two loops run
-- on fuel and return none without it: the retries of a recovery on the number of calls, for which eight
-- are enough since each failure is counted and eight are allowed, and the wait for a TCP port on the
-- number of attempts, for which one more than the intervals of the timeout is enough. The
-- asyncio event loop runs one task at a time: what other tasks do while a method awaits is left
-- out where a file says so. Logging and translations are left out throughout.
--
-- Not modelled: the RPC proxies and servers, the backends and the reading of configuration, which are
-- input and output; the persistent stores, which are files; the formulas of data points, which use
-- floating point numbers; the tables of devices and texts, which are data; the metrics and displays.
-- Outside of this library, since nothing in it rests on them, are also the health tracking, the scheduler, the event bus, the other coordinators, and the device model with
-- its week profiles.
pub mod Prelude
pub mod Const
pub mod DataPointKey
pub mod Exceptions
pub mod Client
pub mod Central
pub mod Model
pub mod Store
pub mod Support
pub mod Converter
