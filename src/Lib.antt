-- ===== src/Lib.antt =====
-- The BLOB relay server of data-relay-grpc: a gRPC service that stores BLOBs which clients upload
-- into sessions and hands out BLOBs of sessions and of the datastore.
--
-- The parts, from the bottom up, and where they are modelled (paths of the repository; headers of
-- `common` are under server/include/data_relay_grpc, sources under server/src/data_relay_grpc):
--
-- - common/tag_generator.h: the HMAC tags of BLOB references. `TagGenerator`. OpenSSL is the
--   parameter `OpenSsl`.
-- - common/detail/session_store.h, blob_session_store: the directory of the session storage and
--   the counter of its usage, under a quota. `SessionStore`: `reserve` and `remove` run alone
--   there; in `SessionStore.Concurrent` the load, the compare-exchange and the subtraction are
--   steps of threads, any of which may give back what another has reserved.
-- - common/detail/session_impl.{h,cpp}: a session, with a map from BLOB ids to paths and reserved
--   sizes. `Session`: each method is a function on a `Context`, that is the session and what it
--   reaches through its references; the forms of `blob_session::remove` are there too. `Disposers`
--   is `dispose` as a state machine, between whose deletions other calls may run.
-- - common/detail/session_manager.{h,cpp} and common/api.h: the maps of sessions and of
--   transactions, and the id counters. `Manager`: its state is `Manager`, and `Server` is that
--   with the file system; `with_session` calls a method of a session. The functions of the
--   datastore are the parameter `Api`.
-- - common/session.{h,cpp}: `BlobSession`, the methods of a session that the users of the library
--   call, through the id of the session that they hold; `BlobSession.Interface` is the class, with
--   what its users may rely on.
-- - blob_relay/utils.h, blob_relay/api_version.h and the messages of protos: `Relay`.
-- - blob_relay/streaming_service.{h,cpp}: `Download` is `Get`, `Upload` is `Put`, each with no
--   other call between its steps. `Streaming` is the class of these handlers. `Handlers` is `Put`
--   as a state machine: a step is one method that holds a mutex, or one operation on a file, with
--   what the handler then does by itself. `Handlers.System` is any number of such handlers and
--   calls of the library, in any order of their steps; a call of the library is one step there.
--   `Readers` is `Get` as a state machine, each step of which finds a server of its own: whatever
--   other calls have made of it in between.
-- - logging_helper.h and logging.h: `Logging`, the prefix that a message in the log gets from the
--   name of its function.
-- - blob_relay/local_service.{h,cpp}: `Local`. `std::filesystem::copy` is the parameter `Copy`.
-- - blob_relay/service_configuration.h, blob_relay/service_impl.{h,cpp},
--   blob_relay/service.{h,cpp} and common/service.h: `Service`, in `Service.Facade` what its users
--   hold, and in `Service.History` every history of calls.
--
-- Below these: `FileSystem` is the part of `std::filesystem` and of the file streams that the
-- server uses, over an explicit state in which what the operating system decides (links,
-- permissions) is left open; `OrderedMap` is `std::map`; `Text` is text and `std::to_string`;
-- `Outcome` is how a call ends: it returns, throws, or has used an object that is gone; `Base` has
-- the shared helpers. `Tests` has the theorems at concrete inputs.
--
-- A server is in order (`Manager.History.IsSound`) when its registry and its books are. The
-- registry (`Manager.Registry.IsRegistered`): ids are in order and below their counter, each
-- session knows its id, and each transaction that has an entry has it for a session of its own.
-- The books (`Manager.Books.IsBooked`): the usage counter is within a quota that is set, and is
-- the sum of the sizes of all entries of all sessions and an amount `lost`, which is 0 unless
-- something else is said.
--
-- What the users of the manager see of it is `Manager.Contract`: sessions with a transaction and a
-- path for each BLOB id, as functions, and for each call the answers that it may give and the
-- changes that it may make; `Manager.Refinement.perform` is the call itself. In `Handlers.System`
-- the books may be off: `IsSound` has the amount that is counted and that no BLOB stands for,
-- which is 0 where handlers run alone.
--
-- Bounds and fuel: 64-bit sums and differences are taken modulo 2 ^ 64. The theorems on books ask
-- that a quota is set, that the quota with a size does not wrap, and that the counters of ids do
-- not. The loop of `Get` has one round of fuel for a byte of the file and one more; each round
-- takes at least a byte, or it is the last. `std::to_string` has one more round of fuel than the
-- value. The search of `find_fullname` has a round for each character and two more, and each round
-- goes on by at least one. The `int` variables of logging_helper.h do not overflow, since names
-- are shorter than 2 ^ 31.
--
-- Not modelled: the messages that the calls write to the log, the gRPC library and the generated
-- code, the test client and the smoke test support, local uploads in the middle of other calls,
-- and other steps between the deletions of one call of `remove`. A write to an open file succeeds,
-- and the path of a file that is removed while a stream has it open is not used again before the
-- stream ends.
pub mod Base
pub mod OrderedMap
pub mod Text
pub mod FileSystem
pub mod Outcome
pub mod TagGenerator
pub mod SessionStore
pub mod Session
pub mod Manager
pub mod Relay
pub mod Download
pub mod Upload
pub mod Local
pub mod BlobSession
pub mod Handlers
pub mod Logging
pub mod Readers
pub mod Disposers
pub mod Service
pub mod Streaming
pub mod Tests
