-- ===== src/Local.antt =====
-- blob_relay/local_service.{h,cpp}: the transfer of a BLOB by the path of its file. Neither handler
-- has a `catch`, so what is thrown leaves it.
pub mod Laws
use data_relay_grpc.Base.{ℕ, Bool, not, Option, none, some, ◌==◌, if◌then◌else◌}
use data_relay_grpc.Text.{text}
use data_relay_grpc.FileSystem.{FilePath, FileSystem}
use data_relay_grpc.Session.{SessionImpl, create_blob_file}
use data_relay_grpc.Manager.{Api, Server, get_session_impl, with_session}
use data_relay_grpc.Outcome.{
  Exception, filesystem_error, Outcome, returns, throws, undefined, M, after,
}
use data_relay_grpc.Relay.{
  ok, unavailable, not_found, Status, BlobReference, ContextId, session_id, transaction_id, not_set,
  check_api_version, api_version_error_message, fails,
}
use data_relay_grpc.Download.{session_storage_id}

pub record GetLocalRequest : Type 0 where
  pub api_version : ℕ
  pub context_id : ContextId
  pub blob : BlobReference

pub record PutLocalRequest : Type 0 where
  pub api_version : ℕ
  pub session_id : ℕ
  pub path : FilePath

-- `std::filesystem::copy`, in the C++ library; `none` is its error
abbrev pub Copy : Type 0
Copy = (source target : FilePath) → FileSystem → Option FileSystem

-- `request->session_id()`: 0 where the context is none
unfoldable pub requested_session : ContextId → ℕ
requested_session (session_id sid) = sid
requested_session (transaction_id tid) = 0
requested_session not_set = 0

-- what `Get` answers for the session: the status, and the path where the response is filled
unfoldable pub answer : Api → BlobReference → SessionImpl → Status × Option FilePath
answer api blob impl = elim impl.transaction_id [
  | none ↦ (fails not_found (text "the session has no transaction"), none)
  | some tid ↦
      if not (api.get_tag blob.object_id tid == blob.tag)
      then (fails not_found (text "can not find blob with the tag given"), none)
      else (fails ok (text ""), some (api.get_path blob.object_id))
]

-- `Get`
unfoldable pub get_local : Api → Server → GetLocalRequest → Outcome (Status × Option FilePath)
get_local api s request =
    if not (check_api_version request.api_version)
    then returns (fails unavailable (api_version_error_message request.api_version), none)
    else (elim (get_session_impl (requested_session request.context_id) s.manager) [
      | returns impl ↦ returns (answer api request.blob impl)
      | throws x ↦ throws x
      | undefined ↦ undefined
    ])

-- the copy of the client's file, and the response, whose tag is left unset
unfoldable pub copy_in : Copy → FilePath → ℕ × FilePath → M Server (Status × Option BlobReference)
copy_in copy source (bid, path) s = elim (copy source path s.file_system) [
  | none ↦ (throws (filesystem_error source), s)
  | some fs ↦ (
    returns (
      fails ok (text ""),
      some (record { storage_id = session_storage_id; object_id = bid; tag = 0 }),
    ),
    record s { file_system = fs },
  )
]

-- `Put`
unfoldable pub put_local : Copy → PutLocalRequest → M Server (Status × Option BlobReference)
put_local copy request s =
    if not (check_api_version request.api_version)
    then (returns (fails unavailable (api_version_error_message request.api_version), none), s)
    else (elim (get_session_impl request.session_id s.manager) [
      | throws x ↦ (throws x, s)
      | undefined ↦ (undefined, s)
      | returns impl ↦
          after (with_session request.session_id (create_blob_file (text "upload")) s)
            (copy_in copy request.path)
    ])

-- the class of the handlers
pub record LocalService : Type 0 where
  pub get : Server → GetLocalRequest → Outcome (Status × Option FilePath)
  pub put : PutLocalRequest → M Server (Status × Option BlobReference)

unfoldable pub local_service : Api → Copy → LocalService
local_service api copy = record { get = get_local api; put = put_local copy }
