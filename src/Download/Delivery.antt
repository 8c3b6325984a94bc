-- ===== src/Download/Delivery.antt =====
-- What a download delivers.
use data_relay_grpc.Base.{
  ℕ, suc, ◌≤◌, ◌<◌, ◌≡◌, ◌≢◌, refl, sym, ap, inl, inr, false, List, [], ◌∷◌, some, arith, map,
  length,
}
use data_relay_grpc.FileSystem.{FilePath, regular, node, exists}
use data_relay_grpc.Session.{SessionImpl, find}
use data_relay_grpc.Manager.{Api, Manager, Server, get_session_impl}
use data_relay_grpc.Manager.Registry.{IsRegistered}
use data_relay_grpc.Manager.Lookup.{get_session_id_cases}
use data_relay_grpc.Download.Access.{SessionFor, TagFor, check_transaction_passes}
use data_relay_grpc.Outcome.{returns}
use data_relay_grpc.Relay.{
  BlobReference, ContextId, session_id, transaction_id, not_set, ok, GetStreamingRequest,
  GetStreamingResponse, api_version, check_api_version, fails,
}
use data_relay_grpc.Text.{text}
use data_relay_grpc.Download.{
  session_storage_id, Origin, origin_of, find_origin, locate, expected_tag, check_tag, goes, lost,
  ended, send_blob, authorize, get,
}
use data_relay_grpc.Download.Chunks.{IsSplit, read_chunks_total, read_chunks-zero}

-- A request with an accepted API version that passes the checks, for a regular file and with a
-- chunk size that is not 0, is answered with OK: the size of the file first, and then its bytes,
-- split in order into chunks of at most the chunk size.
pub get_delivers :
    (api : Api) (chunk_size : ℕ) (s : Server) (r : GetStreamingRequest) (path : FilePath)
    (bytes : List ℕ)
    → 0 < chunk_size
    → r.api_version ≤ api_version
    → authorize api s r ≡ goes path
    → node s.file_system path ≡ some (regular bytes)
    → (cs : List (List ℕ)) × IsSplit chunk_size bytes cs
      × (get api chunk_size s r
          ≡ ended
              (fails ok (text ""))
              (GetStreamingResponse.metadata (length bytes) ∷ map GetStreamingResponse.chunk cs))
unfolding get check_api_version send_blob exists
get_delivers api chunk_size s r path bytes pos v a n =
    let (cs, e, split) =
      read_chunks_total (suc (length bytes)) chunk_size bytes pos (omega arith) in
    (cs, split, ground (arith, e, a, n))

-- With a chunk size of 0, which nothing rules out, a client whose request passes the checks, for a
-- regular file and with an accepted API version, gets the size of the file, no data, and OK.
pub get_empty :
    (api : Api) (s : Server) (r : GetStreamingRequest) (path : FilePath) (bytes : List ℕ)
    → r.api_version ≤ api_version
    → authorize api s r ≡ goes path
    → node s.file_system path ≡ some (regular bytes)
    → get api 0 s r ≡ ended (fails ok (text "")) (GetStreamingResponse.metadata (length bytes) ∷ [])
unfolding get check_api_version send_blob exists
get_empty api s r path bytes v a n = ground (arith, read_chunks-zero (length bytes) bytes, a, n)

pub find_origin-ne-lost : (m : Manager) (c : ContextId) → find_origin m c ≢ lost
unfolding find_origin
find_origin-ne-lost m (session_id sid) e = cc
find_origin-ne-lost m (transaction_id tid) e = elim (get_session_id_cases tid m) [
  | inl (sid, found) ↦ ground (arith, found)
  | inr missing ↦ ground (arith, missing)
]
find_origin-ne-lost m not_set e = cc

pub check_tag-ne-lost : (m : Manager) (expected given : ℕ) → check_tag m expected given ≢ lost
unfolding check_tag
check_tag-ne-lost m expected given e = ground arith

-- What the checks find for a session, by the kind of the context.
session_origin :
    (api : Api) (m : Manager) (c : ContextId) (impl : SessionImpl) (bid tag : ℕ)
    → SessionFor m c impl
    → TagFor api m c bid tag
    → (o : Origin) × (find_origin m c ≡ goes o)
      × (get_session_impl o.session m ≡ returns impl)
      × (o.raw ≡ false)
      × (expected_tag api m o bid ≡ goes tag)
unfolding find_origin expected_tag
session_origin api m (session_id sid) impl bid tag there (impl', there', t) =
    (_, refl, there, refl, rw there' (ap goes (sym t)))
session_origin api m (transaction_id tid) impl bid tag (sid, found, there) t = (
  record { session = sid; transaction = some tid; raw = false },
  ap (origin_of tid) found,
  there,
  refl,
  ap goes (sym t),
)
session_origin api m not_set impl bid tag for t = elim for [ ]

locate_found :
    (api : Api) (s : Server) (o : Origin) (blob : BlobReference) (impl : SessionImpl)
    (path : FilePath)
    → get_session_impl o.session s.manager ≡ returns impl
    → o.raw ≡ false
    → blob.storage_id ≡ session_storage_id
    → find blob.object_id impl ≡ some path
    → locate api s o blob ≡ goes path
unfolding locate
locate_found api s o blob impl path there real z f = ground (arith, there)

-- In a registry that is in order, a BLOB of a session that is asked for by the session, or by the
-- transaction that leads to the session, with the tag that the datastore gives, passes the checks.
pub authorize_session :
    (api : Api) (s : Server) (r : GetStreamingRequest) (impl : SessionImpl) (path : FilePath)
    → IsRegistered s.manager
    → SessionFor s.manager r.context_id impl
    → r.blob.storage_id ≡ session_storage_id
    → find r.blob.object_id impl ≡ some path
    → TagFor api s.manager r.context_id r.blob.object_id r.blob.tag
    → authorize api s r ≡ goes path
unfolding authorize check_tag
authorize_session api s r impl path reg for z f t =
    let (o, e, there, real, tagged) =
      session_origin api s.manager r.context_id impl r.blob.object_id r.blob.tag for t in
    let passes = check_transaction_passes s.manager r.context_id o reg e in
    let located = locate_found api s o r.blob impl path there real z f in
    rw (e, passes, located, tagged) (ground arith)
