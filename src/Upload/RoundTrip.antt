-- ===== src/Upload/RoundTrip.antt =====
-- An upload and then the download of what it has stored.
use data_relay_grpc.Base.{
  true, ℕ, ◌+◌, ◌≤◌, ◌<◌, ◌≡◌, refl, ap, ◌∙◌, List, ◌∷◌, some, arith, map, length, flatten,
}
use data_relay_grpc.Text.{text}
use data_relay_grpc.FileSystem.{FilePath, FileSystem, open_output}
use data_relay_grpc.TagGenerator.{OpenSsl}
use data_relay_grpc.SessionStore.{word}
use data_relay_grpc.Session.{SessionImpl, find}
use data_relay_grpc.Manager.{Api, Server, get_session_impl, compute_tag, get_tag}
use data_relay_grpc.Manager.History.{IsSound}
use data_relay_grpc.Outcome.{returns}
use data_relay_grpc.Relay.{
  ok, session_id, GetStreamingRequest, GetStreamingResponse, PutStreamingRequest, PutMetadata,
  metadata, api_version, fails,
}
use data_relay_grpc.Download.{session_storage_id, ended, get}
use data_relay_grpc.Download.Chunks.{IsSplit}
use data_relay_grpc.Download.Access.{TagFor}
use data_relay_grpc.Download.Delivery.{authorize_session, get_delivers}
use data_relay_grpc.Upload.{size_matches, put}
use data_relay_grpc.Upload.Stream.{IsStored}
use data_relay_grpc.Upload.Storage.{next_id, upload_path, put_stores, found_impl}

-- what `get_session_impl` and `find` say of a BLOB that is stored
stored_impl :
    (sid bid : ℕ) (path : FilePath) (bytes : List ℕ) (s : Server)
    (p : IsStored sid bid path bytes s)
    → get_session_impl sid s.manager ≡ returns p.impl
unfolding get_session_impl
stored_impl sid bid path bytes s p = rw (p.there, get_session_impl) refl

stored_path :
    (sid bid : ℕ) (path : FilePath) (bytes : List ℕ) (s : Server)
    (p : IsStored sid bid path bytes s)
    → find bid p.impl ≡ some path
unfolding find
stored_path sid bid path bytes s p = rw (p.has) (ap some p.named)

-- A BLOB that is stored in a session is delivered to a client that names the session and has the
-- tag that the datastore gives.
pub stored_delivers :
    (api : Api) (chunk_size sid bid : ℕ) (path : FilePath) (bytes : List ℕ) (s : Server) (tag : ℕ)
    → 0 < chunk_size
    → IsStored sid bid path bytes s
    → TagFor api s.manager (session_id sid) bid tag
    → (cs : List (List ℕ)) × IsSplit chunk_size bytes cs
      × (get api chunk_size s (record {
        api_version = api_version;
        context_id = session_id sid;
        blob = record { storage_id = session_storage_id; object_id = bid; tag = tag };
      })
          ≡ ended
              (fails ok (text ""))
              (GetStreamingResponse.metadata (length bytes) ∷ map GetStreamingResponse.chunk cs))
stored_delivers api chunk_size sid bid path bytes s tag pos p t =
    let r : GetStreamingRequest = record {
      api_version = api_version;
      context_id = session_id sid;
      blob = record { storage_id = session_storage_id; object_id = bid; tag = tag };
    } in
    get_delivers api chunk_size s r path bytes pos (omega arith)
      (authorize_session api s r p.impl path p.sound.registered (stored_impl sid bid path bytes s p)
        refl (stored_path sid bid path bytes s p) t)
      p.written

get_tag-same :
    (api : Api) (bid : ℕ) (impl impl' : SessionImpl)
    → impl'.session_id ≡ impl.session_id
    → impl'.transaction_id ≡ impl.transaction_id
    → get_tag api bid impl ≡ get_tag api bid impl'
unfolding get_tag
get_tag-same api bid impl impl' e f = rw (e, f) refl

-- What an upload has stored, a download gives back. On a server in order, let the session be
-- there, the file open, the chunks fit in the quota and have the announced size, if any, the tag
-- be computed, the API version be accepted, the counter of BLOB ids not wrap, and the chunk size
-- not be 0. Then the upload is answered with OK and a reference; and a request by the same session
-- for the BLOB of that reference, with the tag that the datastore gives for it, is answered with
-- OK, the length of the chunks that were uploaded, and their bytes in order, split anew by the
-- chunk size of the server.
pub put-get :
    (o : OpenSsl) (api : Api) (chunk_size : ℕ) (s : Server) (meta : PutMetadata)
    (cs : List (List ℕ)) (impl : SessionImpl) (fs : FileSystem) (tag : ℕ)
    → 0 < chunk_size
    → IsSound 0 s
    → s.blob_id + 1 < word
    → meta.api_version ≤ api_version
    → get_session_impl meta.session_id s.manager ≡ returns impl
    → open_output s.file_system (upload_path s) ≡ some fs
    → s.store.quota + length (flatten cs) < word
    → s.store.current_size + length (flatten cs) ≤ s.store.quota
    → size_matches meta.blob_size (length (flatten cs)) ≡ true
    → compute_tag o (next_id s) impl s.manager ≡ returns tag
    → (t : Server) × (parts : List (List ℕ)) × (put o
          (metadata meta ∷ map PutStreamingRequest.chunk cs)
          s
        ≡ (
          returns (record {
            status = fails ok (text "");
            blob =
                some (record { storage_id = session_storage_id; object_id = next_id s; tag = tag });
          }),
          t,
        ))
      × IsSplit chunk_size (flatten cs) parts
      × (get api chunk_size t (record {
        api_version = api_version;
        context_id = session_id meta.session_id;
        blob = record {
          storage_id = session_storage_id;
          object_id = next_id s;
          tag = get_tag api (next_id s) impl;
        };
      })
          ≡ ended (fails ok (text "")) (
              GetStreamingResponse.metadata (length (flatten cs))
              ∷ map GetStreamingResponse.chunk parts))
put-get o api chunk_size s meta cs impl fs tag pos v fits version there opens small room matches
      tagged =
    let (t, e, p, a) =
      put_stores o s meta cs impl fs tag v fits version there opens small room matches tagged in
    let (impl', at, same_id, same_transaction) =
      a.sessions meta.session_id impl (found_impl meta.session_id s.manager impl there) in
    let same : impl' ≡ p.impl = cc (p.there, at) in
    let (parts, split, got) =
      stored_delivers api chunk_size meta.session_id (next_id s) (upload_path s) (flatten cs) t
        (get_tag api (next_id s) impl) pos p
        (
          p.impl,
          stored_impl meta.session_id (next_id s) (upload_path s) (flatten cs) t p,
          get_tag-same api (next_id s) impl impl' same_id same_transaction
              ∙ ap (get_tag api (next_id s)) same,
        ) in
    (t, parts, e, split, got)
