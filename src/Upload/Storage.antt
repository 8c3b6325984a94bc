-- ===== src/Upload/Storage.antt =====
-- An upload that is stored: from the first request to the reference in the response.
use data_relay_grpc.Base.{
  ℕ, ◌+◌, ◌%◌, ◌≤◌, ◌<◌, ◌≡◌, ◌≢◌, refl, sym, ap, ◌∙◌, inl, inr, true, List, [], ◌∷◌, some, arith,
  map, length, flatten, subst, append-nil,
}
use data_relay_grpc.OrderedMap.{find, emplace}
use data_relay_grpc.OrderedMap.Lookup.{find-assign, find-emplace}
use data_relay_grpc.Text.{text}
use data_relay_grpc.FileSystem.{FilePath, FileSystem, regular, node, open_output, find_node}
use data_relay_grpc.FileSystem.Laws.{find_node-put_node, SameSystem}
use data_relay_grpc.TagGenerator
use data_relay_grpc.TagGenerator.{OpenSsl}
use data_relay_grpc.SessionStore
use data_relay_grpc.SessionStore.{SessionStore, word}
use data_relay_grpc.Session.{Blob, SessionImpl, create_blob_file, get_new_blob_id}
use data_relay_grpc.Session.Accounting.{numbered_fresh}
use data_relay_grpc.Manager.{
  Manager, Server, with_session, context, absorb, get_session_impl, compute_tag,
  generate_reference_tag,
}
use data_relay_grpc.Manager.Lookup.{get_session_impl_cases}
use data_relay_grpc.Manager.History.{creates_blob, IsSound, Step-IsSound}
use data_relay_grpc.Outcome.{Outcome, returns, after}
use data_relay_grpc.Relay.{
  ok, PutStreamingRequest, PutMetadata, metadata, api_version, check_api_version, fails,
}
use data_relay_grpc.Download.{session_storage_id}
use data_relay_grpc.Upload.{
  complete, receive, size_matches, respond, conclude, upload, try_put, caught, put,
}
use data_relay_grpc.Upload.Stream.{
  IsStored, absorb-KeepsSessions, Advances, Advances-trans, with_session_found,
}
use data_relay_grpc.Upload.Chunks.{receive_prefix, receive_end}

-- the id of the next BLOB, and the path of its file
abbrev pub next_id : Server → ℕ
next_id s = (s.blob_id + 1) % word

abbrev pub upload_path : Server → FilePath
upload_path s = SessionStore.create_blob_file s.store (next_id s) (text "upload")

-- the server after `create_blob_file`, and after the file is open
abbrev pub created : ℕ → SessionImpl → Server → Server
created sid impl s = absorb sid s (record (context s impl) {
  impl = record impl {
    blobs = emplace (next_id s) (record { path = upload_path s; size = 0 }) impl.blobs;
  };
  blob_id = next_id s;
})

abbrev pub opened : ℕ → SessionImpl → FileSystem → Server → Server
opened sid impl fs s = record (created sid impl s) { file_system = fs }

pub created_call :
    (sid : ℕ) (impl : SessionImpl) (s : Server)
    → find sid s.blob_sessions ≡ some impl
    → with_session sid (create_blob_file (text "upload")) s
      ≡ (returns (next_id s, upload_path s), created sid impl s)
unfolding create_blob_file get_new_blob_id
created_call sid impl s there =
    with_session_found sid (create_blob_file (text "upload")) s impl there

pub opened-IsSound :
    (sid : ℕ) (impl : SessionImpl) (fs : FileSystem) (s : Server)
    → IsSound 0 s
    → s.blob_id + 1 < word
    → find sid s.blob_sessions ≡ some impl
    → IsSound 0 (opened sid impl fs s)
opened-IsSound sid impl fs s v fits there =
    let w : IsSound 0 (created sid impl s) =
      subst (IsSound 0)
        (ap (λ (x : Outcome (ℕ × FilePath) × Server). x.1) (created_call sid impl s there))
        (Step-IsSound (creates_blob sid (text "upload") fits there) v) in
    record { registered = w.registered; booked = w.booked }

pub open_output_lem :
    (fs fs' : FileSystem) (path : FilePath)
    → open_output fs path ≡ some fs'
    → (node fs' path ≡ some (regular []))
      × SameSystem fs fs'
      × ((q : FilePath) → fs.resolve path ≢ q → find_node q fs'.nodes ≡ find_node q fs.nodes)
unfolding open_output node
open_output_lem fs fs' path e = (
  ground (arith, find_node-put_node (fs.resolve path) (fs.resolve path) (regular []) fs.nodes),
  record { resolve = ground arith; can_open = ground arith; can_remove = ground arith },
  (λ q n. ground (arith, find_node-put_node (fs.resolve path) q (regular []) fs.nodes)),
)

-- After the file is open there is an entry of the BLOB, in the session, for an empty file.
pub opened-IsStored :
    (sid : ℕ) (impl : SessionImpl) (fs : FileSystem) (s : Server)
    → IsSound 0 s
    → s.blob_id + 1 < word
    → find sid s.blob_sessions ≡ some impl
    → open_output s.file_system (upload_path s) ≡ some fs
    → IsStored sid (next_id s) (upload_path s) [] (opened sid impl fs s)
      × Advances (upload_path s) 0 s (opened sid impl fs s)
opened-IsStored sid impl fs s v fits there e =
    let (empty, system, elsewhere) = open_output_lem s.file_system fs (upload_path s) e in
    let (ordered, numbered) = v.booked.numbered sid impl there in
    let fresh = numbered_fresh (context s impl) (next_id s) numbered (omega arith) in
    let b : Blob = record { path = upload_path s; size = 0 } in
    let new : SessionImpl = record impl { blobs = emplace (next_id s) b impl.blobs } in
    (
      record {
        impl = new;
        blob = b;
        sound = opened-IsSound sid impl fs s v fits there;
        there = ground (arith, there, find-assign sid sid new s.blob_sessions);
        has = ground (arith, fresh, find-emplace (next_id s) (next_id s) 0 b impl.blobs ordered);
        named = refl;
        sized = refl;
        counted = omega arith;
        written = empty;
      },
      record {
        used = omega arith;
        same_quota = refl;
        same_key = refl;
        sessions =
            absorb-KeepsSessions sid s impl (context (created sid impl s) new) there refl refl;
        same_system = system;
        elsewhere = elsewhere;
      },
    )

pub found_impl :
    (sid : ℕ) (m : Manager) (impl : SessionImpl)
    → get_session_impl sid m ≡ returns impl
    → find sid m.blob_sessions ≡ some impl
found_impl sid m impl e = elim (get_session_impl_cases sid m) [
  | inl (impl', there, e') ↦ cc
  | inr missing ↦ cc
]

-- `put`, up to the loop over the chunks
pub put-opened :
    (o : OpenSsl) (s : Server) (meta : PutMetadata) (requests : List PutStreamingRequest)
    (impl : SessionImpl) (fs : FileSystem)
    → meta.api_version ≤ api_version
    → get_session_impl meta.session_id s.manager ≡ returns impl
    → open_output s.file_system (upload_path s) ≡ some fs
    → put o (metadata meta ∷ requests) s
      ≡ caught (
          after
            (receive meta.session_id
              (next_id s)
              (upload_path s)
              requests
              0
              (opened meta.session_id impl fs s))
            (conclude o meta.blob_size impl (next_id s) (upload_path s)))
unfolding put try_put upload check_api_version
put-opened o s meta requests impl fs version there opens =
    let call =
      created_call meta.session_id impl s (found_impl meta.session_id s.manager impl there) in
    ground (arith, there, opens, call)

same_tag :
    (o : OpenSsl) (impl : SessionImpl) (bid : ℕ) (s t : Server)
    → t.hmac_secret_key ≡ s.hmac_secret_key
    → compute_tag o bid impl t.manager ≡ compute_tag o bid impl s.manager
unfolding compute_tag generate_reference_tag
same_tag o impl bid s t same =
    ap (λ key. TagGenerator.generate_reference_tag o key bid impl.session_id) same

respond_returns :
    (o : OpenSsl) (impl : SessionImpl) (bid tag : ℕ) (s t : Server)
    → t.hmac_secret_key ≡ s.hmac_secret_key
    → compute_tag o bid impl s.manager ≡ returns tag
    → respond o impl bid t ≡ (
      returns (record {
        status = fails ok (text "");
        blob = some (record { storage_id = session_storage_id; object_id = bid; tag = tag });
      }),
      t,
    )
unfolding respond
respond_returns o impl bid tag s t same e = rw (same_tag o impl bid s t same ∙ e, respond) refl

-- On a server in order, an upload to a session that is there, whose file opens, whose chunks fit
-- in the quota and have the size that the metadata announce, if any, and whose tag is computed, is
-- answered with OK and a reference. Then the session has a new BLOB under the id of the reference;
-- its file holds the chunks, one after the other; the usage has grown by their length; no other
-- file has changed; and the registry and the books are in order. The API version is accepted, and
-- neither the counter of BLOB ids nor the sum wraps.
pub put_stores :
    (o : OpenSsl) (s : Server) (meta : PutMetadata) (cs : List (List ℕ)) (impl : SessionImpl)
    (fs : FileSystem) (tag : ℕ)
    → IsSound 0 s
    → s.blob_id + 1 < word
    → meta.api_version ≤ api_version
    → get_session_impl meta.session_id s.manager ≡ returns impl
    → open_output s.file_system (upload_path s) ≡ some fs
    → s.store.quota + length (flatten cs) < word
    → s.store.current_size + length (flatten cs) ≤ s.store.quota
    → size_matches meta.blob_size (length (flatten cs)) ≡ true
    → compute_tag o (next_id s) impl s.manager ≡ returns tag
    → (t : Server) × (put o (metadata meta ∷ map PutStreamingRequest.chunk cs) s ≡ (
      returns (record {
        status = fails ok (text "");
        blob = some (record { storage_id = session_storage_id; object_id = next_id s; tag = tag });
      }),
      t,
    ))
      × IsStored meta.session_id (next_id s) (upload_path s) (flatten cs) t
      × Advances (upload_path s) (length (flatten cs)) s t
unfolding conclude
put_stores o s meta cs impl fs tag v fits version there opens small room matches tagged =
    let at = found_impl meta.session_id s.manager impl there in
    let (start, first) = opened-IsStored meta.session_id impl fs s v fits at opens in
    let s' : Server = opened meta.session_id impl fs s in
    let (t, e, p, a) =
      receive_prefix meta.session_id (next_id s) (upload_path s) [] cs [] s' start small room in
    let e' : receive meta.session_id (next_id s) (upload_path s) (map PutStreamingRequest.chunk cs)
          0 s'
        ≡ (returns (complete (length (flatten cs))), t) =
      ap (λ rs. receive meta.session_id (next_id s) (upload_path s) rs 0 s')
        (sym (append-nil (map PutStreamingRequest.chunk cs)))
      ∙ e
      ∙ receive_end meta.session_id (next_id s) (upload_path s) (length (flatten cs)) t in
    let whole : Advances (upload_path s) (length (flatten cs)) s t =
      subst (λ k. Advances (upload_path s) k s t) (omega arith) (Advances-trans first a) in
    let answer = respond_returns o impl (next_id s) tag s t whole.same_key tagged in
    (
      t,
      put-opened o s meta (map PutStreamingRequest.chunk cs) impl fs version there opens
          ∙ rw (e', matches, answer) refl,
      p,
      whole,
    )
