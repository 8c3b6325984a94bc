-- ===== src/Upload/Rejection.antt =====
-- `Put`, where the quota is used up in the middle of the upload, and where the announced size is
-- not the size that comes.
use data_relay_grpc.Base.{
  ℕ, ◌+◌, ◌≤◌, ◌<◌, ◌≡◌, ◌≢◌, refl, sym, ap, ◌∙◌, true, false, List, [], ◌∷◌, ◌++◌, none, some,
  arith, map, length, flatten, subst, append-nil,
}
use data_relay_grpc.OrderedMap.{find}
use data_relay_grpc.Text.{text}
use data_relay_grpc.FileSystem.{FilePath, FileSystem, removed, open_output, find_node}
use data_relay_grpc.TagGenerator.{OpenSsl}
use data_relay_grpc.SessionStore.{word}
use data_relay_grpc.Session.{Blob, SessionImpl}
use data_relay_grpc.Manager.{Server, get_session_impl}
use data_relay_grpc.Manager.History.{IsSound}
use data_relay_grpc.Outcome.{returns}
use data_relay_grpc.Relay.{
  invalid_argument, PutStreamingRequest, PutMetadata, metadata, api_version, fails,
}
use data_relay_grpc.Upload.{
  refused, complete, stopped, exhausted, receive, size_matches, discard, conclude, put,
}
use data_relay_grpc.Upload.Stream.{IsStored, Advances, Advances-trans}
use data_relay_grpc.Upload.Chunks.{receive_prefix, receive_end}
use data_relay_grpc.Upload.Storage.{
  next_id, upload_path, opened, opened-IsStored, put-opened, found_impl,
}
use data_relay_grpc.Upload.Refusal.{
  withdrawn, withdrawn-IsWithdrawn, receive_exhausted, give_up_lem, stored_removable, removed_lem,
}

still_removable :
    (path : FilePath) (n : ℕ) (s t : Server)
    → Advances path n s t
    → s.file_system.can_remove (s.file_system.resolve path) ≡ true
    → t.file_system.can_remove (t.file_system.resolve path) ≡ true
still_removable path n s t a can = rw (a.same_system.can_remove, a.same_system.resolve) can

-- On a server in order, an upload to a session that is there, whose file opens and can be removed,
-- and whose chunks come to a total over the quota, is answered with RESOURCE_EXHAUSTED, whatever
-- the client sends after the chunk that does not fit. Nothing of it is left: the entry and the
-- file are gone, the usage is what it was before, no other file has changed, and the registry and
-- the books are in order. The API version is accepted, and neither the counter of BLOB ids nor the
-- sum wraps.
pub put-exhausted :
    (o : OpenSsl) (s : Server) (meta : PutMetadata) (cs : List (List ℕ)) (c : List ℕ)
    (rest : List PutStreamingRequest) (impl : SessionImpl) (fs : FileSystem)
    → IsSound 0 s
    → s.blob_id + 1 < word
    → meta.api_version ≤ api_version
    → get_session_impl meta.session_id s.manager ≡ returns impl
    → open_output s.file_system (upload_path s) ≡ some fs
    → s.file_system.can_remove (s.file_system.resolve (upload_path s)) ≡ true
    → s.store.quota + length (flatten cs) < word
    → s.store.current_size + length (flatten cs) ≤ s.store.quota
    → s.store.quota + length c < word
    → s.store.quota < s.store.current_size + length (flatten cs) + length c
    → (t : Server) × (put o
          (metadata meta
            ∷ (map PutStreamingRequest.chunk cs ++ (PutStreamingRequest.chunk c ∷ rest)))
          s
        ≡ (returns (refused exhausted), t))
      × IsSound 0 t
      × (t.store.current_size ≡ s.store.current_size)
      × ((impl' : SessionImpl) × (find meta.session_id t.blob_sessions ≡ some impl')
          × (find (next_id s) impl'.blobs ≡ none))
      × (find_node (s.file_system.resolve (upload_path s)) t.file_system.nodes ≡ none)
      × ((q : FilePath)
          → s.file_system.resolve (upload_path s) ≢ q
          → find_node q t.file_system.nodes ≡ find_node q s.file_system.nodes)
unfolding conclude
put-exhausted o s meta cs c rest impl fs v fits version there opens can small room small' over =
    let sid = meta.session_id in
    let path = upload_path s in
    let (start, first) =
      opened-IsStored sid impl fs s v fits (found_impl sid s.manager impl there) opens in
    let s' : Server = opened sid impl fs s in
    let (t, e, p, a) =
      receive_prefix sid (next_id s) path [] cs (PutStreamingRequest.chunk c ∷ rest) s' start small
        room in
    let whole = Advances-trans first a in
    let can' = still_removable path _ s t whole can in
    let u : Server = withdrawn sid (next_id s) p.impl p.blob t in
    let stop : receive sid (next_id s) path
          (map PutStreamingRequest.chunk cs ++ (PutStreamingRequest.chunk c ∷ rest)) 0 s'
        ≡ (returns (stopped exhausted), u) =
      e
      ∙ receive_exhausted sid (next_id s) path (flatten cs) c rest (length (flatten cs)) t p
          (omega (arith, whole.same_quota)) (omega (arith, whole.same_quota, whole.used))
      ∙ give_up_lem sid (next_id s) path (flatten cs) t p can' in
    let w = withdrawn-IsWithdrawn sid (next_id s) path (flatten cs) t p can' in
    (
      u,
      put-opened o s meta _ impl fs version there opens ∙ rw stop refl,
      w.sound,
      omega (arith, w.used, whole.used),
      (w.impl, w.there, w.gone),
      subst (λ (r : FilePath → FilePath). find_node (r path) u.file_system.nodes ≡ none)
          whole.same_system.resolve w.cleared,
      (λ q n.
          w.elsewhere q
            (subst (λ (r : FilePath → FilePath). r path ≢ q) (sym whole.same_system.resolve) n)
          ∙ whole.elsewhere q n),
    )

discard_lem :
    (sid bid : ℕ) (path : FilePath) (bytes : List ℕ) (s : Server)
    (p : IsStored sid bid path bytes s)
    → s.file_system.can_remove (s.file_system.resolve path) ≡ true
    → discard path s ≡ (
      returns (
          refused (
            fails invalid_argument
              (text "the size in the metadata does not match the size of the sent blob"))),
      record s { file_system = removed s.file_system path },
    )
unfolding discard
discard_lem sid bid path bytes s p can =
    rw (stored_removable s.file_system path bytes p.written can, discard) refl

-- On a server in order, an upload to a session that is there, whose file opens and can be removed,
-- and whose chunks fit in the quota but have not the size that the metadata announce, is answered
-- with INVALID_ARGUMENT. The file is gone, but the entry of the BLOB stays in the session, and the
-- usage stays higher by the length of the chunks. The API version is accepted, and neither the
-- counter of BLOB ids nor the sum wraps.
pub put_mismatch :
    (o : OpenSsl) (s : Server) (meta : PutMetadata) (cs : List (List ℕ)) (impl : SessionImpl)
    (fs : FileSystem)
    → IsSound 0 s
    → s.blob_id + 1 < word
    → meta.api_version ≤ api_version
    → get_session_impl meta.session_id s.manager ≡ returns impl
    → open_output s.file_system (upload_path s) ≡ some fs
    → s.file_system.can_remove (s.file_system.resolve (upload_path s)) ≡ true
    → s.store.quota + length (flatten cs) < word
    → s.store.current_size + length (flatten cs) ≤ s.store.quota
    → size_matches meta.blob_size (length (flatten cs)) ≡ false
    → (t : Server) × (put o (metadata meta ∷ map PutStreamingRequest.chunk cs) s ≡ (
      returns (
          refused (
            fails invalid_argument
              (text "the size in the metadata does not match the size of the sent blob"))),
      t,
    ))
      × (find_node (s.file_system.resolve (upload_path s)) t.file_system.nodes ≡ none)
      × (t.store.current_size ≡ s.store.current_size + length (flatten cs))
      × ((impl' : SessionImpl) × (b : Blob) × (find meta.session_id t.blob_sessions ≡ some impl')
          × (find (next_id s) impl'.blobs ≡ some b)
          × (b.size ≡ length (flatten cs)))
unfolding conclude
put_mismatch o s meta cs impl fs v fits version there opens can small room differs =
    let sid = meta.session_id in
    let path = upload_path s in
    let (start, first) =
      opened-IsStored sid impl fs s v fits (found_impl sid s.manager impl there) opens in
    let s' : Server = opened sid impl fs s in
    let (t, e, p, a) = receive_prefix sid (next_id s) path [] cs [] s' start small room in
    let whole = Advances-trans first a in
    let can' = still_removable path _ s t whole can in
    let end : receive sid (next_id s) path (map PutStreamingRequest.chunk cs) 0 s'
        ≡ (returns (complete (length (flatten cs))), t) =
      ap (λ rs. receive sid (next_id s) path rs 0 s')
        (sym (append-nil (map PutStreamingRequest.chunk cs)))
      ∙ e
      ∙ receive_end sid (next_id s) path (length (flatten cs)) t in
    let answer = discard_lem sid (next_id s) path (flatten cs) t p can' in
    (
      record t { file_system = removed t.file_system path },
      put-opened o s meta _ impl fs version there opens ∙ rw (end, differs, answer) refl,
      subst
          (λ (r : FilePath → FilePath).
            find_node (r path) (removed t.file_system path).nodes ≡ none)
          whole.same_system.resolve
          (ground (arith, removed_lem t.file_system path (t.file_system.resolve path))),
      omega (arith, whole.used),
      (p.impl, p.blob, p.there, p.has, p.sized),
    )
