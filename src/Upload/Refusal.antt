-- ===== src/Upload/Refusal.antt =====
-- Uploads that are refused after their file is open.
use data_relay_grpc.Base.{
  ℕ, ◌+◌, ◌<◌, ◌≡◌, ◌≢◌, refl, sym, ap, ◌∙◌, Bool, true, false, List, ◌∷◌, none, some, arith,
  length, ite, subst,
}
use data_relay_grpc.OrderedMap.{find, erase}
use data_relay_grpc.OrderedMap.Lookup.{find-assign, find-erase}
use data_relay_grpc.FileSystem.{
  FilePath, FilePath-discrete, FileSystem, regular, node, exists, is_removable, remove, removed,
  find_node,
}
use data_relay_grpc.FileSystem.Laws.{find_node-erase_node}
use data_relay_grpc.SessionStore.{SessionStore, word}
use data_relay_grpc.SessionStore.Usage.{remove_lem}
use data_relay_grpc.Session.{
  Blob, SessionImpl, Context, reserve_session_store, delete_blob_file, delete_found,
  remove_if_exists,
}
use data_relay_grpc.Session.Deletion.{deleted}
use data_relay_grpc.Manager.{Server, with_session, context, absorb}
use data_relay_grpc.Manager.History.{IsSound, deletes-IsSound}
use data_relay_grpc.Outcome.{Outcome, returns}
use data_relay_grpc.Relay.{PutStreamingRequest}
use data_relay_grpc.Upload.{stopped, exhausted, receive, give_up}
use data_relay_grpc.Upload.Stream.{IsStored, with_session_found, assign_same, reserve_refused}

pub stored_removable :
    (fs : FileSystem) (path : FilePath) (bytes : List ℕ)
    → node fs path ≡ some (regular bytes)
    → fs.can_remove (fs.resolve path) ≡ true
    → remove fs path ≡ some (removed fs path)
unfolding remove is_removable exists
stored_removable fs path bytes written can = ground (arith, written, can)

delete_stored :
    (c : Context) (bid : ℕ) (b : Blob) (bytes : List ℕ)
    → find bid c.blobs ≡ some b
    → node c.file_system b.path ≡ some (regular bytes)
    → c.file_system.can_remove (c.file_system.resolve b.path) ≡ true
    → delete_blob_file bid c ≡ (returns tt, deleted bid b (removed c.file_system b.path) c)
unfolding delete_blob_file delete_found remove_if_exists exists
delete_stored c bid b bytes has written can =
    ground (arith, has, written, can, stored_removable c.file_system b.path bytes written can)

-- the chunk that does not fit
pub receive_exhausted :
    (sid bid : ℕ) (path : FilePath) (bytes chunk : List ℕ) (rest : List PutStreamingRequest)
    (total : ℕ) (s : Server)
    → IsStored sid bid path bytes s
    → s.store.quota + length chunk < word
    → s.store.quota < s.store.current_size + length chunk
    → receive sid bid path (PutStreamingRequest.chunk chunk ∷ rest) total s ≡ give_up sid bid s
unfolding receive
receive_exhausted sid bid path bytes chunk rest total s p fits over =
    let r =
      reserve_refused (context s p.impl) bid (length chunk) p.sound.booked.set fits
        p.sound.booked.within over in
    let call : with_session sid (reserve_session_store bid (length chunk)) s ≡ (returns false, s) =
      with_session_found sid (reserve_session_store bid (length chunk)) s p.impl p.there
      ∙ ap (λ (x : Outcome Bool × Context). (x.0, absorb sid s x.1)) r
      ∙ ap
          (λ m. (
            returns false,
            (let u : Server = record s { manager = record (s.manager) { blob_sessions = m } } in u),
          ))
          (assign_same sid p.impl s.blob_sessions p.there) in
    rw call refl

-- the server after a BLOB is deleted again
abbrev pub withdrawn : (sid bid : ℕ) → SessionImpl → Blob → Server → Server
withdrawn sid bid impl b s =
    absorb sid s (deleted bid b (removed s.file_system b.path) (context s impl))

withdraw_call :
    (sid bid : ℕ) (path : FilePath) (bytes : List ℕ) (s : Server)
    (p : IsStored sid bid path bytes s)
    → s.file_system.can_remove (s.file_system.resolve path) ≡ true
    → delete_blob_file bid (context s p.impl)
      ≡ (returns tt, deleted bid p.blob (removed s.file_system p.blob.path) (context s p.impl))
withdraw_call sid bid path bytes s p can =
    let at_path = λ (q : FilePath). node s.file_system q ≡ some (regular bytes) in
    let removable = λ (q : FilePath). s.file_system.can_remove (s.file_system.resolve q) ≡ true in
    delete_stored (context s p.impl) bid p.blob bytes p.has (subst at_path (sym p.named) p.written)
      (subst removable (sym p.named) can)

withdraw_with_session :
    (sid bid : ℕ) (path : FilePath) (bytes : List ℕ) (s : Server)
    (p : IsStored sid bid path bytes s)
    → s.file_system.can_remove (s.file_system.resolve path) ≡ true
    → with_session sid (delete_blob_file bid) s ≡ (returns tt, withdrawn sid bid p.impl p.blob s)
withdraw_with_session sid bid path bytes s p can =
    with_session_found sid (delete_blob_file bid) s p.impl p.there
    ∙ ap (λ (x : Outcome (Unit {0}) × Context). (x.0, absorb sid s x.1))
        (withdraw_call sid bid path bytes s p can)

pub give_up_lem :
    (sid bid : ℕ) (path : FilePath) (bytes : List ℕ) (s : Server)
    (p : IsStored sid bid path bytes s)
    → s.file_system.can_remove (s.file_system.resolve path) ≡ true
    → give_up sid bid s ≡ (returns (stopped exhausted), withdrawn sid bid p.impl p.blob s)
unfolding give_up
give_up_lem sid bid path bytes s p can = rw (withdraw_with_session sid bid path bytes s p can) refl

-- All that is left of a BLOB that is withdrawn: nothing.
pub record IsWithdrawn (sid bid : ℕ) (path : FilePath) (n : ℕ) (s t : Server) : Type 0 where
  pub sound : IsSound 0 t
  pub impl : SessionImpl
  pub there : find sid t.blob_sessions ≡ some impl
  pub gone : find bid impl.blobs ≡ none
  pub used : t.store.current_size + n ≡ s.store.current_size
  pub cleared : find_node (s.file_system.resolve path) t.file_system.nodes ≡ none
  pub elsewhere :
      (q : FilePath)
      → s.file_system.resolve path ≢ q
      → find_node q t.file_system.nodes ≡ find_node q s.file_system.nodes

pub removed_lem :
    (fs : FileSystem) (path q : FilePath)
    → find_node q (removed fs path).nodes
      ≡ ite (FilePath-discrete (fs.resolve path) q) none (find_node q fs.nodes)
unfolding removed
removed_lem fs path q = find_node-erase_node (fs.resolve path) q fs.nodes

withdrawn-IsSound :
    (sid bid : ℕ) (path : FilePath) (bytes : List ℕ) (s : Server)
    (p : IsStored sid bid path bytes s)
    → s.file_system.can_remove (s.file_system.resolve path) ≡ true
    → IsSound 0 (withdrawn sid bid p.impl p.blob s)
withdrawn-IsSound sid bid path bytes s p can =
    deletes-IsSound sid bid s _ (withdraw_with_session sid bid path bytes s p can) p.sound

pub withdrawn-IsWithdrawn :
    (sid bid : ℕ) (path : FilePath) (bytes : List ℕ) (s : Server)
    (p : IsStored sid bid path bytes s)
    → s.file_system.can_remove (s.file_system.resolve path) ≡ true
    → IsWithdrawn sid bid path (length bytes) s (withdrawn sid bid p.impl p.blob s)
withdrawn-IsWithdrawn sid bid path bytes s p can =
    let ordered = (p.sound.booked.numbered sid p.impl p.there).0 in
    let new : SessionImpl = record (p.impl) { blobs = erase bid (p.impl).blobs } in
    let small : s.store.current_size < word =
      omega (arith, p.sound.booked.within, p.sound.booked.small) in
    let back =
      remove_lem s.store p.blob.size p.sound.booked.set (omega (arith, p.sized, p.counted)) small in
    record {
      sound = withdrawn-IsSound sid bid path bytes s p can;
      impl = new;
      there = ground (arith, p.there, find-assign sid sid new s.blob_sessions);
      gone = ground (arith, find-erase bid bid 0 (p.impl).blobs ordered);
      used = omega (arith, ap (λ (x : SessionStore). x.current_size) back, p.sized, p.counted);
      cleared =
          subst (λ q. find_node (s.file_system.resolve path) (removed s.file_system q).nodes ≡ none)
            (sym p.named)
            (ground (arith, removed_lem s.file_system path (s.file_system.resolve path)));
      elsewhere = λ q n.
          subst (λ r. find_node q (removed s.file_system r).nodes ≡ find_node q s.file_system.nodes)
            (sym p.named) (ground (arith, removed_lem s.file_system path q));
    }
