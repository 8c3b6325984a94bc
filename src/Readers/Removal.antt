-- ===== src/Readers/Removal.antt =====
-- What a download does when its file, or its session, goes between two steps of the handler.
use data_relay_grpc.Base.{
  ℕ, ◌≡◌, refl, sym, ap, ◌∙◌, subst, true, false, not, List, [], ◌∷◌, ◌++◌, none, some, arith,
  length,
}
use data_relay_grpc.OrderedMap.{find}
use data_relay_grpc.FileSystem.{FilePath, regular, find_node, node, exists}
use data_relay_grpc.Session.{Blob, SessionImpl, entries, delete_entries}
use data_relay_grpc.Session.Disposal.{for_each-Deleted}
use data_relay_grpc.Manager.{Api, Server, dispose_session, context}
use data_relay_grpc.Manager.Lifecycle.{dispose_session_returns, dispose_session_lem}
use data_relay_grpc.Manager.History.{IsSound}
use data_relay_grpc.Outcome.{returns}
use data_relay_grpc.Relay.{GetStreamingRequest}
use data_relay_grpc.Download.{Origin}
use data_relay_grpc.Readers.{
  Sight, Phase, comparing, finding, tagging, sizing, opening, reading, crashed, accept, finished,
  size_step, read_step, step, walk,
}
use data_relay_grpc.Readers.Checked.{walk-ended}

walk-append :
    (api : Api) (c : ℕ) (r : GetStreamingRequest) (vs ws : List Sight) (p : Phase)
    → walk api c r p (vs ++ ws) ≡ walk api c r (walk api c r p vs) ws
unfolding walk
walk-append api c r [] ws p = refl
walk-append api c r (v ∷ vs) ws p = walk-append api c r vs ws (step api c r p v)

walk-crashed :
    (api : Api) (c : ℕ) (r : GetStreamingRequest) (vs : List Sight)
    → walk api c r crashed vs ≡ crashed
unfolding walk step
walk-crashed api c r [] = refl
walk-crashed api c r (v ∷ vs) = walk-crashed api c r vs

-- A session that is ended takes the files of its BLOBs with it.
dispose_session-exists :
    {lost : ℕ} (sid bid : ℕ) (s t : Server) (impl : SessionImpl) (b : Blob)
    → IsSound lost s
    → find sid s.blob_sessions ≡ some impl
    → find bid impl.blobs ≡ some b
    → dispose_session sid s ≡ (returns tt, t)
    → exists t.file_system b.path ≡ false
unfolding exists node delete_entries
dispose_session-exists sid bid s t impl b sound there has e =
    let (other, there', _, cleared, _) =
      (dispose_session_lem sid s t sound.registered sound.booked e).3 in
    let same : impl ≡ other = cc in
    let (other', c, there2, done, at) = dispose_session_returns sid s t e in
    let same' : impl ≡ other' = cc in
    let resolved : t.file_system.resolve ≡ s.file_system.resolve =
      ap (λ (u : Server). u.file_system.resolve) at
      ∙ (for_each-Deleted (entries other') (context s other') c
          (sound.booked.numbered sid other' there2).0 done).system.resolve in
    let gone = cleared bid b (subst (λ (x : SessionImpl). find bid x.blobs ≡ some b) same has) in
    let here : find_node (t.file_system.resolve b.path) t.file_system.nodes ≡ none =
      subst (λ f. find_node (f b.path) t.file_system.nodes ≡ none) (sym resolved) gone in
    rw here refl

-- Where the file of a BLOB of a session is a regular file when `Get` takes its size, and on that
-- server, which is in order, that session is ended by a call that returns before the stream is
-- opened, then after one more step, whatever other calls have done before and do after, the client
-- has got the size of the file, no data, and OK.
pub walk_truncates :
    {lost : ℕ} (api : Api) (c : ℕ) (r : GetStreamingRequest) (sid bid : ℕ) (impl : SessionImpl)
    (b : Blob) (bytes : List ℕ) (before after : List Sight) (v w x : Sight)
    → walk api c r (accept r) before ≡ sizing b.path
    → IsSound lost v.server
    → find sid v.server.blob_sessions ≡ some impl
    → find bid impl.blobs ≡ some b
    → node v.server.file_system b.path ≡ some (regular bytes)
    → dispose_session sid v.server ≡ (returns tt, w.server)
    → walk api c r (accept r) (before ++ v ∷ w ∷ x ∷ after) ≡ finished (length bytes) []
unfolding walk step size_step read_step
walk_truncates api c r sid bid impl b bytes before after v w x at sound there has is e =
    walk-append api c r before (v ∷ w ∷ x ∷ after) (accept r)
    ∙ ap (λ p. walk api c r p (v ∷ w ∷ x ∷ after)) at
    ∙ ap (λ p. walk api c r p (w ∷ x ∷ after)) sized
    ∙ ap (λ p. walk api c r p (x ∷ after)) failed
    ∙ walk-ended api c r after _ _
  where
    sized : step api c r (sizing b.path) v ≡ opening b.path (length bytes)
    sized = ground (arith, is)

    failed : step api c r (opening b.path (length bytes)) w ≡ reading b.path (length bytes) [] true
    failed =
        ap (λ y. reading b.path (length bytes) [] (not y))
          (dispose_session-exists sid bid v.server w.server impl b sound there has e)

-- The next thing that the handler does is a use of its reference to the session.
pub data UsesSession (sid : ℕ) : Phase → Type 0 where
  for_transaction : (o : Origin) (tid : ℕ) → o.session ≡ sid → UsesSession sid (comparing o tid)
  for_blob : (o : Origin) → o.session ≡ sid → UsesSession sid (finding o)
  for_tag : (o : Origin) (path : FilePath) → o.session ≡ sid → UsesSession sid (tagging o path)

removed_crashes :
    (api : Api) (c : ℕ) (r : GetStreamingRequest) (sid : ℕ) (v : Sight) {p : Phase}
    → UsesSession sid p
    → find sid v.server.blob_sessions ≡ none
    → step api c r p v ≡ crashed
unfolding step
removed_crashes api c r sid v (for_transaction o tid mine) removed =
    let e : find o.session v.server.blob_sessions ≡ none = rw mine removed in ground (arith, e)
removed_crashes api c r sid v (for_blob o mine) removed =
    let e : find o.session v.server.blob_sessions ≡ none = rw mine removed in ground (arith, e)
removed_crashes api c r sid v (for_tag o path mine) removed =
    let e : find o.session v.server.blob_sessions ≡ none = rw mine removed in ground (arith, e)

-- After the end of a session that returns on a server in order, a download that is about to use
-- its reference to that session (to compare the transaction, to find the BLOB or for the tag) uses
-- a session that is gone, whatever comes after.
pub dispose_session-walk :
    {lost : ℕ} (api : Api) (c : ℕ) (r : GetStreamingRequest) (sid : ℕ) (s : Server) (v : Sight)
    (vs : List Sight) (p : Phase)
    → IsSound lost s
    → dispose_session sid s ≡ (returns tt, v.server)
    → UsesSession sid p
    → walk api c r p (v ∷ vs) ≡ crashed
unfolding walk
dispose_session-walk api c r sid s v vs p sound e uses =
    ap (λ q. walk api c r q vs)
      (removed_crashes api c r sid v uses
        (dispose_session_lem sid s v.server sound.registered sound.booked e).2)
    ∙ walk-crashed api c r vs
