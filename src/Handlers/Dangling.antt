-- ===== src/Handlers/Dangling.antt =====
-- A handler's reference to its session, after the session is gone.
use data_relay_grpc.Base.{ℕ, ◌≡◌, refl, List, ◌∷◌, none, length}
use data_relay_grpc.OrderedMap.{find}
use data_relay_grpc.Text.{text}
use data_relay_grpc.TagGenerator.{OpenSsl}
use data_relay_grpc.Session.{Context, create_blob_file, reserve_session_store, delete_blob_file}
use data_relay_grpc.Manager.{Server, dispose_session, with_session}
use data_relay_grpc.Manager.Lifecycle.{dispose_session_lem}
use data_relay_grpc.Manager.History.{IsSound}
use data_relay_grpc.Outcome.{returns, undefined, M}
use data_relay_grpc.Relay.{PutMetadata, PutStreamingRequest, chunk}
use data_relay_grpc.FileSystem.{FilePath}
use data_relay_grpc.Handlers.{
  Phase, creating, reading, exhausting, tagging, crashed, tag_step, step,
}

-- The next thing that the handler does is a call through its reference to the session.
pub data CallsSession (sid : ℕ) : Phase → Type 0 where
  for_file :
      (m : PutMetadata) (rs : List PutStreamingRequest)
      → m.session_id ≡ sid
      → CallsSession sid (creating m rs)
  for_chunk :
      (m : PutMetadata) (rs : List PutStreamingRequest) (bid : ℕ) (path : FilePath) (total : ℕ)
      (bytes : List ℕ)
      → m.session_id ≡ sid
      → CallsSession sid (reading m (chunk bytes ∷ rs) bid path total)
  for_refusal :
      (m : PutMetadata) (bid : ℕ) → m.session_id ≡ sid → CallsSession sid (exhausting m bid)
  for_tag : (m : PutMetadata) (bid : ℕ) → m.session_id ≡ sid → CallsSession sid (tagging m bid)

pub gone_session :
    {A : Type 0} (sid : ℕ) (method : M Context A) (s : Server)
    → find sid s.blob_sessions ≡ none
    → with_session sid method s ≡ (undefined, s)
unfolding with_session
gone_session sid method s gone = rw (gone, with_session) refl

gone_crashes :
    (o : OpenSsl) (sid : ℕ) (s : Server) {p : Phase}
    → CallsSession sid p
    → find sid s.blob_sessions ≡ none
    → (step o p s).0 ≡ crashed
unfolding step tag_step
gone_crashes o sid s (for_file m rs mine) gone =
    rw (gone_session m.session_id (create_blob_file (text "upload")) s (rw mine gone)) refl
gone_crashes o sid s (for_chunk m rs bid path total bytes mine) gone =
    rw (gone_session m.session_id (reserve_session_store bid (length bytes)) s (rw mine gone)) refl
gone_crashes o sid s (for_refusal m bid mine) gone =
    rw (gone_session m.session_id (delete_blob_file bid) s (rw mine gone)) refl
gone_crashes o sid s (for_tag m bid mine) gone = rw (mine, gone, tag_step) refl

-- After the end of a session that returns on a server in order, the next step of a handler that is
-- about to call a method of that session through its reference (for a new file, for a chunk, for a
-- refusal or for the tag) uses a session that is gone.
pub dispose-step :
    {lost : ℕ} (o : OpenSsl) (sid : ℕ) (s t : Server) (p : Phase)
    → IsSound lost s
    → dispose_session sid s ≡ (returns tt, t)
    → CallsSession sid p
    → (step o p t).0 ≡ crashed
dispose-step o sid s t p v e mine =
    gone_crashes o sid t mine (dispose_session_lem sid s t v.registered v.booked e).2
