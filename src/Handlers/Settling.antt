-- ===== src/Handlers/Settling.antt =====
-- One step of a handler whose session and BLOB are there.
use data_relay_grpc.Base.{
  ℕ, ◌+◌, ◌%◌, ◌<◌, ◌≡◌, ◌≢◌, refl, ap, ◌∙◌, inl, inr, Bool, true, false, List, [], ◌∷◌, Option,
  some, arith, Option-cases, Bool-cases, length, dec_lt, if◌then◌else◌,
}
use data_relay_grpc.OrderedMap.{find, emplace}
use data_relay_grpc.OrderedMap.Lookup.{find-assign, find-emplace}
use data_relay_grpc.Text.{text}
use data_relay_grpc.FileSystem.{FilePath, open_output, remove}
use data_relay_grpc.TagGenerator.{OpenSsl}
use data_relay_grpc.SessionStore.{SessionStore, word}
use data_relay_grpc.Session.{
  Blob, SessionImpl, create_blob_file, reserve_session_store, delete_blob_file,
}
use data_relay_grpc.Session.Accounting.{numbered_fresh}
use data_relay_grpc.Session.Deletion.{delete_blob_file_cases}
use data_relay_grpc.Upload.{size_matches, refused, exhausted}
use data_relay_grpc.Upload.Storage.{next_id, upload_path, created_call}
use data_relay_grpc.Upload.Stream.{with_session_found, reserve_refused, reserve_granted, granted}
use data_relay_grpc.Upload.Soundness.{tag_ends}
use data_relay_grpc.Manager.{Manager, Server, with_session, context, get_session_impl}
use data_relay_grpc.Manager.Lookup.{get_session_impl_cases}
use data_relay_grpc.Manager.History.{IsSound}
use data_relay_grpc.Outcome.{Exception, is_out_of_range}
use data_relay_grpc.Relay.{PutMetadata, PutStreamingRequest, metadata, chunk, not_set}
use data_relay_grpc.Handlers.{
  Phase, starting, creating, opening, reading, writing, exhausting, discarding, tagging, ended,
  thrown, crashed, raised, next_phase, opened_phase, reserved_phase, tag_step, open_step,
  discard_step, step,
}
use data_relay_grpc.Handlers.System.{IsFitting}
use data_relay_grpc.Handlers.Sharing.{Has, write_stream_manager}
use data_relay_grpc.Handlers.Apart.{Owns}
use data_relay_grpc.Handlers.Sparing.{HasSession, Spares}

-- The session of a handler that has found it is there, and so is its BLOB once it has one; it has
-- not used what is gone.
abbrev pub IsPlaced : Server → Phase → Type 0
IsPlaced s (creating m rs) = HasSession s m.session_id
IsPlaced s (opening m rs bid path) = Has s m.session_id bid
IsPlaced s (reading m rs bid path total) = Has s m.session_id bid
IsPlaced s (writing m rs bid path total bytes) = Has s m.session_id bid
IsPlaced s (exhausting m bid) = Has s m.session_id bid
IsPlaced s (tagging m bid) = Has s m.session_id bid
IsPlaced s crashed = ⊥
IsPlaced s _ = Unit

pub IsPlaced-moves :
    (dropped : Option ℕ) (st : SessionStore) (s t : Server) (p : Phase)
    → Spares dropped s t
    → ((b : ℕ) → Owns st b p → some b ≢ dropped)
    → IsPlaced s p
    → IsPlaced t p
IsPlaced-moves d st s t (starting m rs) e f h = tt
IsPlaced-moves d st s t (creating m rs) e f h = e.sessions m.session_id h
IsPlaced-moves d st s t (opening m rs bid path) e f h = e.blobs m.session_id bid (f bid refl) h
IsPlaced-moves d st s t (reading m rs bid path total) e f h =
    e.blobs m.session_id bid (f bid refl) h
IsPlaced-moves d st s t (writing m rs bid path total bytes) e f h =
    e.blobs m.session_id bid (f bid refl) h
IsPlaced-moves d st s t (exhausting m bid) e f h = e.blobs m.session_id bid (f bid refl) h
IsPlaced-moves d st s t (tagging m bid) e f h = e.blobs m.session_id bid (f bid refl) h
IsPlaced-moves d st s t (discarding path) e f h = tt
IsPlaced-moves d st s t (ended r) e f h = tt
IsPlaced-moves d st s t (thrown x) e f h = tt
IsPlaced-moves d st s t crashed e f h = h

raised-IsPlaced : (s : Server) (x : Exception) → IsPlaced s (raised x)
raised-IsPlaced s x = elim (Bool-cases (is_out_of_range x)) [
  | inl range ↦ rw range tt
  | inr other ↦ rw other tt
]

-- the handler and the server after a step
abbrev pub Settled : Phase × Server → Type 0
Settled (p, s) = IsPlaced s p

starting-Settled :
    (m : PutMetadata) (rs : List PutStreamingRequest) (s : Server)
    → Settled (
        next_phase
          (λ (_ : SessionImpl). creating m rs)
          (get_session_impl m.session_id s.manager, s))
starting-Settled m rs s = elim (get_session_impl_cases m.session_id s.manager) [
  | inl (impl, there, found) ↦ rw found (impl, there)
  | inr missing ↦ rw missing tt
]

creating-Settled :
    {lost : ℕ} (m : PutMetadata) (rs : List PutStreamingRequest) (s : Server)
    → IsSound lost s
    → s.blob_id + 1 < word
    → HasSession s m.session_id
    → Settled (
        next_phase
          (opened_phase m rs)
          (with_session m.session_id (create_blob_file (text "upload")) s))
creating-Settled m rs s v fits (impl, there) =
    let b : Blob = record { path = upload_path s; size = 0 } in
    let new : SessionImpl = record impl { blobs = emplace (next_id s) b impl.blobs } in
    let (ordered, numbered) = v.booked.numbered m.session_id impl there in
    let absent = numbered_fresh (context s impl) (next_id s) numbered (omega arith) in
    let at : find (next_id s) new.blobs ≡ some b =
      ground (arith, absent, find-emplace (next_id s) (next_id s) 0 b impl.blobs ordered) in
    rw (created_call m.session_id impl s there)
      (new, b, ground (arith, there, find-assign m.session_id m.session_id new s.blob_sessions), at)

reading-Settled :
    {lost : ℕ} (m : PutMetadata) (rs : List PutStreamingRequest) (bid : ℕ) (path : FilePath)
    (total : ℕ) (bytes : List ℕ) (s : Server)
    → s.store.quota + length bytes < word
    → IsSound lost s
    → Has s m.session_id bid
    → Settled (
        next_phase
          (reserved_phase m rs bid path total bytes)
          (with_session m.session_id (reserve_session_store bid (length bytes)) s))
reading-Settled m rs bid path total bytes s fits v (impl, b, there, at) =
    let method = reserve_session_store bid (length bytes) in
    let found = with_session_found m.session_id method s impl there in
    elim (dec_lt s.store.quota (s.store.current_size + length bytes)) [
      | yes over ↦
          let e =
            reserve_refused (context s impl) bid (length bytes) v.booked.set fits v.booked.within
              over in
          rw (found, e)
            (
              impl,
              b,
              ground (arith, there, find-assign m.session_id m.session_id impl s.blob_sessions),
              at,
            )
      | no room ↦
          let e =
            reserve_granted (context s impl) bid (length bytes) b v.booked.set fits (omega arith)
              at in
          let c = granted bid (length bytes) b (context s impl) in
          let b' : Blob = record b { size = (b.size + length bytes) % word } in
          let at' : find bid c.blobs ≡ some b' =
            ground (arith, at, find-assign bid bid b' impl.blobs) in
          rw (found, e)
            (
              c.impl,
              b',
              ground (arith, there, find-assign m.session_id m.session_id c.impl s.blob_sessions),
              at',
            )
    ]

exhausting-Settled :
    (m : PutMetadata) (bid : ℕ) (s : Server)
    → Has s m.session_id bid
    → Settled (
        next_phase
          (λ (_ : Unit {0}). ended (refused exhausted))
          (with_session m.session_id (delete_blob_file bid) s))
exhausting-Settled m bid s (impl, b, there, at) =
    let found = with_session_found m.session_id (delete_blob_file bid) s impl there in
    elim (delete_blob_file_cases bid (context s impl)) [
      | inl (_, e) ↦ rw (found, e) tt
      | inr (inl (_, _, _, _, e)) ↦ rw (found, e) tt
      | inr (inr (_, _, _, e)) ↦ rw (found, e) tt
    ]

open_step-Settled :
    (m : PutMetadata) (rs : List PutStreamingRequest) (bid : ℕ) (path : FilePath) (s : Server)
    → Has s m.session_id bid
    → Settled (open_step m rs bid path s)
unfolding open_step
open_step-Settled m rs bid path s h = elim (Option-cases (open_output s.file_system path)) [
  | inl shut ↦ rw (shut, open_step) tt
  | inr (fs, opens) ↦ rw (opens, open_step) h
]

discard_step-Settled : (path : FilePath) (s : Server) → Settled (discard_step path s)
unfolding discard_step
discard_step-Settled path s = elim (Option-cases (remove s.file_system path)) [
  | inl stuck ↦ rw (stuck, discard_step) tt
  | inr (fs, done) ↦ rw (done, discard_step) tt
]

tag_step-Settled :
    (o : OpenSsl) (m : PutMetadata) (bid : ℕ) (s : Server)
    → Has s m.session_id bid
    → Settled (tag_step o m bid s)
unfolding tag_step
tag_step-Settled o m bid s (impl, b, there, at) = elim (tag_ends o impl bid s.manager) [
  | inl (tag, e) ↦ rw (there, e, tag_step) tt
  | inr (x, e, f) ↦ rw (there, e, tag_step) (raised-IsPlaced s x)
]

end-Settled :
    (m : PutMetadata) (bid : ℕ) (path : FilePath) (s : Server) (fits : Bool)
    → Has s m.session_id bid
    → Settled (if fits then tagging m bid else discarding path, s)
end-Settled m bid path s true h = h
end-Settled m bid path s false h = tt

-- A step leaves a handler whose session and BLOB are there with them there.
pub step-Settled :
    {lost : ℕ} (o : OpenSsl) (p : Phase) (s : Server)
    → IsFitting o p s
    → IsSound lost s
    → IsPlaced s p
    → Settled (step o p s)
unfolding step
step-Settled o (starting m rs) s fits v h = starting-Settled m rs s
step-Settled o (creating m rs) s fits v h = creating-Settled m rs s v fits h
step-Settled o (opening m rs bid path) s fits v h = open_step-Settled m rs bid path s h
step-Settled o (reading m [] bid path total) s fits v h =
    end-Settled m bid path s (size_matches m.blob_size total) h
step-Settled o (reading m (chunk bytes ∷ rs) bid path total) s fits v h =
    reading-Settled m rs bid path total bytes s fits v h
step-Settled o (reading m (metadata _ ∷ rs) bid path total) s fits v h = tt
step-Settled o (reading m (not_set ∷ rs) bid path total) s fits v h = tt
step-Settled o (writing m rs bid path total bytes) s fits v (impl, b, there, at) = (
  impl,
  b,
  ap (λ (n : Manager). find m.session_id n.blob_sessions) (write_stream_manager path bytes s)
      ∙ there,
  at,
)
step-Settled o (exhausting m bid) s fits v h = exhausting-Settled m bid s h
step-Settled o (discarding path) s fits v h = discard_step-Settled path s
step-Settled o (tagging m bid) s fits v h = tag_step-Settled o m bid s h
step-Settled o (ended r) s fits v h = tt
step-Settled o (thrown x) s fits v h = tt
step-Settled o crashed s fits v h = h
