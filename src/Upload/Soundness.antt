-- ===== src/Upload/Soundness.antt =====
-- Every upload, whatever the client sends: it is answered or throws, and the registry and the books
-- are in order.
use data_relay_grpc.Base.{
  ℕ, ◌+◌, ◌<◌, ◌≡◌, refl, sym, ap, ◌⊎◌, inl, inr, false, List, [], ◌∷◌, Option, none, some,
  Option-cases, if-cases, subst, drop,
}
use data_relay_grpc.OrderedMap.{find}
use data_relay_grpc.FileSystem.{FilePath, FileSystem, remove, open_output}
use data_relay_grpc.TagGenerator
use data_relay_grpc.TagGenerator.{OpenSsl, Digest, digest, failed, tag_of, input_bytes}
use data_relay_grpc.SessionStore.{word}
use data_relay_grpc.Session.{SessionImpl}
use data_relay_grpc.Manager.{Manager, Server, compute_tag, generate_reference_tag}
use data_relay_grpc.Manager.Lookup.{get_session_impl_cases}
use data_relay_grpc.Manager.History.{IsSound}
use data_relay_grpc.Outcome.{Exception, Outcome, returns, throws, undefined, is_out_of_range, after}
use data_relay_grpc.Text.{text}
use data_relay_grpc.Relay.{
  failed_precondition, fails, PutStreamingRequest, PutMetadata, metadata, chunk, not_set,
  check_api_version,
}
use data_relay_grpc.Upload.{
  PutResult, refused, Received, complete, stopped, receive, size_matches, respond, discard,
  conclude, upload, try_put, caught, put,
}
use data_relay_grpc.Upload.Storage.{
  next_id, upload_path, created, opened, opened-IsSound, opened-IsStored, created_call,
}
use data_relay_grpc.Upload.Steps.{
  EndsWell, after-EndsWell, AreSmall, IsReady, Digest-cases, receive-EndsWell,
}

pub tag_ends :
    (o : OpenSsl) (impl : SessionImpl) (bid : ℕ) (m : Manager)
    → ((tag : ℕ) × (compute_tag o bid impl m ≡ returns tag))
      ⊎ ((x : Exception) × (compute_tag o bid impl m ≡ throws x) × (is_out_of_range x ≡ false))
unfolding compute_tag generate_reference_tag TagGenerator.generate_reference_tag
tag_ends o impl bid m =
    elim (Digest-cases (o.hmac_sha256 m.hmac_secret_key (input_bytes bid impl.session_id))) [
      | inl (md, e) ↦ inl (_, ap (tag_of o) e)
      | inr (errors, e) ↦ inr (_, ap (tag_of o) e, refl)
    ]

respond-EndsWell :
    (o : OpenSsl) (impl : SessionImpl) (bid : ℕ) (s : Server)
    → IsSound 0 s
    → EndsWell (respond o impl bid s)
unfolding respond
respond-EndsWell o impl bid s v = elim (tag_ends o impl bid s.manager) [
  | inl (tag, e) ↦ rw (e, respond) v
  | inr (x, e, f) ↦ rw (e, respond) f
]

discard-EndsWell : (path : FilePath) (s : Server) → IsSound 0 s → EndsWell (discard path s)
unfolding discard
discard-EndsWell path s v = elim (Option-cases (remove s.file_system path)) [
  | inl stuck ↦ rw (stuck, discard) refl
  | inr (fs, done) ↦ rw (done, discard) (record { registered = v.registered; booked = v.booked })
]

conclude-EndsWell :
    (o : OpenSsl) (blob_size : Option ℕ) (impl : SessionImpl) (bid : ℕ) (path : FilePath)
    (r : Received) (s : Server)
    → IsSound 0 s
    → EndsWell (conclude o blob_size impl bid path r s)
unfolding conclude
conclude-EndsWell o blob_size impl bid path (stopped status) s v = v
conclude-EndsWell o blob_size impl bid path (complete total) s v =
    if-cases (size_matches blob_size total) EndsWell (respond-EndsWell o impl bid s v)
      (discard-EndsWell path s v)

pub upload_closed :
    (o : OpenSsl) (meta : PutMetadata) (impl : SessionImpl) (rs : List PutStreamingRequest)
    (s : Server)
    → open_output s.file_system (upload_path s) ≡ none
    → (r : PutResult) × (upload o meta impl rs
          (next_id s, upload_path s)
          (created meta.session_id impl s)
        ≡ (returns r, created meta.session_id impl s))
unfolding upload
upload_closed o meta impl rs s closed = (
  refused (fails failed_precondition (text "cannot open the file to write the blob to")),
  rw (closed, upload) refl,
)

pub upload-open_output :
    (o : OpenSsl) (meta : PutMetadata) (impl : SessionImpl) (rs : List PutStreamingRequest)
    (s : Server) (fs : FileSystem)
    → open_output s.file_system (upload_path s) ≡ some fs
    → upload o meta impl rs (next_id s, upload_path s) (created meta.session_id impl s)
      ≡ after
          (receive meta.session_id
            (next_id s)
            (upload_path s)
            rs
            0
            (opened meta.session_id impl fs s))
          (conclude o meta.blob_size impl (next_id s) (upload_path s))
unfolding upload
upload-open_output o meta impl rs s fs opens = rw (opens, upload) refl

opened-IsReady :
    (sid : ℕ) (impl : SessionImpl) (fs : FileSystem) (s : Server)
    → IsSound 0 s
    → s.blob_id + 1 < word
    → find sid s.blob_sessions ≡ some impl
    → open_output s.file_system (upload_path s) ≡ some fs
    → IsReady sid (next_id s) s.store.quota (opened sid impl fs s)
opened-IsReady sid impl fs s v fits there opens =
    let (p, _) = opened-IsStored sid impl fs s v fits there opens in
    record {
      sound = p.sound;
      limit = refl;
      impl = p.impl;
      blob = p.blob;
      there = p.there;
      has = p.has;
    }

upload-EndsWell :
    (o : OpenSsl) (meta : PutMetadata) (impl : SessionImpl) (rs : List PutStreamingRequest)
    (s : Server)
    → IsSound 0 s
    → s.blob_id + 1 < word
    → find meta.session_id s.blob_sessions ≡ some impl
    → AreSmall s.store.quota rs
    → EndsWell (upload o meta impl rs (next_id s, upload_path s) (created meta.session_id impl s))
upload-EndsWell o meta impl rs s v fits there h =
    elim (Option-cases (open_output s.file_system (upload_path s))) [
      | inl closed ↦
          let w = opened-IsSound meta.session_id impl s.file_system s v fits there in
          subst EndsWell (sym (upload_closed o meta impl rs s closed).1) w
      | inr (fs, opens) ↦ subst EndsWell (sym (upload-open_output o meta impl rs s fs opens)) (
          after-EndsWell _ _
            (receive-EndsWell meta.session_id (next_id s) s.store.quota (upload_path s) rs 0
              (opened meta.session_id impl fs s)
              (opened-IsReady meta.session_id impl fs s v fits there opens) h)
            (λ r t w. conclude-EndsWell o meta.blob_size impl (next_id s) (upload_path s) r t w))
    ]

caught-EndsWell : (r : Outcome PutResult × Server) → EndsWell r → EndsWell (caught r)
caught-EndsWell (returns r, t) e = e
caught-EndsWell (throws x, t) e = rw e e
caught-EndsWell (undefined, t) e = e

try_put-EndsWell :
    (o : OpenSsl) (meta : PutMetadata) (rs : List PutStreamingRequest) (s : Server)
    → IsSound 0 s
    → s.blob_id + 1 < word
    → AreSmall s.store.quota rs
    → EndsWell (caught (try_put o meta rs s))
unfolding try_put
try_put-EndsWell o meta rs s v fits h = elim (get_session_impl_cases meta.session_id s.manager) [
  | inr missing ↦ rw (missing, try_put) v
  | inl (impl, there, found) ↦
      let run : try_put o meta rs s
          ≡ upload o meta impl rs (next_id s, upload_path s) (created meta.session_id impl s) =
        rw (found, try_put, created_call meta.session_id impl s there) refl in
      rw run (caught-EndsWell _ (upload-EndsWell o meta impl rs s v fits there h))
]

-- On a server in order, an upload of any requests, of which no chunk wraps the sum with the quota,
-- and with a counter of BLOB ids that does not wrap, is answered with the registry and the books
-- in order, or throws what is no `out_of_range`. It never works on a session that is gone.
pub put-EndsWell :
    (o : OpenSsl) (rs : List PutStreamingRequest) (s : Server)
    → IsSound 0 s
    → s.blob_id + 1 < word
    → AreSmall s.store.quota (drop 1 rs)
    → EndsWell (put o rs s)
unfolding put
put-EndsWell o [] s v fits h = v
put-EndsWell o (chunk bytes ∷ rs) s v fits h = v
put-EndsWell o (not_set ∷ rs) s v fits h = v
put-EndsWell o (metadata m ∷ rs) s v fits h =
    if-cases (check_api_version m.api_version) EndsWell (try_put-EndsWell o m rs s v fits h) v
