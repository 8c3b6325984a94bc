-- ===== src/Local/Laws.antt =====
-- What the local service hands out, and what it leaves of an upload.
use data_relay_grpc.Base.{
  ℕ, ◌+◌, ◌≤◌, ◌<◌, ◌≡◌, refl, ◌⊎◌, inl, inr, not, Option, none, some, arith, Option-cases,
  if-cases, dec_lt,
}
use data_relay_grpc.OrderedMap.{find}
use data_relay_grpc.Text.{text}
use data_relay_grpc.FileSystem.{FilePath}
use data_relay_grpc.SessionStore.{word}
use data_relay_grpc.Session.{SessionImpl, create_blob_file, get_new_blob_id}
use data_relay_grpc.Manager.{Api, Server, get_session_impl, with_session}
use data_relay_grpc.Manager.Lookup.{get_session_impl_cases}
use data_relay_grpc.Manager.History.{creates_blob, IsSound, Step-IsSound}
use data_relay_grpc.Outcome.{Outcome, returns, throws, out_of_range, after_keeps}
use data_relay_grpc.Relay.{
  ok, unavailable, api_version_error_message, Status, BlobReference, api_version, check_api_version,
  fails,
}
use data_relay_grpc.Local.{
  GetLocalRequest, PutLocalRequest, Copy, requested_session, answer, get_local, copy_in, put_local,
}

-- A path is handed out only by OK and with an accepted API version, for a session that is there
-- and has a transaction, to a client whose tag is that of the datastore for that transaction; and
-- it is the path of the datastore.
pub get_local_sound :
    (api : Api) (s : Server) (r : GetLocalRequest) (status : Status) (path : FilePath)
    → get_local api s r ≡ returns (status, some path)
    → (r.api_version ≤ api_version)
      × (status ≡ fails ok (text ""))
      × (path ≡ api.get_path r.blob.object_id)
      × ((impl : SessionImpl) × (tid : ℕ) × (get_session_impl
              (requested_session r.context_id)
              s.manager
            ≡ returns impl)
          × (impl.transaction_id ≡ some tid)
          × (r.blob.tag ≡ api.get_tag r.blob.object_id tid))
unfolding get_local answer check_api_version
get_local_sound api s r status path e =
    elim (get_session_impl_cases (requested_session r.context_id) s.manager) [
      | inr missing ↦ absurd (ground (arith, missing))
      | inl (impl, _, there) ↦ elim (Option-cases impl.transaction_id) [
        | inl absent ↦ absurd (ground (arith, there, absent))
        | inr (tid, mine) ↦ (
          ground (arith, there, mine),
          ground (arith, there, mine),
          ground (arith, there, mine),
          (impl, tid, there, mine, ground (arith, there, mine)),
        )
      ]
    ]

abbrev newer : GetLocalRequest → Status × Option FilePath
newer r = (fails unavailable (api_version_error_message r.api_version), none)

created_same :
    (sid : ℕ) (s : Server) (impl : SessionImpl)
    → s.blob_id + 1 < word
    → find sid s.blob_sessions ≡ some impl
    → IsSound 0 s
    → IsSound 0 (with_session sid (create_blob_file (text "upload")) s).1
      × ((with_session sid (create_blob_file (text "upload")) s).1.store.current_size
          ≡ s.store.current_size)
unfolding with_session create_blob_file get_new_blob_id
created_same sid s impl fits there v =
    (Step-IsSound (creates_blob sid (text "upload") fits there) v, ground (arith, there))

copy_in_same :
    (copy : Copy) (source : FilePath) (a : ℕ × FilePath) (t : Server) {n : ℕ}
    → IsSound 0 t × (t.store.current_size ≡ n)
    → IsSound 0 (copy_in copy source a t).1 × ((copy_in copy source a t).1.store.current_size ≡ n)
unfolding copy_in
copy_in_same copy source (bid, path) t (v, e) =
    elim (Option-cases (copy source path t.file_system)) [
      | inl failed ↦ rw (failed, copy_in) (v, e)
      | inr (fs, copied) ↦
          rw (copied, copy_in) (record { registered = v.registered; booked = v.booked }, e)
    ]

-- `Get` answers, unless the API version is accepted and the session is not there; then it throws
-- the exception of the lookup.
pub get_local_throws :
    (api : Api) (s : Server) (r : GetLocalRequest)
    → ((r.api_version ≤ api_version)
        × (find (requested_session r.context_id) s.blob_sessions ≡ none)
        × (get_local api s r ≡ throws (out_of_range (text "can not find the session specified"))))
      ⊎ ((answered : Status × Option FilePath) × (get_local api s r ≡ returns answered))
unfolding get_local check_api_version get_session_impl
get_local_throws api s r =
    elim (Option-cases (find (requested_session r.context_id) s.blob_sessions)) [
      | inl absent ↦ elim (dec_lt api_version r.api_version) [
        | yes new ↦ inr (newer r, ground arith)
        | no old ↦ inl (omega arith, absent, ground (arith, absent))
      ]
      | inr (impl, there) ↦ elim (dec_lt api_version r.api_version) [
        | yes new ↦ inr (newer r, ground arith)
        | no old ↦ inr (answer api r.blob impl, ground (arith, there))
      ]
    ]

-- On a server in order, with a counter of BLOB ids that does not wrap, `Put` keeps the registry
-- and the books in order whether it answers or throws, for any behaviour of `copy`; the usage
-- counter does not change, so that a BLOB that comes by this way is outside of the quota.
pub put_local-IsSound :
    (copy : Copy) (s : Server) (r : PutLocalRequest)
    → s.blob_id + 1 < word
    → IsSound 0 s
    → IsSound 0 (put_local copy r s).1
      × ((put_local copy r s).1.store.current_size ≡ s.store.current_size)
unfolding put_local
put_local-IsSound copy s r fits v =
    if-cases (not (check_api_version r.api_version)) Kept (v, refl)
      (elim (get_session_impl_cases r.session_id s.manager) [
        | inr missing ↦ rw missing (v, refl)
        | inl (impl, there, found) ↦ rw found (
            after_keeps Same (with_session r.session_id (create_blob_file (text "upload")) s)
              (copy_in copy r.path) (created_same r.session_id s impl fits there v)
              (λ a t _ k. copy_in_same copy r.path a t k))
      ])
  where
    Same : Server → Type 0
    Same t = IsSound 0 t × (t.store.current_size ≡ s.store.current_size)

    Kept : Outcome (Status × Option BlobReference) × Server → Type 0
    Kept x = Same x.1
