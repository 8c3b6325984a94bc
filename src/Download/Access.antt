-- ===== src/Download/Access.antt =====
-- Who may download what: what the checks of `Get` let through, and how `Get` ends.
use data_relay_grpc.Base.{
  ℕ, ◌≤◌, ◌≡◌, ◌≢◌, refl, ◌⊎◌, inl, inr, true, false, List, [], ◌∷◌, none, some, arith, ℕ_discrete,
  subst,
}
use data_relay_grpc.FileSystem.{FilePath, FileSystem, exists}
use data_relay_grpc.Session.{SessionImpl, find}
use data_relay_grpc.Manager.{
  Api, Manager, Server, mock_tag, get_session_impl, get_session_id, get_tag,
}
use data_relay_grpc.Manager.Registry.{IsRegistered}
use data_relay_grpc.Manager.Lookup.{
  get_session_id_sound, get_session_id_cases, get_session_impl_cases,
}
use data_relay_grpc.Outcome.{Exception, returns}
use data_relay_grpc.Relay.{
  Status, BlobReference, ContextId, session_id, transaction_id, not_set, GetStreamingRequest,
  GetStreamingResponse, api_version, check_api_version,
}
use data_relay_grpc.Download.{
  session_storage_id, limestone_blob_store, ◌>>=◌, Flow, goes, ends, raises, lost, Origin,
  find_origin, same_transaction, check_transaction, locate, expected_tag, check_tag, GetResult,
  ended, endless, crashed, authorize, handled, get,
}

-- In a registry that is in order, the session that the context of a request leads to passes the
-- check of its transaction: the two answers PERMISSION_DENIED of that check never come.
pub check_transaction_passes :
    (m : Manager) (context_id : ContextId) (o : Origin)
    → IsRegistered m
    → find_origin m context_id ≡ goes o
    → check_transaction m o ≡ goes tt
unfolding check_transaction same_transaction find_origin
check_transaction_passes m (session_id sid) o r e = ground arith
check_transaction_passes m (transaction_id tid) o r e = elim (get_session_id_cases tid m) [
  | inl (sid, found) ↦
      let (impl, there, _, mine) = get_session_id_sound tid sid m r found in
      ground (arith, there, mine, found)
  | inr missing ↦ ground (arith, missing)
]
check_transaction_passes m not_set o r e = cc

pub >>=-goes :
    {A B : Type 0} (m : Flow A) (k : A → Flow B) {b : B}
    → (m >>= k) ≡ goes b
    → (a : A) × (m ≡ goes a) × (k a ≡ goes b)
>>=-goes (goes a) k e = (a, refl, e)
>>=-goes (ends s) k e = cc
>>=-goes (raises x) k e = cc
>>=-goes lost k e = cc

-- The tag is the expected one, or the mock tag where the server is set to accept it.
abbrev pub IsAccepted : Manager → (expected given : ℕ) → Type 0
IsAccepted m expected given =
    (expected ≡ given) ⊎ ((m.dev_accept_mock_tag ≡ true) × (given ≡ mock_tag))

check_tag_sound :
    (m : Manager) (expected given : ℕ)
    → check_tag m expected given ≡ goes tt
    → IsAccepted m expected given
unfolding check_tag
check_tag_sound m expected given e = ground arith

-- The tag that the datastore gives for the BLOB in the context of the request.
abbrev pub TagFor : Api → Manager → ContextId → (blob_id : ℕ) → ℕ → Type 0
TagFor api m (session_id sid) bid tag =
    (impl : SessionImpl) × (get_session_impl sid m ≡ returns impl) × (tag ≡ get_tag api bid impl)
TagFor api m (transaction_id tid) bid tag = tag ≡ api.get_tag bid tid
TagFor api m not_set bid tag = ⊥

-- The session of the request, with the transaction that it was found by.
abbrev pub SessionFor : Manager → ContextId → SessionImpl → Type 0
SessionFor m (session_id sid) impl = get_session_impl sid m ≡ returns impl
SessionFor m (transaction_id tid) impl =
    (sid : ℕ) × (get_session_id tid m ≡ returns sid) × (get_session_impl sid m ≡ returns impl)
SessionFor m not_set impl = ⊥

-- The file is that of the BLOB in the session of the request, or the datastore's.
abbrev pub IsSource : Api → Server → GetStreamingRequest → FilePath → Type 0
IsSource api s r path =
    ((r.blob.storage_id ≡ session_storage_id)
      × ((impl : SessionImpl) × SessionFor s.manager r.context_id impl
          × (find r.blob.object_id impl ≡ some path)))
    ⊎ ((r.blob.storage_id ≡ limestone_blob_store)
        × (path ≡ api.get_path r.blob.object_id)
        × (exists s.file_system path ≡ true))

-- What `find_origin` found, by the kind of the context.
abbrev pub OriginFor : Manager → ContextId → Origin → Type 0
OriginFor m (session_id sid) o = o ≡ record { session = sid; transaction = none; raw = false }
OriginFor m (transaction_id tid) o =
    ((sid : ℕ) × (get_session_id tid m ≡ returns sid)
      × (o ≡ record { session = sid; transaction = some tid; raw = false }))
    ⊎ (o ≡ record { session = 0; transaction = some tid; raw = true })
OriginFor m not_set o = ⊥

find_origin_sound :
    (m : Manager) (c : ContextId) (o : Origin) → find_origin m c ≡ goes o → OriginFor m c o
unfolding find_origin
find_origin_sound m (session_id sid) o e = ground arith
find_origin_sound m (transaction_id tid) o e = elim (get_session_id_cases tid m) [
  | inl (sid, found) ↦ inl (sid, found, ground (arith, found))
  | inr missing ↦ inr (ground (arith, missing))
]
find_origin_sound m not_set o e = cc

expected_tag_sound :
    (api : Api) (m : Manager) (c : ContextId) (o : Origin) (bid tag : ℕ)
    → OriginFor m c o
    → expected_tag api m o bid ≡ goes tag
    → TagFor api m c bid tag
unfolding expected_tag
expected_tag_sound api m (session_id sid) o bid tag f e = elim (get_session_impl_cases sid m) [
  | inl (impl, _, there) ↦ (impl, there, ground (arith, there))
  | inr missing ↦ absurd (ground (arith, missing))
]
expected_tag_sound api m (transaction_id tid) o bid tag f e = ground arith
expected_tag_sound api m not_set o bid tag f e = elim f [ ]

locate_session :
    (api : Api) (s : Server) (c : ContextId) (o : Origin) (blob : BlobReference) (path : FilePath)
    → OriginFor s.manager c o
    → blob.storage_id ≡ session_storage_id
    → locate api s o blob ≡ goes path
    → (impl : SessionImpl) × SessionFor s.manager c impl × (find blob.object_id impl ≡ some path)
unfolding locate
locate_session api s (session_id sid) o blob path f z e =
    elim (get_session_impl_cases sid s.manager) [
      | inl (impl, _, there) ↦ (impl, there, ground (arith, there))
      | inr missing ↦ absurd (ground (arith, missing))
    ]
locate_session api s (transaction_id tid) o blob path (inl (sid, found, f)) z e =
    elim (get_session_impl_cases sid s.manager) [
      | inl (impl, _, there) ↦ (impl, (sid, found, there), ground (arith, there))
      | inr missing ↦ absurd (ground (arith, missing))
    ]
locate_session api s (transaction_id tid) o blob path (inr f) z e = absurd (ground arith)
locate_session api s not_set o blob path f z e = elim f [ ]

locate_store :
    (api : Api) (s : Server) (o : Origin) (blob : BlobReference) (path : FilePath)
    → blob.storage_id ≢ session_storage_id
    → locate api s o blob ≡ goes path
    → (blob.storage_id ≡ limestone_blob_store)
      × (path ≡ api.get_path blob.object_id)
      × (exists s.file_system path ≡ true)
unfolding locate
locate_store api s o blob path z e = ground arith

-- All that the checks of `Get` have seen when they let a request through: the file belongs to the
-- BLOB that is asked for, and the tag is accepted.
pub authorize_sound :
    (api : Api) (s : Server) (r : GetStreamingRequest) (path : FilePath)
    → authorize api s r ≡ goes path
    → IsSource api s r path
      × ((tag : ℕ) × TagFor api s.manager r.context_id r.blob.object_id tag
          × IsAccepted s.manager tag r.blob.tag)
unfolding authorize
authorize_sound api s r path e =
    let (o, f, e1) = >>=-goes (find_origin s.manager r.context_id) _ e in
    let (_, _, e2) = >>=-goes (check_transaction s.manager o) _ e1 in
    let (p, g, e3) = >>=-goes (locate api s o r.blob) _ e2 in
    let (tag, h, e4) = >>=-goes (expected_tag api s.manager o r.blob.object_id) _ e3 in
    let (_, k, e5) = >>=-goes (check_tag s.manager tag r.blob.tag) _ e4 in
    let origin = find_origin_sound s.manager r.context_id o f in
    let same : p ≡ path = cc in
    (
      subst (IsSource api s r) same (elim (ℕ_discrete r.blob.storage_id session_storage_id) [
        | yes z ↦ inl (z, locate_session api s r.context_id o r.blob p origin z g)
        | no z ↦ inr (locate_store api s o r.blob p z g)
      ]),
      (
        tag,
        expected_tag_sound api s.manager r.context_id o r.blob.object_id tag origin h,
        check_tag_sound s.manager tag r.blob.tag k,
      ),
    )

pub Flow-cases {ℓ} :
    {A : Type ℓ} (m : Flow A)
    → ((a : A) × (m ≡ goes a))
      ⊎ (((status : Status) × (m ≡ ends status))
          ⊎ (((x : Exception) × (m ≡ raises x)) ⊎ (m ≡ lost)))
Flow-cases (goes a) = inl (a, refl)
Flow-cases (ends s) = inr (inl (s, refl))
Flow-cases (raises x) = inr (inr (inl (x, refl)))
Flow-cases lost = inr (inr (inr refl))

-- the responses that have been written
abbrev pub responses : GetResult → List GetStreamingResponse
responses (ended status rs) = rs
responses endless = []
responses crashed = []

handled_sends :
    (fs : FileSystem) (chunk_size : ℕ) (m : Flow FilePath) {first : GetStreamingResponse}
    {rest : List GetStreamingResponse}
    → responses (handled fs chunk_size m) ≡ first ∷ rest
    → (path : FilePath) × (m ≡ goes path)
handled_sends fs chunk_size (goes path) e = (path, refl)
handled_sends fs chunk_size (ends s) e = cc
handled_sends fs chunk_size (raises x) e = cc
handled_sends fs chunk_size lost e = cc

-- Where something is written to a client, the API version of the request is accepted, a file
-- belongs to the BLOB that is asked for (in the session of the request or in the datastore), and
-- the tag of the request is the one that the datastore gives, or the mock tag where the server is
-- set to accept it.
pub get_authorized :
    (api : Api) (chunk_size : ℕ) (s : Server) (r : GetStreamingRequest) {status : Status}
    {first : GetStreamingResponse} {rest : List GetStreamingResponse}
    → get api chunk_size s r ≡ ended status (first ∷ rest)
    → (r.api_version ≤ api_version)
      × ((path : FilePath) × IsSource api s r path)
      × ((tag : ℕ) × TagFor api s.manager r.context_id r.blob.object_id tag
          × IsAccepted s.manager tag r.blob.tag)
unfolding get check_api_version
get_authorized api chunk_size s r {status} {first} {rest} e =
    let (path, f) =
      handled_sends s.file_system chunk_size (authorize api s r) {first = first} {rest = rest}
        (ground arith) in
    let (source, tag) = authorize_sound api s r path f in (ground arith, (path, source), tag)
