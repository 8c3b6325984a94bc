-- ===== src/Handlers/Sharing.antt =====
-- The books of the manager in every interleaving of handlers and calls.
use data_relay_grpc.Base.{
  ℕ, ◌+◌, ◌≤◌, ◌<◌, ◌≡◌, ◌≢◌, refl, sym, ap, ◌∙◌, inl, inr, List, [], ◌∷◌, none, some, arith,
  Option-cases, length, subst,
}
use data_relay_grpc.OrderedMap.{find}
use data_relay_grpc.Text.{text}
use data_relay_grpc.FileSystem.{FilePath}
use data_relay_grpc.TagGenerator.{OpenSsl}
use data_relay_grpc.SessionStore.{word}
use data_relay_grpc.SessionStore.Usage.{reserve_lem}
use data_relay_grpc.Session.{
  Blob, SessionImpl, Context, create_blob_file, reserve_session_store, delete_blob_file,
}
use data_relay_grpc.Session.Deletion.{delete_blob_file_cases}
use data_relay_grpc.Session.Evolution.{reserve_session_store-Evolves}
use data_relay_grpc.Session.Leaks.{granted_gone-IsAccounted}
use data_relay_grpc.Upload.Stream.{with_session_found, reserve_refused}
use data_relay_grpc.Manager.{Manager, Server, with_session, context, absorb}
use data_relay_grpc.Manager.History.{
  creates_blob, reserves, IsSound, Step-IsSound, method-IsSound, deletes-IsSound,
}
use data_relay_grpc.Outcome.{filesystem_error, Outcome, returns, throws, undefined, M}
use data_relay_grpc.Relay.{PutMetadata, PutStreamingRequest, metadata, chunk, not_set}
use data_relay_grpc.Handlers.{
  Phase, starting, creating, opening, reading, writing, exhausting, discarding, tagging, ended,
  thrown, crashed, next_phase, write_stream, tag_step, open_step, discard_step, step,
}
use data_relay_grpc.Handlers.System.{System, IsFitting, arrives, advances, calls, Reach, here, next}

-- The books after a step: they may be off by more than before.
abbrev pub IsKept : ℕ → Server → Type 0
IsKept lost t = (lost' : ℕ) × (lost ≤ lost') × IsSound lost' t

-- The session has the BLOB.
abbrev pub Has : Server → ℕ → ℕ → Type 0
Has s sid bid =
    (impl : SessionImpl) × (b : Blob) × (find sid s.blob_sessions ≡ some impl)
    × (find bid impl.blobs ≡ some b)

same-IsSound : {lost : ℕ} (s t : Server) → t.manager ≡ s.manager → IsSound lost s → IsSound lost t
same-IsSound {lost} s t e v =
    subst (λ (m : Manager). IsSound lost (record { manager = m; file_system = t.file_system }))
      (sym e) (record { registered = v.registered; booked = v.booked })

pub next_phase_server :
    {A : Type 0} (k : A → Phase) (r : Outcome A × Server) → (next_phase k r).1 ≡ r.1
next_phase_server k (returns a, s) = refl
next_phase_server k (throws x, s) = refl
next_phase_server k (undefined, s) = refl

call-IsKept :
    {lost : ℕ} {A : Type 0} (k : A → Phase) (r : Outcome A × Server)
    → IsKept lost r.1
    → IsKept lost (next_phase k r).1
call-IsKept {lost} k r = subst (IsKept lost) (sym (next_phase_server k r))

call-IsSound :
    {lost : ℕ} {A : Type 0} (k : A → Phase) (r : Outcome A × Server)
    → IsSound lost r.1
    → IsSound lost (next_phase k r).1
call-IsSound {lost} k r = subst (IsSound lost) (sym (next_phase_server k r))

gone-IsSound :
    {lost : ℕ} {A : Type 0} (sid : ℕ) (method : M Context A) (s : Server)
    → find sid s.blob_sessions ≡ none
    → IsSound lost s
    → IsSound lost (with_session sid method s).1
unfolding with_session
gone-IsSound sid method s gone v = rw (gone, with_session) v

creating-IsSound :
    {lost : ℕ} (sid : ℕ) (s : Server)
    → s.blob_id + 1 < word
    → IsSound lost s
    → IsSound lost (with_session sid (create_blob_file (text "upload")) s).1
creating-IsSound sid s fits v = elim (Option-cases (find sid s.blob_sessions)) [
  | inl gone ↦ gone-IsSound sid (create_blob_file (text "upload")) s gone v
  | inr (impl, there) ↦ Step-IsSound (creates_blob sid (text "upload") fits there) v
]

-- A chunk for a BLOB that another call has removed is counted, and throws.
reserving-IsKept :
    {lost : ℕ} (sid bid size : ℕ) (s : Server)
    → s.store.quota + size < word
    → IsSound lost s
    → IsKept lost (with_session sid (reserve_session_store bid size) s).1
reserving-IsKept {lost} sid bid size s fits v = elim (Option-cases (find sid s.blob_sessions)) [
  | inl gone ↦ (lost, omega arith, gone-IsSound sid (reserve_session_store bid size) s gone v)
  | inr (impl, there) ↦ elim (Option-cases (find bid impl.blobs)) [
    | inr (b, has) ↦ (lost, omega arith, Step-IsSound (reserves sid bid size fits there has) v)
    | inl absent ↦ elim (reserve_lem s.store size v.booked.set fits v.booked.within) [
      | inl (room, _) ↦ (
        lost + size,
        omega arith,
        method-IsSound sid (reserve_session_store bid size) s impl there
            (λ o a. (
              reserve_session_store-Evolves (context s impl) bid size a.ordered,
              granted_gone-IsAccounted o lost (context s impl) bid size fits room absent a,
            ))
            v,
      )
      | inr (over, _) ↦
          let same =
            reserve_refused (context s impl) bid size v.booked.set fits v.booked.within over in
          (
            lost,
            omega arith,
            method-IsSound sid (reserve_session_store bid size) s impl there
                (λ o a.
                  (reserve_session_store-Evolves (context s impl) bid size a.ordered, rw same a))
                v,
          )
    ]
  ]
]

-- A deletion whose file can be removed.
pub deleting-IsSound :
    {lost : ℕ} (sid bid : ℕ) (s : Server)
    → ((path : FilePath)
        → (with_session sid (delete_blob_file bid) s).0 ≢ throws (filesystem_error path))
    → IsSound lost s
    → IsSound lost (with_session sid (delete_blob_file bid) s).1
deleting-IsSound sid bid s fits v = elim (Option-cases (find sid s.blob_sessions)) [
  | inl gone ↦ gone-IsSound sid (delete_blob_file bid) s gone v
  | inr (impl, there) ↦
      let call =
        λ (x : Outcome (Unit {0}) × Context) (e : delete_blob_file bid (context s impl) ≡ x).
          with_session_found sid (delete_blob_file bid) s impl there
          ∙ ap (λ (y : Outcome (Unit {0}) × Context). (y.0, absorb sid s y.1)) e in
      elim (delete_blob_file_cases bid (context s impl)) [
        | inl (_, e) ↦ rw (call _ e) (deletes-IsSound sid bid s _ (call _ e) v)
        | inr (inl (b, fs, _, _, e)) ↦ rw (call _ e) (deletes-IsSound sid bid s _ (call _ e) v)
        | inr (inr (b, _, _, e)) ↦ absurd (fits b.path (rw (call _ e) refl))
      ]
]

thrown_next :
    {A : Type 0} (k : A → Phase) (path : FilePath) (r : Outcome A × Server)
    → r.0 ≡ throws (filesystem_error path)
    → (next_phase k r).0 ≡ thrown (filesystem_error path)
thrown_next k path (returns a, s) e = cc
thrown_next k path (throws y, s) e =
    let same : y ≡ filesystem_error path = cc in
    subst (λ x. (next_phase k (throws x, s)).0 ≡ thrown (filesystem_error path)) (sym same) refl
thrown_next k path (undefined, s) e = cc

exhausting-IsSound :
    {lost : ℕ} (o : OpenSsl) (m : PutMetadata) (bid : ℕ) (s : Server)
    → IsFitting o (exhausting m bid) s
    → IsSound lost s
    → IsSound lost (with_session m.session_id (delete_blob_file bid) s).1
unfolding step
exhausting-IsSound o m bid s fits v =
    deleting-IsSound m.session_id bid s (λ path e. fits path (thrown_next _ path _ e)) v

pub write_stream_manager :
    (path : FilePath) (bytes : List ℕ) (s : Server)
    → (write_stream path bytes s).manager ≡ s.manager
unfolding write_stream
write_stream_manager path bytes s = ground arith

pub open_step_manager :
    (m : PutMetadata) (rs : List PutStreamingRequest) (bid : ℕ) (path : FilePath) (s : Server)
    → (open_step m rs bid path s).1.manager ≡ s.manager
unfolding open_step
open_step_manager m rs bid path s = ground arith

pub discard_step_manager :
    (path : FilePath) (s : Server) → (discard_step path s).1.manager ≡ s.manager
unfolding discard_step
discard_step_manager path s = ground arith

pub tag_step_manager :
    (o : OpenSsl) (m : PutMetadata) (bid : ℕ) (s : Server)
    → (tag_step o m bid s).1.manager ≡ s.manager
unfolding tag_step
tag_step_manager o m bid s = elim (Option-cases (find m.session_id s.blob_sessions)) [
  | inl gone ↦ rw (gone, tag_step) refl
  | inr (impl, there) ↦
      rw (there, tag_step) (ap (λ (t : Server). t.manager) (next_phase_server _ _))
]

-- A chunk comes for a BLOB that is there.
abbrev pub IsCounted : Phase → Server → Type 0
IsCounted (reading m (chunk bytes ∷ rs) bid path total) s = Has s m.session_id bid
IsCounted _ s = Unit

-- Every step of a handler keeps the registry and the books, if its BLOB is there.
pub step-IsSound :
    {lost : ℕ} (o : OpenSsl) (p : Phase) (s : Server)
    → IsFitting o p s
    → IsCounted p s
    → IsSound lost s
    → IsSound lost (step o p s).1
unfolding step
step-IsSound o (starting m rs) s fits has v = call-IsSound _ _ v
step-IsSound o (creating m rs) s fits has v =
    call-IsSound _ _ (creating-IsSound m.session_id s fits v)
step-IsSound o (opening m rs bid path) s fits has v =
    same-IsSound s _ (open_step_manager m rs bid path s) v
step-IsSound o (reading m [] bid path total) s fits has v = v
step-IsSound o (reading m (chunk bytes ∷ rs) bid path total) s fits (impl, b, there, at) v =
    call-IsSound _ _ (Step-IsSound (reserves m.session_id bid (length bytes) fits there at) v)
step-IsSound o (reading m (metadata _ ∷ rs) bid path total) s fits has v = v
step-IsSound o (reading m (not_set ∷ rs) bid path total) s fits has v = v
step-IsSound o (writing m rs bid path total bytes) s fits has v =
    same-IsSound s _ (write_stream_manager path bytes s) v
step-IsSound o (exhausting m bid) s fits has v =
    call-IsSound _ _ (exhausting-IsSound o m bid s fits v)
step-IsSound o (discarding path) s fits has v = same-IsSound s _ (discard_step_manager path s) v
step-IsSound o (tagging m bid) s fits has v = same-IsSound s _ (tag_step_manager o m bid s) v
step-IsSound o (ended r) s fits has v = v
step-IsSound o (thrown x) s fits has v = v
step-IsSound o crashed s fits has v = v

-- Without that, it keeps them but for what is lost.
step-IsKept :
    {lost : ℕ} (o : OpenSsl) (p : Phase) (s : Server)
    → IsFitting o p s
    → IsSound lost s
    → IsKept lost (step o p s).1
unfolding step
step-IsKept o (reading m (chunk bytes ∷ rs) bid path total) s fits v =
    call-IsKept _ _ (reserving-IsKept m.session_id bid (length bytes) s fits v)
step-IsKept {lost} o p s fits v = (lost, omega arith, step-IsSound o p s fits tt v)

-- From a server in order, with no or any handlers at work, in every interleaving of the steps of
-- any number of uploads and of calls of the library, in which no id counter wraps, no chunk wraps
-- the sum, the file of an upload that is given up can be removed and calls that remove BLOBs or
-- sessions return: the registry is in order, no two sessions have a BLOB id in common, and the
-- usage counter is within the quota, and is the sum of what all BLOBs have reserved and an amount
-- that no BLOB stands for, which is no less than at the start.
pub Reach-IsKept :
    {lost : ℕ} (o : OpenSsl) {y z : System}
    → Reach o y z
    → IsSound lost y.server
    → IsKept lost z.server
Reach-IsKept {lost} o here v = (lost, omega arith, v)
Reach-IsKept o (next r (arrives i rs fresh)) v = Reach-IsKept o r v
Reach-IsKept o (next {z} r (advances i {p} at fits)) v =
    let (l, le, k) = Reach-IsKept o r v in
    let (l', le', k') = step-IsKept o p z.server fits k in (l', omega arith, k')
Reach-IsKept o (next r (calls st)) v =
    let (l, le, k) = Reach-IsKept o r v in (l, le, Step-IsSound st k)
