-- ===== src/Handlers/Sparing.antt =====
-- What the steps of handlers, and calls that remove nothing, leave of sessions and BLOBs.
use data_relay_grpc.Base.{
  ℕ, ◌+◌, ◌%◌, ◌≡◌, ◌≢◌, refl, sym, ap, ◌∙◌, inl, inr, List, [], ◌∷◌, Option, none, some, arith,
  Option-cases, Bool-cases, length, subst, ℕ_discrete,
}
use data_relay_grpc.OrderedMap.{find, emplace, assign, AscendsFrom}
use data_relay_grpc.OrderedMap.Lookup.{find-assign, find-emplace, find-erase}
use data_relay_grpc.Text.{Text, text}
use data_relay_grpc.FileSystem.{FilePath, exists}
use data_relay_grpc.TagGenerator.{OpenSsl}
use data_relay_grpc.SessionStore.{word, reserve}
use data_relay_grpc.Session.{
  Blob, SessionImpl, Context, get_new_blob_id, add, create_blob_file, reserve_session_store,
  delete_blob_file,
}
use data_relay_grpc.Session.Deletion.{delete_blob_file_cases}
use data_relay_grpc.Manager.{Manager, Server, create_session, with_session, context}
use data_relay_grpc.Manager.History.{
  Step, creates, adds, creates_blob, reserves, removes, disposes, IsSound,
}
use data_relay_grpc.Outcome.{Outcome, M}
use data_relay_grpc.Relay.{metadata, chunk, not_set}
use data_relay_grpc.Handlers.{
  Phase, starting, creating, opening, reading, writing, exhausting, discarding, tagging, ended,
  thrown, crashed, next_phase, step,
}
use data_relay_grpc.Handlers.Sharing.{
  Has, next_phase_server, open_step_manager, discard_step_manager, write_stream_manager,
  tag_step_manager,
}

emplace_stays :
    {V : Type 0} (k j : ℕ) (v b : V) (m : List (ℕ × V))
    → AscendsFrom 0 m
    → find j m ≡ some b
    → find j (emplace k v m) ≡ some b
emplace_stays k j v b m a at =
    find-emplace j k 0 v m a
    ∙ (elim (ℕ_discrete k j) [ yes same ↦ rw (same, at) (ground arith) | no apart ↦ ground arith ])

assign_stays :
    {V : Type 0} (k j : ℕ) (v b : V) (m : List (ℕ × V))
    → find j m ≡ some b
    → (b' : V) × (find j (assign k v m) ≡ some b')
assign_stays k j v b m at = elim (ℕ_discrete k j) [
  | yes same ↦ (v, ground (arith, find-assign j k v m))
  | no apart ↦ (b, ground (arith, find-assign j k v m))
]

abbrev pub HasSession : Server → ℕ → Type 0
HasSession s sid = (impl : SessionImpl) × (find sid s.blob_sessions ≡ some impl)

-- Sessions stay, and so do all BLOBs but one.
pub record Spares (dropped : Option ℕ) (s t : Server) : Type 0 where
  pub sessions : (sid : ℕ) → HasSession s sid → HasSession t sid
  pub blobs : (sid bid : ℕ) → some bid ≢ dropped → Has s sid bid → Has t sid bid

-- A method leaves the entries of its session, but for one.
abbrev pub Leaves : Option ℕ → Context → Context → Type 0
Leaves dropped c c' =
    (j : ℕ) (b : Blob)
    → some j ≢ dropped
    → find j c.blobs ≡ some b
    → (b' : Blob) × (find j c'.blobs ≡ some b')

same-Spares : {dropped : Option ℕ} (s t : Server) → t.manager ≡ s.manager → Spares dropped s t
same-Spares s t e = record {
  sessions = λ sid (impl, there). (impl, ap (λ (m : Manager). find sid m.blob_sessions) e ∙ there);
  blobs = λ sid bid other (impl, b, there, at).
      (impl, b, ap (λ (m : Manager). find sid m.blob_sessions) e ∙ there, at);
}

method-Spares :
    {A : Type 0} (dropped : Option ℕ) (sid : ℕ) (method : M Context A) (s : Server)
    → ((impl : SessionImpl)
        → find sid s.blob_sessions ≡ some impl
        → Leaves dropped (context s impl) (method (context s impl)).1)
    → Spares dropped s (with_session sid method s).1
unfolding with_session
method-Spares dropped sid method s leaves = elim (Option-cases (find sid s.blob_sessions)) [
  | inl absent ↦ rw (absent, with_session) (same-Spares s s refl)
  | inr (impl, there) ↦
      let c : Context = (method (context s impl)).1 in
      rw (there, with_session)
        (record {
          sessions = λ other (i, at). elim (ℕ_discrete sid other) [
            | yes same ↦ (c.impl, ground (arith, find-assign other sid c.impl s.blob_sessions))
            | no apart ↦ (i, ground (arith, find-assign other sid c.impl s.blob_sessions))
          ];
          blobs = λ other bid differs (i, b, at, has). elim (ℕ_discrete sid other) [
            | yes same ↦
                let mine : i ≡ impl = cc in
                let (b', has') =
                  leaves impl there bid b differs
                    (subst (λ (x : SessionImpl). find bid x.blobs ≡ some b) mine has) in
                (c.impl, b', ground (arith, find-assign other sid c.impl s.blob_sessions), has')
            | no apart ↦ (i, b, ground (arith, find-assign other sid c.impl s.blob_sessions), has)
          ];
        })
]

create_blob_file-Leaves :
    (dropped : Option ℕ) (prefix : Text) (c : Context)
    → AscendsFrom 0 c.blobs
    → Leaves dropped c (create_blob_file prefix c).1
unfolding create_blob_file get_new_blob_id
create_blob_file-Leaves dropped prefix c a j b differs at =
    (b, emplace_stays ((c.blob_id + 1) % word) j _ b c.blobs a at)

add-Leaves :
    (dropped : Option ℕ) (path : FilePath) (c : Context)
    → AscendsFrom 0 c.blobs
    → Leaves dropped c (add path c).1
unfolding add get_new_blob_id
add-Leaves dropped path c a j b differs at = elim (Bool-cases (exists c.file_system path)) [
  | inr absent ↦ rw absent (b, at)
  | inl stands ↦ rw stands (b, emplace_stays ((c.blob_id + 1) % word) j _ b c.blobs a at)
]

reserve_session_store-Leaves :
    (dropped : Option ℕ) (bid size : ℕ) (c : Context)
    → Leaves dropped c (reserve_session_store bid size c).1
unfolding reserve_session_store
reserve_session_store-Leaves dropped bid size c j b differs at =
    elim (Bool-cases (reserve c.store size).0) [
      | inr refused ↦ rw refused (b, at)
      | inl taken ↦ rw taken (elim (Option-cases (find bid c.blobs)) [
        | inl absent ↦ rw absent (b, at)
        | inr (old, there) ↦
            rw there
              (assign_stays bid j (record old { size = (old.size + size) % word }) b c.blobs at)
      ])
    ]

delete_blob_file-Leaves :
    (bid : ℕ) (c : Context) → AscendsFrom 0 c.blobs → Leaves (some bid) c (delete_blob_file bid c).1
delete_blob_file-Leaves bid c a j b differs at =
    let apart : j ≢ bid = λ same. differs (ap some same) in
    elim (delete_blob_file_cases bid c) [
      | inl (_, e) ↦ rw e (b, at)
      | inr (inl (_, fs, _, _, e)) ↦ rw e (b, ground (arith, find-erase j bid 0 c.blobs a))
      | inr (inr (_, _, _, e)) ↦ rw e (b, at)
    ]

-- the BLOB that the next step removes
abbrev pub removed_by : Phase → Option ℕ
removed_by (exhausting m bid) = some bid
removed_by _ = none

call-Spares :
    {A : Type 0} (dropped : Option ℕ) (s : Server) (k : A → Phase) (r : Outcome A × Server)
    → Spares dropped s r.1
    → Spares dropped s (next_phase k r).1
call-Spares dropped s k r = subst (Spares dropped s) (sym (next_phase_server k r))

-- A step of a handler leaves all sessions, and all BLOBs but the one that it gives up.
pub step-Spares :
    {lost : ℕ} (o : OpenSsl) (p : Phase) (s : Server)
    → IsSound lost s
    → Spares (removed_by p) s (step o p s).1
unfolding step
step-Spares o (starting m rs) s v = call-Spares none s _ _ (same-Spares s s refl)
step-Spares o (creating m rs) s v = call-Spares none s _ _ (
    method-Spares none m.session_id (create_blob_file (text "upload")) s (λ impl there.
      create_blob_file-Leaves none (text "upload") (context s impl)
        (v.booked.numbered m.session_id impl there).0))
step-Spares o (opening m rs bid path) s v = same-Spares s _ (open_step_manager m rs bid path s)
step-Spares o (reading m [] bid path total) s v = same-Spares s s refl
step-Spares o (reading m (chunk bytes ∷ rs) bid path total) s v = call-Spares none s _ _ (
    method-Spares none m.session_id (reserve_session_store bid (length bytes)) s
      (λ impl there. reserve_session_store-Leaves none bid (length bytes) (context s impl)))
step-Spares o (reading m (metadata _ ∷ rs) bid path total) s v = same-Spares s s refl
step-Spares o (reading m (not_set ∷ rs) bid path total) s v = same-Spares s s refl
step-Spares o (writing m rs bid path total bytes) s v =
    same-Spares s _ (write_stream_manager path bytes s)
step-Spares o (exhausting m bid) s v = call-Spares (some bid) s _ _ (
    method-Spares (some bid) m.session_id (delete_blob_file bid) s (λ impl there.
      delete_blob_file-Leaves bid (context s impl) (v.booked.numbered m.session_id impl there).0))
step-Spares o (discarding path) s v = same-Spares s _ (discard_step_manager path s)
step-Spares o (tagging m bid) s v = same-Spares s _ (tag_step_manager o m bid s)
step-Spares o (ended r) s v = same-Spares s s refl
step-Spares o (thrown x) s v = same-Spares s s refl
step-Spares o crashed s v = same-Spares s s refl

-- The call removes nothing.
abbrev pub IsQuiet : {s t : Server} → Step s t → Type 0
IsQuiet (removes sid ids e) = ⊥
IsQuiet (disposes sid e) = ⊥
IsQuiet _ = Unit

created-Spares :
    (s : Server) (t : Option ℕ) {lost : ℕ} → IsSound lost s → Spares none s (create_session t s).1
unfolding create_session
created-Spares s t v =
    let id : ℕ = (s.session_id + 1) % word in
    let stays : (sid : ℕ) (impl : SessionImpl)
        → find sid s.blob_sessions ≡ some impl
        → find sid (create_session t s).1.blob_sessions ≡ some impl =
      λ sid impl there.
        emplace_stays id sid (record { session_id = id; transaction_id = t; blobs = [] }) impl
          s.blob_sessions v.registered.sessions_ordered there in
    record {
      sessions = λ sid (impl, there). (impl, stays sid impl there);
      blobs = λ sid bid differs (impl, b, there, at). (impl, b, stays sid impl there, at);
    }

pub Step-Spares :
    {lost : ℕ} {s t : Server} (st : Step s t) → IsQuiet st → IsSound lost s → Spares none s t
Step-Spares {s = s} (creates o fits) q v = created-Spares s o v
Step-Spares {s = s} (adds sid path fits there) q v =
    method-Spares none sid (add path) s
      (λ impl at. add-Leaves none path (context s impl) (v.booked.numbered sid impl at).0)
Step-Spares {s = s} (creates_blob sid prefix fits there) q v =
    method-Spares none sid (create_blob_file prefix) s (λ impl at.
      create_blob_file-Leaves none prefix (context s impl) (v.booked.numbered sid impl at).0)
Step-Spares {s = s} (reserves sid bid size fits there has) q v =
    method-Spares none sid (reserve_session_store bid size) s
      (λ impl at. reserve_session_store-Leaves none bid size (context s impl))
Step-Spares (removes sid ids e) q v = absurd q
Step-Spares (disposes sid e) q v = absurd q
