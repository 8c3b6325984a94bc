-- ===== src/BlobSession/Contract.antt =====
-- What the methods of `blob_session` promise of each other.
use data_relay_grpc.Base.{
  ℕ, ◌+◌, ◌%◌, ◌<◌, ◌≡◌, ◌≢◌, refl, sym, ap, ◌∙◌, inl, inr, List, Option, none, some, arith,
  Bool-cases, ◌==◌,
}
use data_relay_grpc.OrderedMap
use data_relay_grpc.OrderedMap.{assign, emplace}
use data_relay_grpc.OrderedMap.Lookup.{find-assign}
use data_relay_grpc.FileSystem.{FilePath, exists, canonical}
use data_relay_grpc.SessionStore.{word}
use data_relay_grpc.Session
use data_relay_grpc.Session.{Blob, SessionImpl, Context, get_new_blob_id, remove_list}
use data_relay_grpc.Session.Accounting.{numbered_fresh}
use data_relay_grpc.Session.Contents.{set, without, contents, emplace-contents, for_each-contents}
use data_relay_grpc.Manager.{Server, with_session, context, absorb}
use data_relay_grpc.Manager.Lifecycle.{with_session_returns}
use data_relay_grpc.Manager.History.{IsSound}
use data_relay_grpc.Outcome.{Outcome, returns}
use data_relay_grpc.BlobSession.{add, find, remove}

find_now :
    (sid bid : ℕ) (s : Server) (impl : SessionImpl)
    → OrderedMap.find sid s.blob_sessions ≡ some impl
    → (find sid bid s).0 ≡ returns (contents impl bid)
unfolding find with_session
find_now sid bid s impl there = rw (there, with_session) refl

find_absorbed :
    (sid bid : ℕ) (s t : Server) (impl : SessionImpl) (c : Context)
    → OrderedMap.find sid s.blob_sessions ≡ some impl
    → t ≡ absorb sid s c
    → (find sid bid t).0 ≡ returns (contents c.impl bid)
find_absorbed sid bid s t impl c there at =
    ap (λ (u : Server). (find sid bid u).0) at
    ∙ find_now sid bid (absorb sid s c) c.impl
        (ground (arith, there, find-assign sid sid c.impl s.blob_sessions))

abbrev new_blob : Context → FilePath → Blob
new_blob c path = record { path = canonical c.file_system path; size = 0 }

added :
    (c c' : Context) (path : FilePath) (id : ℕ)
    → Session.add path c ≡ (returns id, c')
    → (id ≡ (c.blob_id + 1) % word)
      × (c'.impl ≡ record (c.impl) { blobs = emplace id (new_blob c path) c.blobs })
unfolding Session.add get_new_blob_id
added c c' path id e = elim (Bool-cases (exists c.file_system path)) [
  | inr absent ↦ cc (rw absent at e)
  | inl stands ↦
      let e' = rw stands at e in
      let same : (c.blob_id + 1) % word ≡ id = cc in
      (
        sym same,
        sym (ap (λ (r : Outcome ℕ × Context). r.1.impl) e')
            ∙ ap
                (λ k.
                  let i : SessionImpl = record (c.impl) {
                    blobs = emplace k (new_blob c path) c.blobs;
                  } in
                  i)
                same,
      )
]

-- On a server in order, where the counter of BLOB ids does not wrap, and `add` returns: under the
-- id that it gives nothing was found in the session before, and the canonical path of the file is
-- found after; under every other id of the session the same is found as before.
pub find-add :
    {lost : ℕ} (sid id : ℕ) (path : FilePath) (s t : Server)
    → IsSound lost s
    → s.blob_id + 1 < word
    → add sid path s ≡ (returns id, t)
    → ((find sid id s).0 ≡ returns none)
      × ((find sid id t).0 ≡ returns (some (canonical s.file_system path)))
      × ((other : ℕ) → id ≢ other → (find sid other t).0 ≡ (find sid other s).0)
unfolding add Session.find
find-add sid id path s t v fits e =
    let (impl, c, there, done, at) = with_session_returns sid (Session.add path) s t id e in
    let (same, now) = added (context s impl) c path id done in
    let (ordered, numbered) = v.booked.numbered sid impl there in
    let fresh = numbered_fresh (context s impl) id numbered (omega arith) in
    let b = new_blob (context s impl) path in
    let f : contents c.impl ≡ set id (some b.path) (contents impl) =
      ap contents now ∙ emplace-contents impl id b ordered fresh in
    let here = λ (k : ℕ).
      find_absorbed sid k s t impl c there at ∙ ap (λ (g : ℕ → Option FilePath). returns (g k)) f in
    (
      find_now sid id s impl there ∙ ground (arith, fresh),
      here id ∙ ground arith,
      (λ other differs.
          here other
          ∙ (elim (Bool-cases (id == other)) [
            | inl is ↦ absurd (differs (ground arith))
            | inr apart ↦ rw apart refl
          ])
          ∙ sym (find_now sid other s impl there)),
    )

-- On a server in order, where `remove` of a list of ids returns: nothing is found in the session
-- under an id of the list, and under every other id what was found before; ids that are not there
-- make no difference.
pub find-remove :
    {lost : ℕ} (sid : ℕ) (ids : List ℕ) (s t : Server)
    → IsSound lost s
    → remove sid ids s ≡ (returns tt, t)
    → (f : ℕ → Option FilePath) × ((id : ℕ) → (find sid id s).0 ≡ returns (f id))
      × ((id : ℕ) → (find sid id t).0 ≡ returns (without ids f id))
unfolding remove remove_list
find-remove sid ids s t v e =
    let (impl, c, there, done, at) = with_session_returns sid (remove_list ids) s t tt e in
    let (ordered, _) = v.booked.numbered sid impl there in
    let f = for_each-contents ids (context s impl) c ordered done in
    (
      contents impl,
      (λ id. find_now sid id s impl there),
      (λ id.
          find_absorbed sid id s t impl c there at
          ∙ ap (λ (g : ℕ → Option FilePath). returns (g id)) f),
    )
