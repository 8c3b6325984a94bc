-- ===== src/BlobSession/Interface.antt =====
-- common/session.h, `class blob_session`: what the users of the library hold, apart from what
-- implements it, with what they may rely on.
use data_relay_grpc.Base.{
  ℕ, ◌+◌, ◌<◌, ◌≡◌, ◌≢◌, sym, ap, ◌∙◌, subst, inl, inr, List, [], ◌∷◌, Option, none, arith,
  Bool-cases, ◌==◌,
}
use data_relay_grpc.FileSystem.{FilePath}
use data_relay_grpc.TagGenerator.{OpenSsl}
use data_relay_grpc.SessionStore.{word}
use data_relay_grpc.Session
use data_relay_grpc.Session.Contents.{without}
use data_relay_grpc.Manager.{Server}
use data_relay_grpc.Manager.Lifecycle.{with_session_returns}
use data_relay_grpc.Manager.History.{adds, IsSound, Step-IsSound}
use data_relay_grpc.Outcome.{Outcome, returns, M}
use data_relay_grpc.BlobSession.{
  session_id as session_id_of, dispose as dispose_of, add as add_to, find as find_in,
  entries as entries_of, remove as remove_from, remove_between as remove_between_of,
  compute_tag as compute_tag_of,
}
use data_relay_grpc.BlobSession.Contract.{find-add, find-remove}

-- the class: its methods, `remove` over the iterators of a list and of a vector
pub record BlobSession : Type 0 where
  pub session_id : M Server ℕ
  pub dispose : M Server (Unit {0})
  pub add : FilePath → M Server ℕ
  pub find : (blob_id : ℕ) → M Server (Option FilePath)
  pub entries : M Server (List ℕ)
  pub remove : (blob_ids : List ℕ) → M Server (Unit {0})
  pub remove_between : (blob_ids : List ℕ) → (first last : ℕ) → M Server (Unit {0})
  pub compute_tag : (blob_id : ℕ) → M Server ℕ

-- the constructor, from what `impl_` leads to
unfoldable pub blob_session : OpenSsl → (impl : ℕ) → BlobSession
blob_session o impl = record {
  session_id = session_id_of impl;
  dispose = dispose_of impl;
  add = add_to impl;
  find = find_in impl;
  entries = entries_of impl;
  remove = remove_from impl;
  remove_between = remove_between_of impl;
  compute_tag = compute_tag_of o impl;
}

-- what a user may rely on, on servers that are good
pub record IsHonoured (IsGood : Server → Type 0) (b : BlobSession) : Type 0 where
  pub added :
      (path : FilePath) (id : ℕ) (s t : Server)
      → IsGood s
      → s.blob_id + 1 < word
      → b.add path s ≡ (returns id, t)
      → IsGood t
        × ((b.find id s).0 ≡ returns none)
        × ((other : ℕ) → id ≢ other → (b.find other t).0 ≡ (b.find other s).0)
  pub removed :
      (ids : List ℕ) (s t : Server)
      → IsGood s
      → b.remove ids s ≡ (returns tt, t)
      → (f : ℕ → Option FilePath) × ((id : ℕ) → (b.find id s).0 ≡ returns (f id))
        × ((id : ℕ) → (b.find id t).0 ≡ returns (without ids f id))

module _ {IsGood : Server → Type 0} (b : BlobSession) (h : IsHonoured IsGood b) where
  -- A user adds a file and removes it again.
  added_removed :
      (id : ℕ) (path : FilePath) (s t u : Server)
      → IsGood s
      → s.blob_id + 1 < word
      → b.add path s ≡ (returns id, t)
      → b.remove (id ∷ []) t ≡ (returns tt, u)
      → (k : ℕ) → (b.find k u).0 ≡ (b.find k s).0
  added_removed id path s t u good fits e e' k =
      let (good', fresh, same) = h.added path id s t good fits e in
      let (f, before, after) = h.removed (id ∷ []) t u good' e' in
      elim (Bool-cases (id == k)) [
        | inl is ↦
            let it : id ≡ k = ground (arith, is) in
            after k
            ∙ ap returns (ground (arith, is))
            ∙ sym (subst (λ j. (b.find j s).0 ≡ returns none) it fresh)
        | inr apart ↦
            after k
            ∙ ap returns (ground (arith, apart))
            ∙ sym (before k)
            ∙ same k (ground (arith, apart))
      ]

add-IsSound :
    {lost : ℕ} (sid : ℕ) (path : FilePath) (id : ℕ) (s t : Server)
    → IsSound lost s
    → s.blob_id + 1 < word
    → add_to sid path s ≡ (returns id, t)
    → IsSound lost t
unfolding add_to
add-IsSound {lost} sid path id s t v fits e =
    let (impl, c, there, done, at) = with_session_returns sid (Session.add path) s t id e in
    subst (IsSound lost) (ap (λ (r : Outcome ℕ × Server). r.1) e)
      (Step-IsSound (adds sid path fits there) v)

blob_session-IsHonoured :
    {lost : ℕ} (o : OpenSsl) (sid : ℕ) → IsHonoured (IsSound lost) (blob_session o sid)
unfolding blob_session
blob_session-IsHonoured o sid = record {
  added = λ path id s t v fits e.
      let (fresh, _, same) = find-add sid id path s t v fits e in
      (add-IsSound sid path id s t v fits e, fresh, same);
  removed = λ ids s t v e. find-remove sid ids s t v e;
}

-- On a server in order, where the counter of BLOB ids does not wrap: where `add`, and then
-- `remove` of the id that it has given, return, the session finds under every id what it found
-- before.
pub remove-add :
    {lost : ℕ} (o : OpenSsl) (sid id : ℕ) (path : FilePath) (s t u : Server)
    → IsSound lost s
    → s.blob_id + 1 < word
    → (blob_session o sid).add path s ≡ (returns id, t)
    → (blob_session o sid).remove (id ∷ []) t ≡ (returns tt, u)
    → (k : ℕ) → ((blob_session o sid).find k u).0 ≡ ((blob_session o sid).find k s).0
remove-add o sid id path s t u =
    added_removed (blob_session o sid) (blob_session-IsHonoured o sid) id path s t u
