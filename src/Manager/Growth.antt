-- ===== src/Manager/Growth.antt =====
-- The counter of BLOB ids and the directory of the session storage, across the calls of the manager
-- and its sessions.
use data_relay_grpc.Base.{
  ℕ, ◌+◌, ◌≤◌, ◌≡◌, refl, ap, ◌∙◌, Option-cases, inl, inr, some, arith, subst,
}
use data_relay_grpc.OrderedMap.{find}
use data_relay_grpc.Session.{
  SessionImpl, Context, add, create_blob_file, reserve_session_store, remove_list,
}
use data_relay_grpc.Session.Evolution.{
  Evolves, add-Evolves, create_blob_file-Evolves, reserve_session_store-Evolves, for_each-Evolves,
}
use data_relay_grpc.Outcome.{Outcome, M}
use data_relay_grpc.Manager.{
  Manager, Server, create_session, dispose, with_session, context, absorb,
}
use data_relay_grpc.Manager.Books.{others, IsBooked-IsAccounted}
use data_relay_grpc.Manager.Lifecycle.{
  with_session_returns, dispose_session_returns, delete_entries_keeps,
}
use data_relay_grpc.Manager.History.{
  Step, creates, adds, creates_blob, reserves, removes, disposes, IsSound,
}

pub record Grows (s t : Server) : Type 0 where
  pub counted : s.blob_id ≤ t.blob_id
  pub settled : t.store.directory ≡ s.store.directory

pub method-Grows :
    {A : Type 0} (sid : ℕ) (method : M Context A) (s : Server) (impl : SessionImpl)
    → find sid s.blob_sessions ≡ some impl
    → Evolves (context s impl) (method (context s impl)).1
    → Grows s (with_session sid method s).1
unfolding with_session
method-Grows sid method s impl there v =
    rw (there, with_session) (record { counted = v.grown; settled = v.same_directory })

dispose_same :
    (sid : ℕ) (m : Manager)
    → ((dispose sid m).blob_id ≡ m.blob_id) × ((dispose sid m).store ≡ m.store)
unfolding dispose
dispose_same sid m = elim (Option-cases (find sid m.blob_sessions)) [
  | inl gone ↦ rw (gone, dispose) (refl, refl)
  | inr (impl, there) ↦ rw (there, dispose) (refl, refl)
]

-- No call takes the counter of BLOB ids back, or moves the directory.
pub Step-Grows : {lost : ℕ} {s t : Server} → Step s t → IsSound lost s → Grows s t
unfolding create_session remove_list
Step-Grows (creates o fits) v = record { counted = omega arith; settled = refl }
Step-Grows {s = s} (adds sid path {impl} fits there) v =
    let a = IsBooked-IsAccounted s sid impl there v.booked in
    method-Grows sid (add path) s impl there (add-Evolves (context s impl) path fits a.ordered)
Step-Grows {s = s} (creates_blob sid prefix {impl} fits there) v =
    let a = IsBooked-IsAccounted s sid impl there v.booked in
    method-Grows sid (create_blob_file prefix) s impl there
      (create_blob_file-Evolves (context s impl) prefix fits a.ordered)
Step-Grows {s = s} (reserves sid bid size {impl} fits there has) v =
    let a = IsBooked-IsAccounted s sid impl there v.booked in
    method-Grows sid (reserve_session_store bid size) s impl there
      (reserve_session_store-Evolves (context s impl) bid size a.ordered)
Step-Grows {s = s} {t = t} (removes sid ids e) v =
    let (impl, c, there, done, ended) = with_session_returns sid (remove_list ids) s t tt e in
    let a = IsBooked-IsAccounted s sid impl there v.booked in
    subst (Grows s) (ap (λ (r : Outcome (Unit {0}) × Server). r.1) e) (
      method-Grows sid (remove_list ids) s impl there
        (for_each-Evolves ids (context s impl) a.ordered))
Step-Grows {lost} {s} {t} (disposes sid e) v =
    let (impl, c, there, done, ended) = dispose_session_returns sid s t e in
    let a = IsBooked-IsAccounted s sid impl there v.booked in
    let (k, _) = delete_entries_keeps (others sid s.manager + lost) (context s impl) c a done in
    let (same, store) = dispose_same sid (absorb sid s c).manager in
    rw ended (record {
      counted = omega (arith, same, k.grown);
      settled = ap (λ st. st.directory) store ∙ k.same_directory;
    })
