-- ===== src/Manager/History.antt =====
-- The calls of the manager and of its sessions, and what each of them keeps.
use data_relay_grpc.Base.{ℕ, ◌+◌, ◌<◌, ◌≡◌, ◌≢◌, ap, subst, Bool, List, [], Option, some, arith}
use data_relay_grpc.OrderedMap.{find}
use data_relay_grpc.OrderedMap.Total.{total}
use data_relay_grpc.Text.{Text}
use data_relay_grpc.FileSystem.{FilePath, FileSystem}
use data_relay_grpc.TagGenerator.{OpenSsl}
use data_relay_grpc.SessionStore.{word, blob_session_store}
use data_relay_grpc.SessionStore.Startup.{blob_session_store_returns}
use data_relay_grpc.Session.{
  Blob, SessionImpl, Context, add, create_blob_file, reserve_session_store, remove_list,
  delete_blob_file,
}
use data_relay_grpc.Session.Accounting.{
  IsAccounted, add-IsAccounted, create_blob_file-IsAccounted, reserve_session_store-IsAccounted,
  delete_blob_file-IsAccounted,
}
use data_relay_grpc.Session.Evolution.{
  Evolves, add-Evolves, create_blob_file-Evolves, reserve_session_store-Evolves, for_each-Evolves,
  delete_blob_file-Evolves,
}
use data_relay_grpc.Session.Release.{for_each-IsAccounted}
use data_relay_grpc.Outcome.{Outcome, returns, after_returns, M}
use data_relay_grpc.Manager.{
  Manager, Server, blob_session_manager, create_session, dispose_session, with_session, context,
}
use data_relay_grpc.Manager.Registry.{
  IsRegistered, absorb-IsRegistered, create_session-IsRegistered,
}
use data_relay_grpc.Manager.Books.{IsBooked, others, IsBooked-IsAccounted, absorb-IsBooked}
use data_relay_grpc.Manager.Lifecycle.{
  create_session-IsBooked, dispose_session_lem, with_session_returns,
}

-- One call. The counters of ids do not wrap, a size to reserve cannot wrap the sum, a reservation
-- is for a BLOB of the session, and a removal that fails in the file system ends the history.
pub data Step (s : Server) : Server → Type 0 where
  creates : (t : Option ℕ) → s.session_id + 1 < word → Step s (create_session t s).1
  adds :
      (sid : ℕ) (path : FilePath) {impl : SessionImpl}
      → s.blob_id + 1 < word
      → find sid s.blob_sessions ≡ some impl
      → Step s (with_session sid (add path) s).1
  creates_blob :
      (sid : ℕ) (prefix : Text) {impl : SessionImpl}
      → s.blob_id + 1 < word
      → find sid s.blob_sessions ≡ some impl
      → Step s (with_session sid (create_blob_file prefix) s).1
  reserves :
      (sid bid size : ℕ) {impl : SessionImpl} {b : Blob}
      → s.store.quota + size < word
      → find sid s.blob_sessions ≡ some impl
      → find bid impl.blobs ≡ some b
      → Step s (with_session sid (reserve_session_store bid size) s).1
  removes :
      (sid : ℕ) (ids : List ℕ) {t : Server}
      → with_session sid (remove_list ids) s ≡ (returns tt, t)
      → Step s t
  disposes : (sid : ℕ) {t : Server} → dispose_session sid s ≡ (returns tt, t) → Step s t

pub record IsSound (lost : ℕ) (s : Server) : Type 0 where
  pub registered : IsRegistered s.manager
  pub booked : IsBooked lost s.manager

-- A method on one session, which keeps the books of that session.
pub method-IsSound :
    {lost lost' : ℕ} {A : Type 0} (sid : ℕ) (method : M Context A) (s : Server) (impl : SessionImpl)
    → find sid s.blob_sessions ≡ some impl
    → ((o : ℕ)
        → IsAccounted (o + lost) (context s impl)
        → Evolves (context s impl) (method (context s impl)).1
          × IsAccounted (o + lost') (method (context s impl)).1)
    → IsSound lost s
    → IsSound lost' (with_session sid method s).1
unfolding with_session
method-IsSound {lost} sid method s impl there keeps v =
    let kept = keeps (others sid s.manager) (IsBooked-IsAccounted s sid impl there v.booked) in
    let c : Context = (method (context s impl)).1 in
    rw (there, with_session)
      (record {
        registered =
            absorb-IsRegistered sid s impl c there kept.0.same_session kept.0.same_transaction
              v.registered;
        booked = absorb-IsBooked s sid impl c there v.booked kept.0 kept.1;
      })

removes-IsSound :
    {lost : ℕ} (sid : ℕ) (ids : List ℕ) (s t : Server)
    → with_session sid (remove_list ids) s ≡ (returns tt, t)
    → IsSound lost s
    → IsSound lost t
unfolding remove_list
removes-IsSound {lost} sid ids s t e v =
    let (impl, c, there, done, ended) = with_session_returns sid (remove_list ids) s t tt e in
    subst (IsSound lost) (ap (λ (r : Outcome (Unit {0}) × Server). r.1) e) (
      method-IsSound sid (remove_list ids) s impl there
        (λ o a. (
          for_each-Evolves ids (context s impl) a.ordered,
          for_each-IsAccounted (o + lost) ids (context s impl) _ a (λ i. (
            (ap (λ (r : Outcome (Unit {0}) × Context). r.0) done) i,
            (remove_list ids (context s impl)).1,
          )),
        ))
        v)

-- A deletion that returns
pub deletes-IsSound :
    {lost : ℕ} (sid bid : ℕ) (s t : Server)
    → with_session sid (delete_blob_file bid) s ≡ (returns tt, t)
    → IsSound lost s
    → IsSound lost t
deletes-IsSound {lost} sid bid s t e v =
    let (impl, c, there, done, ended) = with_session_returns sid (delete_blob_file bid) s t tt e in
    subst (IsSound lost) (ap (λ (r : Outcome (Unit {0}) × Server). r.1) e) (
      method-IsSound sid (delete_blob_file bid) s impl there
        (λ o a. (
          delete_blob_file-Evolves (context s impl) bid a.ordered,
          delete_blob_file-IsAccounted (o + lost) (context s impl) _ bid a (λ i. (
            (ap (λ (r : Outcome (Unit {0}) × Context). r.0) done) i,
            (delete_blob_file bid (context s impl)).1,
          )),
        ))
        v)

-- Every call keeps the registry and the books in order.
pub Step-IsSound : {lost : ℕ} {s t : Server} → Step s t → IsSound lost s → IsSound lost t
Step-IsSound {s} (creates o fits) v = record {
  registered = create_session-IsRegistered s o fits v.registered;
  booked = create_session-IsBooked s o fits v.registered v.booked;
}
Step-IsSound {lost} {s} (adds sid path {impl} fits there) v =
    method-IsSound sid (add path) s impl there
      (λ o a. (
        add-Evolves (context s impl) path fits a.ordered,
        add-IsAccounted (o + lost) (context s impl) path fits a,
      ))
      v
Step-IsSound {lost} {s} (creates_blob sid prefix {impl} fits there) v =
    method-IsSound sid (create_blob_file prefix) s impl there
      (λ o a. (
        create_blob_file-Evolves (context s impl) prefix fits a.ordered,
        create_blob_file-IsAccounted (o + lost) (context s impl) prefix fits a,
      ))
      v
Step-IsSound {lost} {s} (reserves sid bid size {impl} {b} fits there has) v =
    method-IsSound sid (reserve_session_store bid size) s impl there
      (λ o a. (
        reserve_session_store-Evolves (context s impl) bid size a.ordered,
        reserve_session_store-IsAccounted (o + lost) (context s impl) bid size b fits has a,
      ))
      v
Step-IsSound {s} {t = t} (removes sid ids e) v = removes-IsSound sid ids s t e v
Step-IsSound {s} {t = t} (disposes sid e) v =
    let (r, k, _, _) = dispose_session_lem sid s t v.registered v.booked e in
    record { registered = r; booked = k }

new_manager-IsSound :
    (m : Manager) (fs : FileSystem)
    → m.store.quota ≢ 0
    → m.store.quota < word
    → m.store.current_size ≡ 0
    → m.blob_sessions ≡ []
    → m.blob_session_ids ≡ []
    → IsSound 0 (record { manager = m; file_system = fs })
unfolding find total
new_manager-IsSound m fs set small zero no_sessions no_ids = record {
  registered = record {
    sessions_ordered = rw no_sessions tt;
    ids_ordered = rw no_ids tt;
    sessions = λ j u e. cc (rw no_sessions at e);
    transactions = λ j u e. cc (rw no_ids at e);
  };
  booked = record {
    set = set;
    small = small;
    exact = rw no_sessions zero;
    within = omega arith;
    numbered = λ j u e. cc (rw no_sessions at e);
    disjoint = λ id p q i i' b b' e f g h. cc (rw no_sessions at e);
  };
}

pub constructor-IsSound :
    (o : OpenSsl) (dir : FilePath) (quota : ℕ) (dev : Bool) (fs fs' : FileSystem) (m : Manager)
    → quota ≢ 0
    → quota < word
    → blob_session_manager o dir quota dev fs ≡ (returns m, fs')
    → IsSound 0 (record { manager = m; file_system = fs' })
unfolding blob_session_manager
constructor-IsSound o dir quota dev fs fs' m set small e =
    let (store, g, made, rest) = after_returns (blob_session_store dir quota fs) _ e in
    let (_, _, _, _, is) = blob_session_store_returns dir quota fs g store made in
    new_manager-IsSound m fs' (ground arith) (ground arith) (ground arith) (ground arith)
      (ground arith)
