-- ===== src/Disposers/Books.antt =====
-- The books of the manager while a session ends, in every interleaving with other calls.
use data_relay_grpc.Base.{
  ℕ, ◌+◌, ◌≡◌, ◌≢◌, refl, sym, ap, ◌∙◌, subst, inl, inr, List, [], ◌∷◌, none, some, arith,
  Option-cases,
}
use data_relay_grpc.OrderedMap.{find}
use data_relay_grpc.OrderedMap.Lookup.{find-erase}
use data_relay_grpc.FileSystem.{FilePath}
use data_relay_grpc.Session.{SessionImpl, Context, entries, delete_blob_file}
use data_relay_grpc.Manager.{Server, with_session, context, absorb, dispose}
use data_relay_grpc.Manager.Registry.{dispose-IsRegistered, dispose_found}
use data_relay_grpc.Manager.Books.{weight}
use data_relay_grpc.Manager.Lifecycle.{dispose-IsBooked}
use data_relay_grpc.Manager.History.{Step, IsSound, Step-IsSound}
use data_relay_grpc.Outcome.{Outcome, returns, throws, undefined, filesystem_error}
use data_relay_grpc.Upload.Stream.{assign_same}
use data_relay_grpc.Handlers.Dangling.{gone_session}
use data_relay_grpc.Handlers.Sharing.{IsKept, deleting-IsSound}
use data_relay_grpc.Disposers.{
  Phase, starting, deleting, ended, thrown, crashed, next_phase, erased, step,
}

-- the file of an entry that is deleted can be removed
abbrev pub IsFitting : ℕ → Phase → Server → Type 0
IsFitting sid (deleting (bid ∷ ids)) s =
    (path : FilePath)
    → (with_session sid (delete_blob_file bid) s).0 ≢ throws (filesystem_error path)
IsFitting sid _ s = Unit

-- One step of the call of `dispose`, or another call.
pub data Move (sid : ℕ) (y : Phase × Server) : Phase × Server → Type 0 where
  advances : IsFitting sid y.0 y.1 → Move sid y (step sid y.0 y.1)
  calls : {t : Server} → Step y.1 t → Move sid y (y.0, t)

pub data Reach (sid : ℕ) (y : Phase × Server) : Phase × Server → Type 0 where
  here : Reach sid y y
  next : {z w : Phase × Server} → Reach sid y z → Move sid z w → Reach sid y w

next_phase_server : {A : Type 0} (k : A → Phase) (r : Outcome A × Server) → (next_phase k r).1 ≡ r.1
next_phase_server k (returns a, s) = refl
next_phase_server k (throws x, s) = refl
next_phase_server k (undefined, s) = refl

-- A method that only reads leaves the server as it is.
pub with_session-reads :
    {A : Type 0} (sid : ℕ) (f : Context → A) (s : Server) (impl : SessionImpl)
    → find sid s.blob_sessions ≡ some impl
    → with_session sid (λ c. (returns (f c), c)) s ≡ (returns (f (context s impl)), s)
unfolding with_session
with_session-reads {A} sid f s impl there =
    let same : absorb sid s (context s impl) ≡ s =
      ap
        (λ m.
          let t : Server = record {
            manager = record (s.manager) { blob_sessions = m };
            file_system = s.file_system;
          } in
          t)
        (assign_same sid impl s.blob_sessions there) in
    let e : with_session sid (λ c. (returns (f c), c)) s
        ≡ (returns (f (context s impl)), absorb sid s (context s impl)) =
      rw (there, with_session) refl in
    e ∙ ap (λ t. let r : Outcome A × Server = (returns (f (context s impl)), t) in r) same

-- The last step, where the session is still there: the session is gone, and what it had still
-- reserved stays in the usage counter.
erase-IsSound :
    {lost : ℕ} (sid : ℕ) (s : Server) (impl : SessionImpl)
    → find sid s.blob_sessions ≡ some impl
    → IsSound lost s
    → (t : Server) × (step sid (deleting []) s ≡ (ended, t))
      × IsSound (lost + weight impl) t
      × (find sid t.blob_sessions ≡ none)
      × (t.store ≡ s.store)
      × (t.file_system ≡ s.file_system)
unfolding step
erase-IsSound {lost} sid s impl there v = (
  record s { manager = dispose sid s.manager },
  ap (λ r. erased sid (next_phase (λ (_ : Unit {0}). ended) r))
      (with_session-reads sid (λ _. tt) s impl there),
  record {
    registered = dispose-IsRegistered sid s.manager v.registered;
    booked = dispose-IsBooked sid s.manager impl there v.registered v.booked;
  },
  rw (dispose_found sid s.manager impl there)
      (ground (arith, find-erase sid sid 0 s.blob_sessions v.registered.sessions_ordered)),
  rw (dispose_found sid s.manager impl there) refl,
  refl,
)

step-IsKept :
    {lost : ℕ} (sid : ℕ) (p : Phase) (s : Server)
    → IsFitting sid p s
    → IsSound lost s
    → IsKept lost (step sid p s).1
unfolding step
step-IsKept {lost} sid starting s fits v = elim (Option-cases (find sid s.blob_sessions)) [
  | inl gone ↦
      subst (λ (r : Outcome (List ℕ) × Server). IsKept lost (next_phase deleting r).1)
        (sym (gone_session sid (λ c. (returns (entries c.impl), c)) s gone)) (lost, omega arith, v)
  | inr (impl, there) ↦
      let e = with_session-reads sid (λ c. entries c.impl) s impl there in
      subst (λ (r : Outcome (List ℕ) × Server). IsKept lost (next_phase deleting r).1) (sym e)
        (lost, omega arith, v)
]
step-IsKept {lost} sid (deleting (bid ∷ ids)) s fits v =
    subst (IsKept lost) (sym (next_phase_server _ (with_session sid (delete_blob_file bid) s)))
      (lost, omega arith, deleting-IsSound sid bid s fits v)
step-IsKept {lost} sid (deleting []) s fits v = elim (Option-cases (find sid s.blob_sessions)) [
  | inl gone ↦
      subst
        (λ (r : Outcome (Unit {0}) × Server).
          IsKept lost (erased sid (next_phase (λ (_ : Unit {0}). ended) r)).1)
        (sym (gone_session sid (λ c. (returns tt, c)) s gone)) (lost, omega arith, v)
  | inr (impl, there) ↦
      let (t, e, sound, _, _, _) = erase-IsSound sid s impl there v in
      subst (λ (r : Phase × Server). IsKept lost r.1) (sym e)
        (lost + weight impl, omega arith, sound)
]
step-IsKept {lost} sid ended s fits v = (lost, omega arith, v)
step-IsKept {lost} sid (thrown x) s fits v = (lost, omega arith, v)
step-IsKept {lost} sid crashed s fits v = (lost, omega arith, v)

-- In every interleaving the registry is in order, and the books are, but that the counter may say
-- more than is reserved.
Reach-IsOrderly :
    {lost : ℕ} (sid : ℕ) {y z : Phase × Server} → IsSound lost y.1 → Reach sid y z → IsKept lost z.1
Reach-IsOrderly {lost} sid v here = (lost, omega arith, v)
Reach-IsOrderly {lost} sid v (next {z} r (advances fits)) =
    let (n, le, w) = Reach-IsOrderly sid v r in
    let (n', le', w') = step-IsKept sid z.0 z.1 fits w in (n', omega arith, w')
Reach-IsOrderly {lost} sid v (next r (calls st)) =
    let (n, le, w) = Reach-IsOrderly sid v r in (n, le, Step-IsSound st w)

-- From a server in order, in every interleaving of the steps of the end of a session and of calls
-- of the library that do not wrap a counter or a sum, in which the files to delete can be removed
-- and calls that remove BLOBs or sessions return: where all entries that were there at the start
-- have been dealt with, and the session is there, its last step takes the session away, and leaves
-- the usage counter and every file as they are. The registry and the books are in order after it,
-- with at least what the session had then still reserved counted for no BLOB.
pub dispose_leaks :
    {lost : ℕ} (sid : ℕ) (s t : Server) (impl : SessionImpl)
    → IsSound lost s
    → Reach sid (starting, s) (deleting [], t)
    → find sid t.blob_sessions ≡ some impl
    → (u : Server) × (step sid (deleting []) t ≡ (ended, u))
      × IsKept (lost + weight impl) u
      × (find sid u.blob_sessions ≡ none)
      × (u.store ≡ t.store)
      × (u.file_system ≡ t.file_system)
dispose_leaks sid s t impl v r there =
    let (lost', le, w) = Reach-IsOrderly sid v r in
    let (u, e, sound, gone, same, files) = erase-IsSound sid t impl there w in
    (u, e, (lost' + weight impl, omega (arith, le), sound), gone, same, files)
