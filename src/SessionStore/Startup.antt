-- ===== src/SessionStore/Startup.antt =====
-- The constructor of the session storage: it empties the directory, and when it succeeds.
use data_relay_grpc.Base.{
  ℕ, ◌≡◌, ◌≢◌, refl, ap, ◌∙◌, inl, inr, true, List, [], ◌∷◌, none, some, arith, Option-cases,
}
use data_relay_grpc.Text.{Text}
use data_relay_grpc.FileSystem.{
  FilePath, FileSystem, find_node, node, exists, is_directory, entries_of, children,
  remove as remove_file,
}
use data_relay_grpc.FileSystem.Laws.{
  Occurs, dec_occurs, children_complete, children_sound, find_node-remove, remove-SameSystem,
}
use data_relay_grpc.Outcome.{returns, for_each, for_each_cons, after_returns, pure}
use data_relay_grpc.SessionStore.{SessionStore, remove_entry, blob_session_store, is_writable}

remove_entry_returns :
    (dir p : FilePath) (fs fs' : FileSystem)
    → remove_entry dir p fs ≡ (returns tt, fs')
    → remove_file fs p ≡ some fs'
unfolding remove_entry
remove_entry_returns dir p fs fs' e = ground arith

-- Removal of a list of paths, none of which is a link.
record Emptied (ps : List FilePath) (fs fs' : FileSystem) : Type 0 where
  gone : (q : FilePath) → Occurs q ps → find_node q fs'.nodes ≡ none
  same : (q : FilePath) → ¬ Occurs q ps → find_node q fs'.nodes ≡ find_node q fs.nodes

Emptied-for_each :
    (dir : FilePath) (ps : List FilePath) (fs fs' : FileSystem)
    → ((p : FilePath) → Occurs p ps → fs.resolve p ≡ p)
    → for_each (remove_entry dir) ps fs ≡ (returns tt, fs')
    → Emptied ps fs fs'
unfolding for_each
Emptied-for_each dir [] fs fs' links e = record {
  gone = λ q h. elim h [ ];
  same = λ q h. ground arith;
}
Emptied-for_each dir (p ∷ ps) fs fs' links e =
    let (g, first, rest) = for_each_cons (remove_entry dir) p ps fs fs' e in
    let file : remove_file fs p ≡ some g = remove_entry_returns dir p fs g first in
    let sys = remove-SameSystem fs g p file in
    let later =
      Emptied-for_each dir ps g fs'
        (λ q h. ap (λ (f : FilePath → FilePath). f q) sys.resolve ∙ links q (inr h)) rest in
    record {
      gone = λ q h. elim (dec_occurs q ps) [
        | yes o ↦ later.gone q o
        | no n ↦
            later.same q n
            ∙ ground (arith, find_node-remove fs g p q file, links p (inl refl), h, n)
      ];
      same = λ q h.
          later.same q (λ o. h (inr o))
          ∙ ground (arith, find_node-remove fs g p q file, links p (inl refl), h);
    }

-- What the guards of the constructor let through.
pub blob_session_store_returns :
    (dir : FilePath) (quota : ℕ) (fs fs' : FileSystem) (s : SessionStore)
    → blob_session_store dir quota fs ≡ (returns s, fs')
    → (exists fs dir ≡ true)
      × (is_directory (node fs dir) ≡ true)
      × (is_writable (node fs dir) ≡ true)
      × (for_each (remove_entry dir) (entries_of fs dir) fs ≡ (returns tt, fs'))
      × (s ≡ record { directory = dir; quota = quota; current_size = 0 })
unfolding blob_session_store
blob_session_store_returns dir quota fs fs' s e = ground (
  arith,
  after_returns {B = SessionStore} (for_each (remove_entry dir) (entries_of fs dir) fs)
      (λ _. pure (record { directory = dir; quota = quota; current_size = 0 })),
)

-- The constructor, where it returns, starts with no usage, leaves nothing in the directory, and
-- touches nothing else, if no entry of the directory is a link.
pub blob_session_store_empties :
    (dir : FilePath) (quota : ℕ) (fs fs' : FileSystem) (s : SessionStore)
    → ((name : Text) → fs.resolve (name ∷ fs.resolve dir) ≡ name ∷ fs.resolve dir)
    → blob_session_store dir quota fs ≡ (returns s, fs')
    → (s ≡ record { directory = dir; quota = quota; current_size = 0 })
      × ((name : Text) → find_node (name ∷ fs.resolve dir) fs'.nodes ≡ none)
      × ((q : FilePath)
          → ((name : Text) → q ≢ name ∷ fs.resolve dir)
          → find_node q fs'.nodes ≡ find_node q fs.nodes)
unfolding entries_of
blob_session_store_empties dir quota fs fs' s links e =
    let (_, _, _, loop, made) = blob_session_store_returns dir quota fs fs' s e in
    let d = fs.resolve dir in
    let em =
      Emptied-for_each dir (children d fs.nodes) fs fs'
        (λ p o. let (name, at) = children_sound p d fs.nodes o in rw at (links name)) loop in
    (
      made,
      (λ name. elim (Option-cases (find_node (name ∷ d) fs.nodes)) [
        | inr (n, there) ↦ em.gone (name ∷ d) (children_complete name d n fs.nodes there)
        | inl absent ↦ elim (dec_occurs (name ∷ d) (children d fs.nodes)) [
          | yes o ↦ em.gone (name ∷ d) o
          | no n ↦ em.same (name ∷ d) n ∙ absent
        ]
      ]),
      (λ q outside.
          em.same q (λ o. let (name, at) = children_sound q d fs.nodes o in outside name at)),
    )
