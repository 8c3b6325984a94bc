-- ===== src/Manager/Methods.antt =====
-- common/detail/session_impl.{h,cpp}: the methods of a session, against what the contract says of
-- the calls.
use data_relay_grpc.Base.{
  ℕ, ◌+◌, ◌%◌, ◌<◌, ◌≡◌, refl, sym, inl, inr, List, none, some, arith, subst, Bool-cases,
  Option-cases,
}
use data_relay_grpc.OrderedMap
use data_relay_grpc.OrderedMap.{assign}
use data_relay_grpc.Text.{Text}
use data_relay_grpc.FileSystem.{FilePath, exists, canonical}
use data_relay_grpc.SessionStore
use data_relay_grpc.SessionStore.{word, reserve}
use data_relay_grpc.Session.{
  Blob, SessionImpl, find, get_new_blob_id, add, create_blob_file, reserve_session_store,
  remove_list,
}
use data_relay_grpc.Session.Accounting.{numbered_fresh}
use data_relay_grpc.Session.Contents.{
  set, without, contents, assign-contents, all_gone, stops_at, for_each-Ends,
}
use data_relay_grpc.Outcome.{Outcome, returns, throws, undefined, after, filesystem_error}
use data_relay_grpc.Manager.{Server, context}
use data_relay_grpc.Manager.History.{IsSound}
use data_relay_grpc.Manager.Contract.{
  Entry, entry_of, view_of, Op, add_file, create_file, reserve_size, remove_blobs, Answer, blob,
  blob_file, reserved, done, with_files, Change, adds, add_fails, creates, reserves, refuses,
  misses, removes, remove_fails,
}
use data_relay_grpc.Manager.Views.{
  storage_of, view-found, set-same, entry-path, emplaced-entry, deleted-entry, view_of-IsFresh,
}

abbrev pub answer : {A : Type 0} → (A → Answer) → Outcome A → Outcome Answer
answer f (returns a) = returns (f a)
answer f (throws x) = throws x
answer f undefined = undefined

module _ {lost : ℕ} (s : Server) (sid : ℕ) (impl : SessionImpl)
    (there : OrderedMap.find sid s.blob_sessions ≡ some impl) (v : IsSound lost s) where
  -- what the contract allows, where the session's entry becomes `e`
  abbrev pub Allows : Op → Outcome Answer → Entry → Type 0
  Allows op o e = Change (storage_of s) (view_of s) op o (set sid (some e) (view_of s))

  same-Allows :
      (op : Op) (o : Outcome Answer) (e : Entry)
      → e ≡ entry_of impl
      → Change (storage_of s) (view_of s) op o (view_of s)
      → Allows op o e
  same-Allows op o e is h = subst (Allows op o) (sym is) (
      subst (Change (storage_of s) (view_of s) op o)
        (sym (set-same (view_of s) sid (entry_of impl) (view-found s sid impl there))) h)

  fresh_here : s.blob_id + 1 < word → OrderedMap.find ((s.blob_id + 1) % word) impl.blobs ≡ none
  fresh_here fits =
      numbered_fresh (context s impl) ((s.blob_id + 1) % word) (v.booked.numbered sid impl there).1
        (omega arith)

  emplaced-Allows :
      (op : Op) (o : Outcome Answer) (b : Blob)
      → s.blob_id + 1 < word
      → Change (storage_of s) (view_of s) op o (
          with_files sid
            (entry_of impl)
            (set ((s.blob_id + 1) % word) (some b.path) (contents impl))
            (view_of s))
      → Allows op o (
          entry_of
            (record impl { blobs = OrderedMap.emplace ((s.blob_id + 1) % word) b impl.blobs }))
  emplaced-Allows op o b fits = subst (Allows op o) (
      sym (
        emplaced-entry impl ((s.blob_id + 1) % word) b (v.booked.numbered sid impl there).0
          (fresh_here fits)))

  pub add-Allows :
      (path : FilePath)
      → s.blob_id + 1 < word
      → Allows
          (add_file sid path)
          (answer blob (add path (context s impl)).0)
          (entry_of (add path (context s impl)).1.impl)
  unfolding add get_new_blob_id
  add-Allows path fits = elim (Bool-cases (exists s.file_system path)) [
    | inl stands ↦ rw stands (
        emplaced-Allows (add_file sid path) (returns (blob ((s.blob_id + 1) % word)))
          (record { path = canonical s.file_system path; size = 0 }) fits
          (adds sid ((s.blob_id + 1) % word) path (entry_of impl) (view-found s sid impl there)
            stands (view_of-IsFresh s ((s.blob_id + 1) % word) v (omega arith))))
    | inr absent ↦ rw absent (
        same-Allows (add_file sid path) _ (entry_of impl) refl
          (add_fails sid path (entry_of impl) (view-found s sid impl there) absent))
  ]

  pub create-Allows :
      (prefix : Text)
      → s.blob_id + 1 < word
      → Allows
          (create_file sid prefix)
          (answer (λ a. blob_file a.0 a.1) (create_blob_file prefix (context s impl)).0)
          (entry_of (create_blob_file prefix (context s impl)).1.impl)
  unfolding create_blob_file get_new_blob_id
  create-Allows prefix fits =
      let id : ℕ = (s.blob_id + 1) % word in
      let path : FilePath = SessionStore.create_blob_file s.store id prefix in
      emplaced-Allows (create_file sid prefix) (returns (blob_file id path))
        (record { path = path; size = 0 }) fits
        (creates sid id prefix (entry_of impl) (view-found s sid impl there)
          (view_of-IsFresh s id v (omega arith)))

  pub reserve-Allows :
      (bid size : ℕ)
      → Allows
          (reserve_size sid bid size)
          (answer reserved (reserve_session_store bid size (context s impl)).0)
          (entry_of (reserve_session_store bid size (context s impl)).1.impl)
  unfolding reserve_session_store find
  reserve-Allows bid size = elim (Bool-cases (reserve s.store size).0) [
    | inr refused ↦ rw refused (
        same-Allows (reserve_size sid bid size) _ (entry_of impl) refl
          (refuses sid bid size (entry_of impl) (view-found s sid impl there) refused))
    | inl taken ↦ rw taken (elim (Option-cases (OrderedMap.find bid impl.blobs)) [
      | inl absent ↦
          let none_there : contents impl bid ≡ none = ground (arith, absent) in
          rw absent (
            same-Allows (reserve_size sid bid size) _ (entry_of impl) refl
              (misses sid bid size (entry_of impl) (view-found s sid impl there) none_there taken))
      | inr (b, has) ↦
          let path_there : contents impl bid ≡ some b.path = ground (arith, has) in
          rw has (
            same-Allows (reserve_size sid bid size) _ _
              (entry-path
                (record impl {
                  blobs = assign bid (record b { size = (b.size + size) % word }) impl.blobs;
                })
                impl.transaction_id (contents impl) refl (assign-contents impl bid b _ has refl))
              (reserves sid bid size (entry_of impl) b.path (view-found s sid impl there) path_there
                taken))
    ])
  ]

  pub remove-Allows :
      (ids : List ℕ)
      → Allows
          (remove_blobs sid ids)
          (answer (λ _. done) (remove_list ids (context s impl)).0)
          (entry_of (remove_list ids (context s impl)).1.impl)
  unfolding remove_list
  remove-Allows ids =
      let ordered = (v.booked.numbered sid impl there).0 in
      elim (for_each-Ends ids (context s impl) ordered) [
        | all_gone e at ↦
            rw (e, deleted-entry ids (context s impl) (without ids (contents impl)) ordered at)
              (removes sid ids (entry_of impl) (view-found s sid impl there))
        | stops_at before bid after path split has stands e at ↦
            rw (e, deleted-entry ids (context s impl) (without before (contents impl)) ordered at)
              (subst
                (λ xs.
                  Allows (remove_blobs sid xs) (throws (filesystem_error path))
                    (record (entry_of impl) { files = without before (contents impl) }))
                (sym split)
                (remove_fails sid before bid after (entry_of impl) path
                  (view-found s sid impl there) has stands))
      ]
