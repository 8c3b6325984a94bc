-- ===== src/Readers/Fitting.antt =====
-- What the local variables of a handler of a download have in common in each phase.
use data_relay_grpc.Base.{
  ℕ, ◌≡◌, subst, inl, inr, Bool, true, false, List, [], none, some, ◌==◌, take, drop, length,
  flatten, arith, Option-cases, Bool-cases, if-cases,
}
use data_relay_grpc.FileSystem.{FilePath, node, exists, size_of, is_empty}
use data_relay_grpc.Session.{find}
use data_relay_grpc.Manager.{Api, Server, get_session_impl, get_tag}
use data_relay_grpc.Relay.{GetStreamingRequest}
use data_relay_grpc.Download.{
  session_storage_id, limestone_blob_store, Flow, goes, ends, raises, lost, calls, Origin,
  find_origin, same_transaction, path_or_end, check_tag, no_blob,
}
use data_relay_grpc.Readers.{
  Sight, Phase, looking, checking, comparing, locating, finding, expecting, tagging, probing,
  sizing, opening, reading, ended, crashed, go, through, after_origin, locate_step, expect_step,
  size_step, stream_content, read_step, step,
}

module _ (api : Api) (c : ℕ) (r : GetStreamingRequest) where
  -- what the local variables of a phase have in common
  unfoldable pub Fits : Phase → Type 0
  Fits (checking o tid) = (o.transaction ≡ some tid) × (o.raw ≡ false)
  Fits (comparing o tid) = (o.transaction ≡ some tid) × (o.raw ≡ false)
  Fits (finding o) = (r.blob.storage_id ≡ session_storage_id) × (o.raw ≡ false)
  Fits (tagging o path) = o.transaction ≡ none
  Fits (locating o) = Unit {0}
  Fits looking = Unit {0}
  Fits (expecting o path) = Unit {0}
  Fits (probing path) = Unit {0}
  Fits (sizing path) = Unit {0}
  Fits (opening path n) = Unit {0}
  Fits (reading path n sofar eof) = Unit {0}
  Fits (ended status rs) = Unit {0}
  Fits crashed = Unit {0}

  go-Fits : {A : Type 0} (m : Flow A) (k : A → Phase) → ((a : A) → Fits (k a)) → Fits (go m k)
  unfolding Fits
  go-Fits (goes a) k f = f a
  go-Fits (ends status) k f = tt
  go-Fits (raises x) k f = tt
  go-Fits lost k f = tt

  after_origin-Fits : (o : Origin) → Fits (after_origin o)
  unfolding Fits
  after_origin-Fits o = elim (Option-cases o.transaction) [
    | inl absent ↦ let is : locating o ≡ after_origin o = ground (arith, absent) in subst Fits is tt
    | inr (tid, e) ↦ elim (Bool-cases o.raw) [
      | inl raw ↦ let is : locating o ≡ after_origin o = ground (arith, e, raw) in subst Fits is tt
      | inr real ↦
          let is : checking o tid ≡ after_origin o = ground (arith, e, real) in
          subst Fits is (e, real)
    ]
  ]

  locating-Fits : (o : Origin) (s : Server) → Fits (locate_step api r o s)
  unfolding Fits locate_step
  locating-Fits o s = elim (Bool-cases (r.blob.storage_id == session_storage_id)) [
    | inl mine ↦ elim (Bool-cases o.raw) [
      | inl raw ↦
          let is : ended no_blob [] ≡ locate_step api r o s = ground (arith, mine, raw) in
          subst Fits is tt
      | inr real ↦
          let m = calls (get_session_impl o.session s.manager) in
          let is : go m (λ _. finding o) ≡ locate_step api r o s = ground (arith, mine, real) in
          subst Fits is (go-Fits m (λ _. finding o) (λ _. (ground (arith, mine), real)))
    ]
    | inr other ↦
        rw (locate_step, other)
          (if-cases (r.blob.storage_id == limestone_blob_store) Fits
            (if-cases (exists s.file_system (api.get_path r.blob.object_id)) Fits tt tt) tt)
  ]

  expecting-Fits : (o : Origin) (path : FilePath) (s : Server) → Fits (expect_step api r o path s)
  unfolding Fits expect_step
  expecting-Fits o path s = elim (Option-cases o.transaction) [
    | inl absent ↦
        let m = calls (get_session_impl o.session s.manager) in
        let is : go m (λ _. tagging o path) ≡ expect_step api r o path s = ground (arith, absent) in
        subst Fits is (go-Fits m (λ _. tagging o path) (λ _. absent))
    | inr (tid, e) ↦
        let m = check_tag s.manager (api.get_tag r.blob.object_id tid) r.blob.tag in
        let is : go m (λ _. probing path) ≡ expect_step api r o path s = ground (arith, e) in
        subst Fits is (go-Fits m (λ _. probing path) (λ _. tt))
  ]

  read-Fits :
      (path : FilePath) (n : ℕ) (sofar : List (List ℕ)) (eof : Bool) (v : Sight)
      → Fits (read_step c path n sofar eof v)
  unfolding Fits read_step
  read-Fits path n sofar true v = tt
  read-Fits path n sofar false v =
      if-cases (is_empty (take c (drop (length (flatten sofar)) (stream_content path v)))) Fits tt
        tt

  pub step-Fits : (p : Phase) (v : Sight) → Fits p → Fits (step api c r p v)
  unfolding Fits step size_step
  step-Fits looking v fits =
      go-Fits (find_origin v.server.manager r.context_id) after_origin after_origin-Fits
  step-Fits (checking o tid) v fits =
      go-Fits (calls (get_session_impl o.session v.server.manager)) (λ _. comparing o tid)
        (λ _. fits)
  step-Fits (comparing o tid) v fits =
      go-Fits (through o.session v.server (same_transaction tid)) (λ _. locating o) (λ _. tt)
  step-Fits (locating o) v fits = locating-Fits o v.server
  step-Fits (finding o) v fits =
      go-Fits (through o.session v.server (λ impl. path_or_end (find r.blob.object_id impl)))
        (expecting o) (λ _. tt)
  step-Fits (expecting o path) v fits = expecting-Fits o path v.server
  step-Fits (tagging o path) v fits =
      go-Fits
        (through o.session v.server
          (λ impl. check_tag v.server.manager (get_tag api r.blob.object_id impl) r.blob.tag))
        (λ _. probing path) (λ _. tt)
  step-Fits (probing path) v fits = if-cases (exists v.server.file_system path) Fits tt tt
  step-Fits (sizing path) v fits = elim (Option-cases (size_of (node v.server.file_system path))) [
    | inl no_size ↦ rw (size_step, no_size) tt
    | inr (n, is) ↦ rw (size_step, is) tt
  ]
  step-Fits (opening path n) v fits = tt
  step-Fits (reading path n sofar eof) v fits = read-Fits path n sofar eof v
  step-Fits (ended status rs) v fits = tt
  step-Fits crashed v fits = tt
