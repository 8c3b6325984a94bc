-- ===== src/Readers/Alone.antt =====
-- The state machine of a download, where every step finds the same server, against `get`.
use data_relay_grpc.Base.{
  ℕ, suc, ◌≡◌, ◌≢◌, refl, sym, ap, ◌∙◌, subst, inl, inr, true, false, [], ◌==◌, length, flatten,
  arith, Option-cases, Bool-cases,
}
use data_relay_grpc.Text.{text}
use data_relay_grpc.FileSystem.{FilePath, node, exists, size_of, content_of}
use data_relay_grpc.Session.{SessionImpl, find}
use data_relay_grpc.Manager.{Api, get_session_impl, get_tag}
use data_relay_grpc.Outcome.{filesystem_error}
use data_relay_grpc.Relay.{
  unavailable, invalid_argument, not_found, internal, what, GetStreamingRequest, check_api_version,
  api_version_error_message, fails,
}
use data_relay_grpc.Download.{
  session_storage_id, limestone_blob_store, Flow, goes, lost, calls, Origin, find_origin,
  same_transaction, check_transaction, no_blob, path_or_end, check_tag, ◌>>=◌, ◌>>◌, locate,
  expected_tag, read_chunks, handled, send_blob, authorize, get, all_sent,
}
use data_relay_grpc.Download.Delivery.{find_origin-ne-lost, check_tag-ne-lost}
use data_relay_grpc.Download.Chunks.{read_chunks-ne-none}
use data_relay_grpc.Readers.Stream.{Streams, left_of, streams}
use data_relay_grpc.Readers.{
  Sight, Phase, looking, checking, comparing, locating, finding, expecting, tagging, probing,
  sizing, opening, reading, go, accept, after_origin, locate_step, expect_step, size_step,
  stream_content, step,
}
use data_relay_grpc.Readers.Reaching.{
  Reaches, Reaches-step, Reaches-by, Reaches-is, Reaches-ended, Reaches-go, Reaches-session,
  path_or_end-ne-lost, same_transaction-ne-lost, >>=-assoc,
}

module _ (api : Api) (c : ℕ) (r : GetStreamingRequest) (v : Sight) where
  tag_rest : Origin → FilePath → Flow FilePath
  tag_rest o path = do
    expected ← expected_tag api v.server.manager o r.blob.object_id
    check_tag v.server.manager expected r.blob.tag
    goes path

  Reaches-opening :
      (path : FilePath) (size : ℕ)
      → exists v.server.file_system path ≡ true
      → Reaches api c r v (opening path size) (
          all_sent size (
            read_chunks
              (suc (length (content_of (node v.server.file_system path))))
              c
              (content_of (node v.server.file_system path))))
  unfolding Streams left_of flatten step
  Reaches-opening path size there =
      let bytes = content_of (node v.server.file_system path) in
      elim (Option-cases (read_chunks (suc (length bytes)) c bytes)) [
        | inl out ↦ absurd (read_chunks-ne-none c bytes out)
        | inr (cs, e) ↦
            let is : stream_content path v ≡ bytes = ground arith in
            let (n, at) =
              streams api c r v path size (suc (length bytes)) [] false cs (λ e. cc)
                (ap (read_chunks (suc (length bytes)) c) is ∙ e) in
            Reaches-step api c r v (opening path size) {q = reading path size [] false}
              (ground (arith, there)) (n, _, _, ap (all_sent size) e, at)
      ]

  Reaches-probing :
      (path : FilePath) → Reaches api c r v (probing path) (send_blob v.server.file_system c path)
  unfolding step size_step send_blob
  Reaches-probing path = elim (Bool-cases (exists v.server.file_system path)) [
    | inl there ↦
        Reaches-step api c r v (probing path) {q = sizing path} (ground (arith, there))
          (elim (Option-cases (size_of (node v.server.file_system path))) [
            | inl no_size ↦
                Reaches-by api c r v (sizing path) (ground (arith, no_size))
                  (ground (arith, there, no_size))
                  (Reaches-ended api c r v
                    (record { code = internal; message = what (filesystem_error path) }) [])
            | inr (size, e) ↦
                Reaches-by api c r v (sizing path) {q = opening path size} (ground (arith, e))
                  (ground (arith, there, e)) (Reaches-opening path size there)
          ])
    | inr missing ↦
        Reaches-by api c r v (probing path) (ground (arith, missing)) (ground (arith, missing)) (
          Reaches-ended api c r v
            (fails not_found (text "an error occurred while reading the blob file")) [])
  ]

  Reaches-tag :
      {A : Type 0} (p : Phase) (m : Flow A) (path : FilePath)
      → step api c r p v ≡ go m (λ _. probing path)
      → m ≢ lost
      → Reaches api c r v p (handled v.server.file_system c (m >>= λ _. goes path))
  Reaches-tag p m path e there = Reaches-step api c r v p e (
      Reaches-go api c r v m (λ _. probing path) (λ _. goes path) there
        (λ _ _. Reaches-probing path))

  Reaches-expecting :
      (o : Origin) (path : FilePath)
      → Reaches api c r v (expecting o path) (handled v.server.file_system c (tag_rest o path))
  unfolding step expect_step expected_tag tag_rest
  Reaches-expecting o path = elim (Option-cases o.transaction) [
    | inl absent ↦
        let found = calls (get_session_impl o.session v.server.manager) in
        let tags = λ (impl : SessionImpl). goes (get_tag api r.blob.object_id impl) in
        let checks = λ (expected : ℕ). check_tag v.server.manager expected r.blob.tag in
        let done = λ (_ : Unit {0}). goes path in
        let is : tag_rest o path ≡ ((found >>= tags) >>= λ expected. checks expected >>= done) =
          ground (arith, absent) in
        let same : tag_rest o path
            ≡ ((found >>= λ impl. checks (get_tag api r.blob.object_id impl)) >>= done) =
          is
          ∙ >>=-assoc found tags (λ expected. checks expected >>= done)
          ∙ sym (>>=-assoc found (λ impl. checks (get_tag api r.blob.object_id impl)) done) in
        subst (λ g. Reaches api c r v (expecting o path) (handled v.server.file_system c g))
          (sym same)
          (Reaches-session api c r v (expecting o path) (tagging o path) o.session _
            (λ _. probing path) done (ground (arith, absent)) refl (λ impl. check_tag-ne-lost _ _ _)
            (λ _. Reaches-probing path))
    | inr (tid, e) ↦
        let same : tag_rest o path ≡ (
            check_tag v.server.manager (api.get_tag r.blob.object_id tid) r.blob.tag >>= λ _.
            goes path) =
          ground (arith, e) in
        subst (λ g. Reaches api c r v (expecting o path) (handled v.server.file_system c g))
          (sym same)
          (Reaches-tag (expecting o path)
            (check_tag v.server.manager (api.get_tag r.blob.object_id tid) r.blob.tag) path
            (ground (arith, e)) (check_tag-ne-lost _ _ _))
  ]

  loc_rest : Origin → Flow FilePath
  loc_rest o = locate api v.server o r.blob >>= tag_rest o

  Reaches-locating :
      (o : Origin) → Reaches api c r v (locating o) (handled v.server.file_system c (loc_rest o))
  unfolding step locate_step locate loc_rest
  Reaches-locating o = elim (Bool-cases (r.blob.storage_id == session_storage_id)) [
    | inl mine ↦ elim (Bool-cases o.raw) [
      | inl raw ↦
          Reaches-by api c r v (locating o) (ground (arith, mine, raw)) (ground (arith, mine, raw))
            (Reaches-ended api c r v no_blob [])
      | inr real ↦
          let located : loc_rest o ≡ (
              (calls (get_session_impl o.session v.server.manager) >>= λ impl.
              path_or_end (find r.blob.object_id impl))
              >>= tag_rest o) =
            ground (arith, mine, real) in
          subst (λ g. Reaches api c r v (locating o) (handled v.server.file_system c g))
            (sym located)
            (Reaches-session api c r v (locating o) (finding o) o.session _ (expecting o)
              (tag_rest o) (ground (arith, mine, real)) refl
              (λ impl. path_or_end-ne-lost (find r.blob.object_id impl)) (Reaches-expecting o))
    ]
    | inr other ↦ elim (Bool-cases (r.blob.storage_id == limestone_blob_store)) [
      | inl theirs ↦
          elim (Bool-cases (exists v.server.file_system (api.get_path r.blob.object_id))) [
            | inl there ↦
                let located : loc_rest o ≡ tag_rest o (api.get_path r.blob.object_id) =
                  ground (arith, other, theirs, there) in
                Reaches-by api c r v (locating o) (ground (arith, other, theirs, there))
                  (ap (handled v.server.file_system c) located)
                  (Reaches-expecting o (api.get_path r.blob.object_id))
            | inr missing ↦
                Reaches-by api c r v (locating o) (ground (arith, other, theirs, missing))
                  (ground (arith, other, theirs, missing)) (Reaches-ended api c r v no_blob [])
          ]
      | inr neither ↦
          Reaches-by api c r v (locating o) (ground (arith, other, neither))
            (ground (arith, other, neither))
            (Reaches-ended api c r v
              (fails invalid_argument
                (text "storage_id is neither session store nor limestone blob store"))
              [])
    ]
  ]

  Reaches-after :
      (o : Origin)
      → Reaches api c r v (after_origin o) (
          handled v.server.file_system c (check_transaction v.server.manager o >>= λ _. loc_rest o))
  unfolding step check_transaction
  Reaches-after o =
      let fs = v.server.file_system in
      let found = calls (get_session_impl o.session v.server.manager) in
      elim (Option-cases o.transaction) [
        | inl absent ↦
            let passes : check_transaction v.server.manager o ≡ goes tt = ground (arith, absent) in
            Reaches-is api c r v (ground (arith, absent))
              (ap (λ (m : Flow (Unit {0})). handled fs c (m >>= λ _. loc_rest o)) passes)
              (Reaches-locating o)
        | inr (tid, e) ↦ elim (Bool-cases o.raw) [
          | inl raw ↦
              let passes : check_transaction v.server.manager o ≡ goes tt =
                ground (arith, e, raw) in
              Reaches-is api c r v (ground (arith, e, raw))
                (ap (λ (m : Flow (Unit {0})). handled fs c (m >>= λ _. loc_rest o)) passes)
                (Reaches-locating o)
          | inr real ↦
              let checks : check_transaction v.server.manager o ≡ (found >>= same_transaction tid) =
                ground (arith, e, real) in
              Reaches-is api c r v {p' = checking o tid} (ground (arith, e, real))
                (ap (λ (m : Flow (Unit {0})). handled fs c (m >>= λ _. loc_rest o)) checks)
                (Reaches-session api c r v (checking o tid) (comparing o tid) o.session
                  (same_transaction tid) (λ _. locating o) (λ _. loc_rest o) refl refl
                  (same_transaction-ne-lost tid) (λ _. Reaches-locating o))
        ]
      ]

-- A download that no other call runs in between comes, after some number of steps, to the end that
-- `get` says: with the same status and the same messages to the client.
pub walk-get :
    (api : Api) (c : ℕ) (r : GetStreamingRequest) (v : Sight)
    → Reaches api c r v (accept r) (get api c v.server r)
unfolding accept get authorize tag_rest loc_rest step
walk-get api c r v = elim (Bool-cases (check_api_version r.api_version)) [
  | inl fine ↦ Reaches-is api c r v (ground (arith, fine)) (ground (arith, fine)) (
      Reaches-step api c r v looking {g = handled v.server.file_system c (authorize api v.server r)}
        refl
        (Reaches-go api c r v (find_origin v.server.manager r.context_id) after_origin _
          (find_origin-ne-lost v.server.manager r.context_id) (λ o _. Reaches-after api c r v o)))
  | inr old ↦
      Reaches-is api c r v (ground (arith, old)) (ground (arith, old))
        (Reaches-ended api c r v (fails unavailable (api_version_error_message r.api_version)) [])
]
