-- ===== src/Readers/Steady.antt =====
-- A download that other calls may run in between, while what it asks for stays as it is.
use data_relay_grpc.Base.{
  ℕ, ◌+◌, ◌-◌, ◌≤◌, ◌≡◌, sym, ap, ◌∙◌, subst, inl, inr, Bool, true, false, List, [], ◌∷◌, ◌++◌,
  none, some, ◌==◌, drop, length, flatten, arith, Option-cases, Bool-cases, append-nil,
  append_assoc,
}
use data_relay_grpc.OrderedMap
use data_relay_grpc.FileSystem.{FilePath, regular, node, exists}
use data_relay_grpc.Session.{SessionImpl, find}
use data_relay_grpc.Manager.{Api, get_session_impl, get_tag}
use data_relay_grpc.Manager.Lookup.{get_session_impl_cases}
use data_relay_grpc.Outcome.{returns}
use data_relay_grpc.Relay.{GetStreamingRequest}
use data_relay_grpc.Download.{
  session_storage_id, limestone_blob_store, goes, Origin, find_origin, same_transaction,
  check_transaction, locate, expected_tag, path_or_end, check_tag, authorize,
}
use data_relay_grpc.Download.Access.{>>=-goes}
use data_relay_grpc.Readers.{
  Sight, Phase, looking, checking, comparing, locating, finding, expecting, tagging, probing,
  sizing, opening, reading, ended, crashed, locate_step, expect_step, finished, step,
}

-- The request passes the checks for the same session and the same file, which has these bytes.
abbrev pub IsSteady : Api → GetStreamingRequest → Origin → FilePath → List ℕ → Sight → Type 0
IsSteady api r o path bytes v =
    (find_origin v.server.manager r.context_id ≡ goes o)
    × (authorize api v.server r ≡ goes path)
    × (node v.server.file_system path ≡ some (regular bytes))

-- where the handler can be
pub data On (r : GetStreamingRequest) (o : Origin) (path : FilePath) (bytes : List ℕ)
    : Phase → Type 0 where
  on_looking : On r o path bytes looking
  on_checking :
      (tid : ℕ) → o.transaction ≡ some tid → o.raw ≡ false → On r o path bytes (checking o tid)
  on_comparing :
      (tid : ℕ) → o.transaction ≡ some tid → o.raw ≡ false → On r o path bytes (comparing o tid)
  on_locating : On r o path bytes (locating o)
  on_finding :
      r.blob.storage_id ≡ session_storage_id → o.raw ≡ false → On r o path bytes (finding o)
  on_expecting : On r o path bytes (expecting o path)
  on_tagging : o.transaction ≡ none → On r o path bytes (tagging o path)
  on_probing : On r o path bytes (probing path)
  on_sizing : On r o path bytes (sizing path)
  on_opening : On r o path bytes (opening path (length bytes))
  on_reading :
      (sofar : List (List ℕ)) (eof : Bool)
      → flatten sofar ++ drop (length (flatten sofar)) bytes ≡ bytes
      → (eof ≡ true → flatten sofar ≡ bytes)
      → On r o path bytes (reading path (length bytes) sofar eof)
  on_ended :
      (cs : List (List ℕ)) → flatten cs ≡ bytes → On r o path bytes (finished (length bytes) cs)

-- how many steps are left, at most, of a download of so many bytes
unfoldable pub left : ℕ → Phase → ℕ
left l looking = 11 + l
left l (checking o tid) = 10 + l
left l (comparing o tid) = 9 + l
left l (locating o) = 8 + l
left l (finding o) = 7 + l
left l (expecting o path) = 6 + l
left l (tagging o path) = 5 + l
left l (probing path) = 4 + l
left l (sizing path) = 3 + l
left l (opening path size) = 2 + l
left l (reading path size sofar true) = 1
left l (reading path size sofar false) = 1 + (l - length (flatten sofar))
left l (ended status rs) = 0
left l crashed = 0

pub flatten-snoc : (cs : List (List ℕ)) (x : List ℕ) → flatten (cs ++ x ∷ []) ≡ flatten cs ++ x
unfolding flatten
flatten-snoc [] x = append-nil x
flatten-snoc (c ∷ cs) x =
    ap (λ xs. c ++ xs) (flatten-snoc cs x) ∙ sym (append_assoc c (flatten cs) x)

module _ (api : Api) (c : ℕ) (r : GetStreamingRequest) (o : Origin) (path : FilePath)
    (bytes : List ℕ) where
  unfoldable pub Steps : Phase → Sight → Type 0
  Steps p v =
      On r o path bytes (step api c r p v)
      × (left (length bytes) (step api c r p v) ≤ left (length bytes) p - 1)

  pub Steps-by :
      (p q : Phase) (v : Sight)
      → step api c r p v ≡ q
      → On r o path bytes q
      → left (length bytes) q ≤ left (length bytes) p - 1
      → Steps p v
  unfolding Steps
  Steps-by p q v e on less = rw e (on, less)

  check_transaction-IsSteady :
      (v : Sight) → IsSteady api r o path bytes v → check_transaction v.server.manager o ≡ goes tt
  unfolding authorize
  check_transaction-IsSteady v (found, passes, is) =
      let (o', e, e1) = >>=-goes (find_origin v.server.manager r.context_id) _ passes in
      let same : o' ≡ o = cc in
      let (_, e2, _) = >>=-goes (check_transaction v.server.manager o') _ e1 in
      subst (λ x. check_transaction v.server.manager x ≡ goes tt) same e2

  -- what a part of the handler before the last one has found
  locate-IsSteady :
      (v : Sight)
      → IsSteady api r o path bytes v
      → (locate api v.server o r.blob ≡ goes path)
        × ((tag : ℕ) × (expected_tag api v.server.manager o r.blob.object_id ≡ goes tag)
            × (check_tag v.server.manager tag r.blob.tag ≡ goes tt))
  unfolding authorize
  locate-IsSteady v (found, passes, is) =
      let (o', e, e1) = >>=-goes (find_origin v.server.manager r.context_id) _ passes in
      let same : o' ≡ o = cc in
      let (_, _, e2) = >>=-goes (check_transaction v.server.manager o') _ e1 in
      let (path', f, e3) = >>=-goes (locate api v.server o' r.blob) _ e2 in
      let (tag, g, e4) = >>=-goes (expected_tag api v.server.manager o' r.blob.object_id) _ e3 in
      let (_, h, e5) = >>=-goes (check_tag v.server.manager tag r.blob.tag) _ e4 in
      let there : path' ≡ path = cc in
      (
        subst (λ x. locate api v.server x r.blob ≡ goes path) same (f ∙ ap goes there),
        (
          tag,
          subst (λ x. expected_tag api v.server.manager x r.blob.object_id ≡ goes tag) same g,
          h,
        ),
      )

  pub looking-Steps : (v : Sight) → IsSteady api r o path bytes v → Steps looking v
  unfolding step left
  looking-Steps v (found, passes, is) = elim (Option-cases o.transaction) [
    | inl absent ↦
        Steps-by looking (locating o) v (ground (arith, found, absent)) on_locating (omega arith)
    | inr (tid, e) ↦ elim (Bool-cases o.raw) [
      | inl raw ↦
          Steps-by looking (locating o) v (ground (arith, found, e, raw)) on_locating (omega arith)
      | inr real ↦
          Steps-by looking (checking o tid) v (ground (arith, found, e, real))
            (on_checking tid e real) (omega arith)
    ]
  ]

  pub session-IsSteady :
      (v : Sight) (tid : ℕ)
      → IsSteady api r o path bytes v
      → o.transaction ≡ some tid
      → o.raw ≡ false
      → (impl : SessionImpl) × (get_session_impl o.session v.server.manager ≡ returns impl)
        × (OrderedMap.find o.session v.server.blob_sessions ≡ some impl)
        × (same_transaction tid impl ≡ goes tt)
  unfolding check_transaction
  session-IsSteady v tid steady own real =
      let passes = check_transaction-IsSteady v steady in
      elim (get_session_impl_cases o.session v.server.manager) [
        | inl (impl, there, is) ↦ (impl, is, there, ground (arith, own, real, is))
        | inr missing ↦ absurd (ground (arith, own, real, missing))
      ]

  pub locating-Steps : (v : Sight) → IsSteady api r o path bytes v → Steps (locating o) v
  unfolding step left locate locate_step
  locating-Steps v steady =
      let (located, _) = locate-IsSteady v steady in
      elim (Bool-cases (r.blob.storage_id == session_storage_id)) [
        | inl mine ↦ elim (Bool-cases o.raw) [
          | inl raw ↦ absurd (ground (arith, mine, raw))
          | inr real ↦ elim (get_session_impl_cases o.session v.server.manager) [
            | inl (impl, there, is) ↦
                Steps-by (locating o) (finding o) v (ground (arith, mine, real, is))
                  (on_finding (ground (arith, mine)) real) (omega arith)
            | inr missing ↦ absurd (ground (arith, mine, real, missing))
          ]
        ]
        | inr other ↦ elim (Bool-cases (r.blob.storage_id == limestone_blob_store)) [
          | inl theirs ↦
              elim (Bool-cases (exists v.server.file_system (api.get_path r.blob.object_id))) [
                | inl there ↦
                    let same : api.get_path r.blob.object_id ≡ path =
                      ground (arith, other, theirs, there) in
                    Steps-by (locating o) (expecting o path) v
                      (subst (λ x. step api c r (locating o) v ≡ expecting o x) same
                        (ground (arith, other, theirs, there)))
                      on_expecting (omega arith)
                | inr missing ↦ absurd (ground (arith, other, theirs, missing))
              ]
          | inr neither ↦ absurd (ground (arith, other, neither))
        ]
      ]

  pub finding-Steps :
      (v : Sight)
      → IsSteady api r o path bytes v
      → r.blob.storage_id ≡ session_storage_id
      → o.raw ≡ false
      → Steps (finding o) v
  unfolding step left locate
  finding-Steps v steady mine real =
      let (located, _) = locate-IsSteady v steady in
      elim (get_session_impl_cases o.session v.server.manager) [
        | inl (impl, there, is) ↦
            let found : path_or_end (find r.blob.object_id impl) ≡ goes path =
              ground (arith, mine, real, is) in
            Steps-by (finding o) (expecting o path) v (ground (arith, there, found)) on_expecting
              (omega arith)
        | inr missing ↦ absurd (ground (arith, mine, real, missing))
      ]

  pub expecting-Steps : (v : Sight) → IsSteady api r o path bytes v → Steps (expecting o path) v
  unfolding step left expected_tag expect_step
  expecting-Steps v steady =
      let (_, (tag, is, accepted)) = locate-IsSteady v steady in
      elim (Option-cases o.transaction) [
        | inl absent ↦ elim (get_session_impl_cases o.session v.server.manager) [
          | inl (impl, there, at) ↦
              Steps-by (expecting o path) (tagging o path) v (ground (arith, absent, at))
                (on_tagging absent) (omega arith)
          | inr missing ↦ absurd (ground (arith, absent, missing))
        ]
        | inr (tid, e) ↦
            let same : api.get_tag r.blob.object_id tid ≡ tag = ground (arith, e) in
            let accepted' : check_tag v.server.manager (api.get_tag r.blob.object_id tid) r.blob.tag
                ≡ goes tt =
              rw same accepted in
            Steps-by (expecting o path) (probing path) v (ground (arith, e, accepted')) on_probing
              (omega arith)
      ]

  pub tagging-Steps :
      (v : Sight) → IsSteady api r o path bytes v → o.transaction ≡ none → Steps (tagging o path) v
  unfolding step left expected_tag
  tagging-Steps v steady absent =
      let (_, (tag, is, accepted)) = locate-IsSteady v steady in
      elim (get_session_impl_cases o.session v.server.manager) [
        | inl (impl, there, at) ↦
            let same : get_tag api r.blob.object_id impl ≡ tag = ground (arith, absent, at) in
            let accepted' : check_tag v.server.manager (get_tag api r.blob.object_id impl)
                  r.blob.tag
                ≡ goes tt =
              rw same accepted in
            Steps-by (tagging o path) (probing path) v (ground (arith, there, accepted')) on_probing
              (omega arith)
        | inr missing ↦ absurd (ground (arith, absent, missing))
      ]
