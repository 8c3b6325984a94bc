-- ===== src/Readers/Protocol.antt =====
-- What a client of a download is sent, whatever other calls do between the steps of the handler:
-- the order of the messages, the sizes of the chunks, and the status that ends them.
use data_relay_grpc.Base.{
  ℕ, ◌≤◌, ◌<◌, ◌≡◌, ◌≢◌, ◌⊎◌, refl, sym, subst, inl, inr, Bool, true, false, not, List, [], ◌∷◌,
  ◌++◌, ◌==◌, ltb, map, take, drop, length, flatten, arith, Option-cases, Bool-cases, All, snoc-All,
  append-nil, length-take, if-cases,
}
use data_relay_grpc.Text.{text}
use data_relay_grpc.FileSystem.{FilePath, node, exists, size_of, is_empty}
use data_relay_grpc.Session.{find}
use data_relay_grpc.Manager.{Api, Server, get_session_impl, get_tag}
use data_relay_grpc.Relay.{
  ok, Status, GetStreamingRequest, GetStreamingResponse, check_api_version, fails,
}
use data_relay_grpc.Download.{
  session_storage_id, limestone_blob_store, Flow, goes, ends, raises, lost, calls, Origin,
  find_origin, same_transaction, path_or_end, check_tag, no_blob,
}
use data_relay_grpc.Readers.Refusals.{
  Refuses, calls-Refuses, find_origin-Refuses, same_transaction-Refuses, path_or_end-Refuses,
  check_tag-Refuses, through-Refuses,
}
use data_relay_grpc.Readers.{
  Sight, Phase, looking, checking, comparing, locating, finding, expecting, tagging, probing,
  sizing, opening, reading, ended, crashed, go, accept, through, after_origin, locate_step,
  expect_step, size_step, finished, stream_content, read_step, step, walk,
}

-- Every chunk has the chunk size, but for the last, which may be shorter and is not empty.
abbrev pub IsChunked : (chunk_size : ℕ) → List (List ℕ) → Type 0
IsChunked c cs =
    (whole : List (List ℕ)) × (tail : List (List ℕ)) × (cs ≡ whole ++ tail)
    × All (λ x. (length x ≡ c) × (0 < length x)) whole
    × All (λ x. (length x < c) × (0 < length x)) tail
    × (length tail ≤ 1)

-- An error with no message, or OK with the size and then the chunks.
abbrev pub IsAnswer : (chunk_size : ℕ) → Status → List GetStreamingResponse → Type 0
IsAnswer c status rs =
    ((status.code ≢ ok) × (rs ≡ []))
    ⊎ ((status ≡ fails ok (text ""))
        × ((size : ℕ) × (cs : List (List ℕ)) × IsChunked c cs
            × (rs ≡ GetStreamingResponse.metadata size ∷ map GetStreamingResponse.chunk cs)))

-- what holds of a handler in each phase
HasOrder : ℕ → Phase → Type 0
HasOrder c (reading path size cs true) = IsChunked c cs
HasOrder c (reading path size cs false) = All (λ x. (length x ≡ c) × (0 < length x)) cs
HasOrder c (ended status rs) = IsAnswer c status rs
HasOrder c looking = Unit {0}
HasOrder c (checking o tid) = Unit {0}
HasOrder c (comparing o tid) = Unit {0}
HasOrder c (locating o) = Unit {0}
HasOrder c (finding o) = Unit {0}
HasOrder c (expecting o path) = Unit {0}
HasOrder c (tagging o path) = Unit {0}
HasOrder c (probing path) = Unit {0}
HasOrder c (sizing path) = Unit {0}
HasOrder c (opening path size) = Unit {0}
HasOrder c crashed = Unit {0}

go-HasOrder :
    {A : Type 0} (c : ℕ) (m : Flow A) (k : A → Phase)
    → Refuses m
    → ((a : A) → HasOrder c (k a))
    → HasOrder c (go m k)
unfolding HasOrder
go-HasOrder c (goes a) k refuses f = f a
go-HasOrder c (ends status) k refuses f = inl (refuses status refl, refl)
go-HasOrder c (raises x) k refuses f = inl ((λ e. cc), refl)
go-HasOrder c lost k refuses f = tt

whole-IsChunked :
    (c : ℕ) (cs : List (List ℕ)) → All (λ x. (length x ≡ c) × (0 < length x)) cs → IsChunked c cs
whole-IsChunked c cs h = (cs, [], sym (append-nil cs), h, tt, omega arith)

after_origin-HasOrder : (c : ℕ) (o : Origin) → HasOrder c (after_origin o)
unfolding HasOrder
after_origin-HasOrder c o = elim (Option-cases o.transaction) [
  | inl absent ↦ rw absent tt
  | inr (tid, e) ↦ rw e (if-cases o.raw (HasOrder c) tt tt)
]

locate_step-HasOrder :
    (api : Api) (c : ℕ) (r : GetStreamingRequest) (o : Origin) (s : Server)
    → HasOrder c (locate_step api r o s)
unfolding HasOrder locate_step
locate_step-HasOrder api c r o s =
    let unfound : HasOrder c (ended no_blob []) = inl ((λ e. ground arith), refl) in
    if-cases (r.blob.storage_id == session_storage_id) (HasOrder c)
      (if-cases o.raw (HasOrder c) unfound (
        go-HasOrder c (calls (get_session_impl o.session s.manager)) (λ _. finding o)
          (calls-Refuses o.session s.manager) (λ _. tt)))
      (if-cases (r.blob.storage_id == limestone_blob_store) (HasOrder c)
        (if-cases (exists s.file_system (api.get_path r.blob.object_id)) (HasOrder c) tt unfound)
        (inl ((λ e. ground arith), refl)))

expect_step-HasOrder :
    (api : Api) (c : ℕ) (r : GetStreamingRequest) (o : Origin) (path : FilePath) (s : Server)
    → HasOrder c (expect_step api r o path s)
unfolding HasOrder expect_step
expect_step-HasOrder api c r o path s = elim (Option-cases o.transaction) [
  | inl absent ↦
      subst (HasOrder c)
        (let e : go (calls (get_session_impl o.session s.manager)) (λ _. tagging o path)
              ≡ expect_step api r o path s =
            ground (arith, absent) in
          e)
        (go-HasOrder c (calls (get_session_impl o.session s.manager)) (λ _. tagging o path)
          (calls-Refuses o.session s.manager) (λ _. tt))
  | inr (tid, e) ↦
      subst (HasOrder c)
        (let is : go (check_tag s.manager (api.get_tag r.blob.object_id tid) r.blob.tag)
                (λ _. probing path)
              ≡ expect_step api r o path s =
            ground (arith, e) in
          is)
        (go-HasOrder c (check_tag s.manager (api.get_tag r.blob.object_id tid) r.blob.tag)
          (λ _. probing path) (check_tag-Refuses s.manager _ _) (λ _. tt))
]

size_step-HasOrder : (c : ℕ) (path : FilePath) (s : Server) → HasOrder c (size_step path s)
unfolding HasOrder size_step
size_step-HasOrder c path s = elim (Option-cases (size_of (node s.file_system path))) [
  | inl no_size ↦ rw (size_step, no_size) (inl ((λ e. cc), refl))
  | inr (size, e) ↦ rw (size_step, e) tt
]

finished-IsAnswer :
    (c size : ℕ) (cs : List (List ℕ)) → IsChunked c cs → HasOrder c (finished size cs)
unfolding HasOrder
finished-IsAnswer c size cs h = inr (refl, (size, cs, h, refl))

pub is_empty-lt : (xs : List ℕ) → is_empty xs ≡ false → 0 < length xs
is_empty-lt [] e = cc
is_empty-lt (x ∷ xs) e = omega arith

read_step-HasOrder :
    (c : ℕ) (path : FilePath) (size : ℕ) (cs : List (List ℕ)) (eof : Bool) (v : Sight)
    → HasOrder c (reading path size cs eof)
    → HasOrder c (read_step c path size cs eof v)
unfolding HasOrder read_step
read_step-HasOrder c path size cs true v h = finished-IsAnswer c size cs h
read_step-HasOrder c path size cs false v h =
    let bytes = drop (length (flatten cs)) (stream_content path v) in
    let got = take c bytes in
    let l = length-take c bytes in
    elim (Bool-cases (is_empty got)) [
      | inl nothing ↦ rw nothing (finished-IsAnswer c size cs (whole-IsChunked c cs h))
      | inr more ↦
          let pos : 0 < length got = is_empty-lt got more in
          rw more (elim (Bool-cases (ltb (length got) c)) [
            | inl short ↦
                rw short (cs, got ∷ [], refl, h, (((ground (arith, short)), pos), tt), omega arith)
            | inr long ↦ rw long (snoc-All _ cs got h (ground (arith, long, l), pos))
          ])
    ]

opened-HasOrder :
    (c : ℕ) (path : FilePath) (size : ℕ) (eof : Bool) → HasOrder c (reading path size [] eof)
unfolding HasOrder
opened-HasOrder c path size true = whole-IsChunked c [] tt
opened-HasOrder c path size false = tt

step-HasOrder :
    (api : Api) (c : ℕ) (r : GetStreamingRequest) (p : Phase) (v : Sight)
    → HasOrder c p
    → HasOrder c (step api c r p v)
unfolding HasOrder step
step-HasOrder api c r looking v h =
    go-HasOrder c (find_origin v.server.manager r.context_id) after_origin
      (find_origin-Refuses v.server.manager r.context_id) (after_origin-HasOrder c)
step-HasOrder api c r (checking o tid) v h =
    go-HasOrder c (calls (get_session_impl o.session v.server.manager)) (λ _. comparing o tid)
      (calls-Refuses o.session v.server.manager) (λ _. tt)
step-HasOrder api c r (comparing o tid) v h =
    go-HasOrder c (through o.session v.server (same_transaction tid)) (λ _. locating o)
      (through-Refuses o.session v.server _ (same_transaction-Refuses tid)) (λ _. tt)
step-HasOrder api c r (locating o) v h = locate_step-HasOrder api c r o v.server
step-HasOrder api c r (finding o) v h =
    go-HasOrder c (through o.session v.server (λ impl. path_or_end (find r.blob.object_id impl)))
      (expecting o)
      (through-Refuses o.session v.server (λ impl. path_or_end (find r.blob.object_id impl))
        (λ impl. path_or_end-Refuses (find r.blob.object_id impl)))
      (λ _. tt)
step-HasOrder api c r (expecting o path) v h = expect_step-HasOrder api c r o path v.server
step-HasOrder api c r (tagging o path) v h =
    go-HasOrder c
      (through o.session v.server
        (λ impl. check_tag v.server.manager (get_tag api r.blob.object_id impl) r.blob.tag))
      (λ _. probing path)
      (through-Refuses o.session v.server
        (λ impl. check_tag v.server.manager (get_tag api r.blob.object_id impl) r.blob.tag)
        (λ impl. check_tag-Refuses v.server.manager _ _))
      (λ _. tt)
step-HasOrder api c r (probing path) v h =
    if-cases (exists v.server.file_system path) (HasOrder c) tt (inl ((λ e. ground arith), refl))
step-HasOrder api c r (sizing path) v h = size_step-HasOrder c path v.server
step-HasOrder api c r (opening path size) v h =
    opened-HasOrder c path size (not (exists v.server.file_system path))
step-HasOrder api c r (reading path size cs eof) v h = read_step-HasOrder c path size cs eof v h
step-HasOrder api c r (ended status rs) v h = h
step-HasOrder api c r crashed v h = tt

walk-HasOrder :
    (api : Api) (c : ℕ) (r : GetStreamingRequest) (vs : List Sight) (p : Phase)
    → HasOrder c p
    → HasOrder c (walk api c r p vs)
unfolding walk
walk-HasOrder api c r [] p h = h
walk-HasOrder api c r (v ∷ vs) p h =
    walk-HasOrder api c r vs (step api c r p v) (step-HasOrder api c r p v h)

-- Whatever other calls do between the steps of a download, one that has come to its end has
-- answered with an error and no message; or with OK, the metadata first, and then chunks that have
-- the chunk size but for the last, which may be shorter; and no chunk is empty.
pub walk-IsAnswer :
    (api : Api) (c : ℕ) (r : GetStreamingRequest) (vs : List Sight) (status : Status)
    (rs : List GetStreamingResponse)
    → walk api c r (accept r) vs ≡ ended status rs
    → IsAnswer c status rs
unfolding HasOrder accept
walk-IsAnswer api c r vs status rs e = subst (HasOrder c) e (
    walk-HasOrder api c r vs (accept r) (
      if-cases (not (check_api_version r.api_version)) (HasOrder c)
        (inl ((λ is. ground arith), refl)) tt))
