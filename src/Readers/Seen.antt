-- ===== src/Readers/Seen.antt =====
-- What a handler of a download sees before a client is sent anything, one thing after the other.
use data_relay_grpc.Base.{
  ℕ, ◌≡◌, ◌⊎◌, refl, sym, ap, ◌∙◌, subst, inl, inr, Bool, true, false, List, [], ◌∷◌, ◌++◌, some,
  ltb, map, take, drop, length, flatten, arith, Option-cases, Bool-cases, append-nil, append_assoc,
}
use data_relay_grpc.FileSystem.{FilePath, node, size_of, is_empty}
use data_relay_grpc.Manager.{Api}
use data_relay_grpc.Relay.{GetStreamingRequest, GetStreamingResponse}
use data_relay_grpc.Download.{
  Flow, goes, ends, raises, lost, Origin, find_origin, check_transaction, locate, expected_tag,
  check_tag,
}
use data_relay_grpc.Readers.Stream.{chunk_of, chunks_back}
use data_relay_grpc.Readers.{
  Sight, Phase, looking, checking, comparing, locating, finding, expecting, tagging, probing,
  sizing, opening, reading, ended, crashed, go, after_origin, finished, stream_content, read_step,
}

-- The predicate holds of one of the sights, with those after it.
abbrev pub Sometime : (Sight → List Sight → Type 0) → List Sight → Type 0
Sometime P [] = ⊥
Sometime P (v ∷ vs) = P v vs ⊎ Sometime P vs

module _ (api : Api) (c : ℕ) (r : GetStreamingRequest) (size : ℕ) (cs : List (List ℕ)) where
  -- Each chunk is the next piece of the file, as the file is at a sight after those of the chunks
  -- before it.
  abbrev pub Pieces : FilePath → (sofar rest : List (List ℕ)) → List Sight → Type 0
  Pieces path sofar [] vs = Unit {0}
  Pieces path sofar (x ∷ xs) vs =
      Sometime
        (λ v after.
          (x ≡ take c (drop (length (flatten sofar)) (stream_content path v)))
          × Pieces path (sofar ++ x ∷ []) xs after)
        vs

  -- The size is that of the file at one sight, and the chunks are read from it at later ones.
  abbrev pub Sent : FilePath → List Sight → Type 0
  Sent path =
      Sometime (λ v after.
        (size_of (node v.server.file_system path) ≡ some size) × Pieces path [] cs after)

  -- The tag is the one expected at one sight, or accepted in its place, and the file is sent later.
  abbrev pub Tagged : Origin → FilePath → List Sight → Type 0
  Tagged o path = Sometime (λ v after.
      ((tag : ℕ) × (expected_tag api v.server.manager o r.blob.object_id ≡ goes tag)
        × (check_tag v.server.manager tag r.blob.tag ≡ goes tt))
      × Sent path after)

  -- The BLOB is found at one sight, and its tag checked later.
  abbrev pub Located : Origin → List Sight → Type 0
  Located o = Sometime (λ v after.
      (path : FilePath) × (locate api v.server o r.blob ≡ goes path) × Tagged o path after)

  -- The transaction is that of the session at one sight, and the BLOB is found then or later.
  abbrev pub Passed : Origin → List Sight → Type 0
  Passed o =
      Sometime (λ v after. (check_transaction v.server.manager o ≡ goes tt) × Located o (v ∷ after))

  -- The session is found at one sight, and its transaction checked later.
  abbrev pub Cleared : List Sight → Type 0
  Cleared = Sometime (λ v after.
      (o : Origin) × (find_origin v.server.manager r.context_id ≡ goes o) × Passed o after)

  -- what is to come in each phase, when the size and the chunks are sent in the end
  unfoldable pub Needs : Phase → List Sight → Type 0
  Needs looking vs = Cleared vs
  Needs (checking o tid) vs = Passed o vs
  Needs (comparing o tid) vs = Passed o vs
  Needs (locating o) vs = Located o vs
  Needs (finding o) vs = Located o vs
  Needs (expecting o path) vs = Tagged o path vs
  Needs (tagging o path) vs = Tagged o path vs
  Needs (probing path) vs = Sent path vs
  Needs (sizing path) vs = Sent path vs
  Needs (opening path n) vs = (n ≡ size) × Pieces path [] cs vs
  Needs (reading path n sofar eof) vs =
      (n ≡ size) × ((rest : List (List ℕ)) × (cs ≡ sofar ++ rest) × Pieces path sofar rest vs)
  Needs (ended status rs) vs =
      rs ≡ GetStreamingResponse.metadata size ∷ map GetStreamingResponse.chunk cs
  Needs crashed vs = ⊥

  pub go-Needs :
      {A : Type 0} (m : Flow A) (k : A → Phase) (vs : List Sight)
      → Needs (go m k) vs
      → (a : A) × (m ≡ goes a) × Needs (k a) vs
  unfolding Needs
  go-Needs (goes a) k vs h = (a, refl, h)
  go-Needs (ends status) k vs h = cc
  go-Needs (raises x) k vs h = cc
  go-Needs lost k vs h = elim h [ ]

  finished-Needs :
      (n : ℕ) (sofar : List (List ℕ)) (vs : List Sight)
      → Needs (finished n sofar) vs
      → (n ≡ size) × (sofar ≡ cs)
  unfolding Needs
  finished-Needs n sofar vs h =
      let rest : map GetStreamingResponse.chunk sofar ≡ map GetStreamingResponse.chunk cs = cc in
      (cc, sym (chunks_back sofar) ∙ ap (λ x. map chunk_of x) rest ∙ chunks_back cs)

  -- Where every check of the transaction passes, the BLOB is found.
  Located-Passed :
      (o : Origin) (vs : List Sight)
      → ((v : Sight) → check_transaction v.server.manager o ≡ goes tt)
      → Located o vs
      → Passed o vs
  Located-Passed o [] f h = h
  Located-Passed o (v ∷ after) f h = inl (f v, h)

  pub after_origin-Needs : (o : Origin) (vs : List Sight) → Needs (after_origin o) vs → Passed o vs
  unfolding Needs check_transaction
  after_origin-Needs o vs h = elim (Option-cases o.transaction) [
    | inl absent ↦
        Located-Passed o vs (λ v. ground (arith, absent))
          (let is : after_origin o ≡ locating o = ground (arith, absent) in
            subst (λ p. Needs p vs) is h)
    | inr (tid, e) ↦ elim (Bool-cases o.raw) [
      | inl raw ↦
          Located-Passed o vs (λ v. ground (arith, e, raw))
            (let is : after_origin o ≡ locating o = ground (arith, e, raw) in
              subst (λ p. Needs p vs) is h)
      | inr real ↦
          let is : after_origin o ≡ checking o tid = ground (arith, e, real) in
          subst (λ p. Needs p vs) is h
    ]
  ]

  pub read-Needs :
      (path : FilePath) (n : ℕ) (sofar : List (List ℕ)) (eof : Bool) (v : Sight) (vs : List Sight)
      → Needs (read_step c path n sofar eof v) vs
      → Needs (reading path n sofar eof) (v ∷ vs)
  unfolding Needs read_step
  read-Needs path n sofar true v vs h =
      let (same, is) = finished-Needs n sofar vs h in
      (same, ([], sym is ∙ sym (append-nil sofar), tt))
  read-Needs path n sofar false v vs h =
      let got = take c (drop (length (flatten sofar)) (stream_content path v)) in
      elim (Bool-cases (is_empty got)) [
        | inl nothing ↦
            let e : read_step c path n sofar false v ≡ finished n sofar = ground (arith, nothing) in
            let (same, is) = finished-Needs n sofar vs (subst (λ p. Needs p vs) e h) in
            (same, ([], sym is ∙ sym (append-nil sofar), tt))
        | inr more ↦
            let next = reading path n (sofar ++ got ∷ []) (ltb (length got) c) in
            let e : read_step c path n sofar false v ≡ next = ground (arith, more) in
            let (same, (rest, is, later)) = subst (λ p. Needs p vs) e h in
            (same, (got ∷ rest, is ∙ append_assoc sofar (got ∷ []) rest, inl (refl, later)))
      ]

  pub Pieces-later :
      (path : FilePath) (sofar rest : List (List ℕ)) (v : Sight) (vs : List Sight)
      → Pieces path sofar rest vs
      → Pieces path sofar rest (v ∷ vs)
  Pieces-later path sofar [] v vs h = tt
  Pieces-later path sofar (x ∷ xs) v vs h = inr h
