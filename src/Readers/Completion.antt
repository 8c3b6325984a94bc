-- ===== src/Readers/Completion.antt =====
-- That a download comes to its end, with all of the file, while what it asks for stays as it is.
use data_relay_grpc.Base.{
  ℕ, zero, suc, ◌+◌, ◌-◌, ◌≤◌, ◌<◌, ◌≡◌, refl, sym, ap, ◌∙◌, subst, inl, inr, Bool, true, false,
  List, [], ◌∷◌, ◌++◌, ltb, map, take, drop, length, flatten, arith, Bool-cases, append-nil,
  append_assoc, All, take-append-drop, length-drop, length-take,
}
use data_relay_grpc.FileSystem.{FilePath, exists, is_empty}
use data_relay_grpc.Manager.{Api}
use data_relay_grpc.Relay.{
  GetStreamingRequest, GetStreamingResponse, api_version, check_api_version,
}
use data_relay_grpc.Download.{Origin}
use data_relay_grpc.Readers.{
  Sight, Phase, looking, checking, comparing, locating, probing, sizing, opening, reading, accept,
  size_step, finished, stream_content, read_step, step, walk,
}
use data_relay_grpc.Readers.Stream.{
  drop-drop, drop_taken, drop_short, length-flatten_snoc, chunk_of, chunks_back,
}
use data_relay_grpc.Readers.Steady.{
  IsSteady, On, on_looking, on_checking, on_comparing, on_locating, on_finding, on_expecting,
  on_tagging, on_probing, on_sizing, on_opening, on_reading, on_ended, left, flatten-snoc, Steps,
  Steps-by, looking-Steps, session-IsSteady, locating-Steps, finding-Steps, expecting-Steps,
  tagging-Steps,
}
use data_relay_grpc.Readers.Protocol.{is_empty-lt, IsChunked, walk-IsAnswer}

is_empty-take : (c : ℕ) (xs : List ℕ) → 0 < c → is_empty (take c xs) ≡ true → xs ≡ []
is_empty-take zero xs pos e = absurd (omega arith)
is_empty-take (suc c) [] pos e = refl
is_empty-take (suc c) (x ∷ xs) pos e = cc

module _ (api : Api) (c : ℕ) (r : GetStreamingRequest) (o : Origin) (path : FilePath)
    (bytes : List ℕ) where
  next_rest :
      (sofar : List (List ℕ))
      → drop (length (flatten (sofar ++ take c (drop (length (flatten sofar)) bytes) ∷ []))) bytes
        ≡ drop c (drop (length (flatten sofar)) bytes)
  next_rest sofar =
      let rest = drop (length (flatten sofar)) bytes in
      ap (λ k. drop k bytes) (length-flatten_snoc sofar (take c rest))
      ∙ drop-drop (length (flatten sofar)) (length (take c rest)) bytes
      ∙ drop_taken c rest

  -- A further chunk is the next piece of the bytes.
  next_piece :
      (sofar : List (List ℕ))
      → flatten sofar ++ drop (length (flatten sofar)) bytes ≡ bytes
      → let got = take c (drop (length (flatten sofar)) bytes) in
        flatten (sofar ++ got ∷ []) ++ drop (length (flatten (sofar ++ got ∷ []))) bytes ≡ bytes
  next_piece sofar e =
      let rest = drop (length (flatten sofar)) bytes in
      let got = take c rest in
      ap (λ x. x ++ drop (length (flatten (sofar ++ got ∷ []))) bytes) (flatten-snoc sofar got)
      ∙ append_assoc (flatten sofar) got (drop (length (flatten (sofar ++ got ∷ []))) bytes)
      ∙ ap (λ x. flatten sofar ++ (got ++ x)) (next_rest sofar)
      ∙ ap (λ x. flatten sofar ++ x) (take-append-drop c rest)
      ∙ e

  next_whole :
      (sofar : List (List ℕ))
      → flatten sofar ++ drop (length (flatten sofar)) bytes ≡ bytes
      → length (take c (drop (length (flatten sofar)) bytes)) < c
      → flatten (sofar ++ take c (drop (length (flatten sofar)) bytes) ∷ []) ≡ bytes
  next_whole sofar e short =
      let rest = drop (length (flatten sofar)) bytes in
      let got = take c rest in
      sym (append-nil (flatten (sofar ++ got ∷ [])))
      ∙ ap (λ x. flatten (sofar ++ got ∷ []) ++ x) (sym (next_rest sofar ∙ drop_short c rest short))
      ∙ next_piece sofar e

  got_within :
      (sofar : List (List ℕ))
      → length (take c (drop (length (flatten sofar)) bytes))
        ≤ length bytes - length (flatten sofar)
  got_within sofar =
      let rest = drop (length (flatten sofar)) bytes in
      omega (arith, length-take c rest, length-drop (length (flatten sofar)) bytes)

  reading-Steps :
      (v : Sight) (sofar : List (List ℕ)) (eof : Bool)
      → 0 < c
      → IsSteady api r o path bytes v
      → flatten sofar ++ drop (length (flatten sofar)) bytes ≡ bytes
      → (eof ≡ true → flatten sofar ≡ bytes)
      → Steps api c r o path bytes (reading path (length bytes) sofar eof) v
  unfolding step left read_step exists
  reading-Steps v sofar true pos steady e whole =
      Steps-by api c r o path bytes _ (finished (length bytes) sofar) v refl
        (on_ended sofar (whole refl)) (omega arith)
  reading-Steps v sofar false pos (_, _, is) e whole =
      let rest = drop (length (flatten sofar)) bytes in
      let got = take c rest in
      let same : stream_content path v ≡ bytes = ground (arith, is) in
      let at : take c (drop (length (flatten sofar)) (stream_content path v)) ≡ got =
        ap (λ x. take c (drop (length (flatten sofar)) x)) same in
      elim (Bool-cases (is_empty got)) [
        | inl nothing ↦
            let over : rest ≡ [] = is_empty-take c rest pos nothing in
            let all : flatten sofar ≡ bytes =
              sym (append-nil (flatten sofar)) ∙ ap (λ x. flatten sofar ++ x) (sym over) ∙ e in
            Steps-by api c r o path bytes (reading path (length bytes) sofar false)
              (finished (length bytes) sofar) v (ground (arith, at, nothing)) (on_ended sofar all)
              (omega arith)
        | inr more ↦
            let g : 0 < length got = is_empty-lt got more in
            let within = got_within sofar in
            let longer = length-flatten_snoc sofar got in
            elim (Bool-cases (ltb (length got) c)) [
              | inl short ↦
                  Steps-by api c r o path bytes (reading path (length bytes) sofar false)
                    (reading path (length bytes) (sofar ++ got ∷ []) true) v
                    (ground (arith, at, more, short))
                    (on_reading (sofar ++ got ∷ []) true (next_piece sofar e)
                      (λ _. next_whole sofar e (ground (arith, short))))
                    (omega (arith, g, within))
              | inr long ↦
                  Steps-by api c r o path bytes (reading path (length bytes) sofar false)
                    (reading path (length bytes) (sofar ++ got ∷ []) false) v
                    (ground (arith, at, more, long))
                    (on_reading (sofar ++ got ∷ []) false (next_piece sofar e) (λ x. cc))
                    (omega (arith, g, within, longer))
            ]
      ]

  step-On :
      (p : Phase) (v : Sight)
      → 0 < c
      → IsSteady api r o path bytes v
      → On r o path bytes p
      → Steps api c r o path bytes p v
  unfolding step left size_step exists flatten
  step-On p v pos steady on_looking = looking-Steps api c r o path bytes v steady
  step-On p v pos steady (on_checking tid own real) =
      let (impl, there, _, _) = session-IsSteady api c r o path bytes v tid steady own real in
      Steps-by api c r o path bytes (checking o tid) (comparing o tid) v (ground (arith, there))
        (on_comparing tid own real) (omega arith)
  step-On p v pos steady (on_comparing tid own real) =
      let (impl, _, there, same) = session-IsSteady api c r o path bytes v tid steady own real in
      Steps-by api c r o path bytes (comparing o tid) (locating o) v (ground (arith, there, same))
        on_locating (omega arith)
  step-On p v pos steady on_locating = locating-Steps api c r o path bytes v steady
  step-On p v pos steady (on_finding mine real) =
      finding-Steps api c r o path bytes v steady mine real
  step-On p v pos steady on_expecting = expecting-Steps api c r o path bytes v steady
  step-On p v pos steady (on_tagging absent) = tagging-Steps api c r o path bytes v steady absent
  step-On p v pos (_, _, is) on_probing =
      Steps-by api c r o path bytes (probing path) (sizing path) v (ground (arith, is)) on_sizing
        (omega arith)
  step-On p v pos (_, _, is) on_sizing =
      Steps-by api c r o path bytes (sizing path) (opening path (length bytes)) v
        (ground (arith, is)) on_opening (omega arith)
  step-On p v pos (_, _, is) on_opening =
      Steps-by api c r o path bytes (opening path (length bytes))
        (reading path (length bytes) [] false) v (ground (arith, is))
        (on_reading [] false refl (λ x. cc)) (omega arith)
  step-On p v pos steady (on_reading sofar eof e whole) =
      reading-Steps v sofar eof pos steady e whole
  step-On p v pos steady (on_ended cs e) =
      Steps-by api c r o path bytes (finished (length bytes) cs) (finished (length bytes) cs) v refl
        (on_ended cs e) (omega arith)

  On-done :
      (p : Phase)
      → On r o path bytes p
      → left (length bytes) p ≤ 0
      → (cs : List (List ℕ)) × (flatten cs ≡ bytes) × (p ≡ finished (length bytes) cs)
  unfolding left
  On-done p (on_ended cs e) h = (cs, e, refl)
  On-done p (on_reading sofar true e whole) h = absurd (omega arith)
  On-done p (on_reading sofar false e whole) h = absurd (omega arith)
  On-done p on_looking h = absurd (omega arith)
  On-done p (on_checking tid own real) h = absurd (omega arith)
  On-done p (on_comparing tid own real) h = absurd (omega arith)
  On-done p on_locating h = absurd (omega arith)
  On-done p (on_finding mine real) h = absurd (omega arith)
  On-done p on_expecting h = absurd (omega arith)
  On-done p (on_tagging absent) h = absurd (omega arith)
  On-done p on_probing h = absurd (omega arith)
  On-done p on_sizing h = absurd (omega arith)
  On-done p on_opening h = absurd (omega arith)

  walk-On :
      (vs : List Sight) (p : Phase)
      → 0 < c
      → All (IsSteady api r o path bytes) vs
      → On r o path bytes p
      → left (length bytes) p ≤ length vs
      → (cs : List (List ℕ)) × (flatten cs ≡ bytes)
        × (walk api c r p vs ≡ finished (length bytes) cs)
  unfolding walk Steps
  walk-On [] p pos steady on enough = On-done p on (omega arith)
  walk-On (v ∷ vs) p pos steady on enough =
      let (on', less) = step-On p v pos steady.0 on in
      walk-On vs (step api c r p v) pos steady.1 on' (omega arith)

finished-IsChunked :
    (api : Api) (c : ℕ) (r : GetStreamingRequest) (vs : List Sight) (size : ℕ) (cs : List (List ℕ))
    → walk api c r (accept r) vs ≡ finished size cs
    → IsChunked c cs
finished-IsChunked api c r vs size cs e = elim (walk-IsAnswer api c r vs _ _ e) [
  | inl (bad, _) ↦ absurd (bad refl)
  | inr (_, (size', cs', chunked, is)) ↦
      let rest : map GetStreamingResponse.chunk cs ≡ map GetStreamingResponse.chunk cs' = cc in
      let same = sym (chunks_back cs) ∙ ap (λ x. map chunk_of x) rest ∙ chunks_back cs' in
      subst (IsChunked c) (sym same) chunked
]

-- A download with an accepted API version and a chunk size that is not 0, whose every step finds a
-- server on which the request leads to the same session, passes the checks for the same file, and
-- the file has the same bytes, has come to its end after eleven steps and one for each byte,
-- whatever else other calls do: with OK, the size of the file, and its bytes, in order, in chunks
-- that all have the chunk size but for the last.
pub walk_delivers :
    (api : Api) (c : ℕ) (r : GetStreamingRequest) (o : Origin) (path : FilePath) (bytes : List ℕ)
    (vs : List Sight)
    → 0 < c
    → r.api_version ≤ api_version
    → All (IsSteady api r o path bytes) vs
    → 11 + length bytes ≤ length vs
    → (cs : List (List ℕ)) × (flatten cs ≡ bytes)
      × IsChunked c cs
      × (walk api c r (accept r) vs ≡ finished (length bytes) cs)
unfolding accept check_api_version left
walk_delivers api c r o path bytes vs pos version steady enough =
    let is : accept r ≡ looking = ground arith in
    let (cs, all, e) = walk-On api c r o path bytes vs looking pos steady on_looking enough in
    let e' = ap (λ p. walk api c r p vs) is ∙ e in
    (cs, all, finished-IsChunked api c r vs (length bytes) cs e', e')
