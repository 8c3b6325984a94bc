-- ===== src/Readers/Stream.antt =====
-- The loop of a download over a stream, where every step finds the same server, against the loop
-- over the bytes of the file.
use data_relay_grpc.Base.{
  ℕ, zero, suc, ◌+◌, ◌<◌, ◌≡◌, ◌⊎◌, refl, sym, ap, ◌∙◌, subst, inl, inr, Bool, true, false, List,
  [], ◌∷◌, ◌++◌, some, ltb, map, take, drop, length, flatten, arith, Option-cases, Bool-cases,
  length-append, append_assoc, append-nil,
}
use data_relay_grpc.FileSystem.{FilePath, is_empty}
use data_relay_grpc.Manager.{Api}
use data_relay_grpc.Relay.{GetStreamingRequest, GetStreamingResponse}
use data_relay_grpc.Download.{read_chunks}
use data_relay_grpc.Readers.{Sight, reading, finished, stream_content, read_step, step, walk}

abbrev pub repeat : ℕ → Sight → List Sight
repeat zero v = []
repeat (suc n) v = v ∷ repeat n v

unfoldable pub chunk_of : GetStreamingResponse → List ℕ
chunk_of (GetStreamingResponse.metadata n) = []
chunk_of (GetStreamingResponse.chunk x) = x

pub chunks_back : (xs : List (List ℕ)) → map chunk_of (map GetStreamingResponse.chunk xs) ≡ xs
unfolding chunk_of
chunks_back [] = refl
chunks_back (x ∷ xs) = ap (λ ys. x ∷ ys) (chunks_back xs)

drop-nil : (k : ℕ) → drop {A = ℕ} k [] ≡ []
drop-nil zero = refl
drop-nil (suc k) = refl

pub drop-drop : (m n : ℕ) (xs : List ℕ) → drop (m + n) xs ≡ drop n (drop m xs)
drop-drop zero n xs = let e : 0 + n ≡ n = omega arith in ap (λ k. drop k xs) e
drop-drop (suc m) n [] = drop-nil (suc m + n) ∙ sym (drop-nil n)
drop-drop (suc m) n (x ∷ xs) =
    let e : suc m + n ≡ suc (m + n) = omega arith in ap (λ k. drop k (x ∷ xs)) e ∙ drop-drop m n xs

pub drop_taken : (c : ℕ) (xs : List ℕ) → drop (length (take c xs)) xs ≡ drop c xs
drop_taken zero xs = refl
drop_taken (suc c) [] = refl
drop_taken (suc c) (x ∷ xs) = drop_taken c xs

pub drop_short : (c : ℕ) (xs : List ℕ) → length (take c xs) < c → drop c xs ≡ []
drop_short zero xs lt = absurd (omega arith)
drop_short (suc c) [] lt = refl
drop_short (suc c) (x ∷ xs) lt = drop_short c xs (omega arith)

pub length-flatten_snoc :
    (cs : List (List ℕ)) (x : List ℕ)
    → length (flatten (cs ++ x ∷ [])) ≡ length (flatten cs) + length x
unfolding flatten
length-flatten_snoc [] x = omega (arith, ap length (append-nil x))
length-flatten_snoc (c ∷ cs) x = omega (
  arith,
  length-append c (flatten (cs ++ x ∷ [])),
  length-append c (flatten cs),
  length-flatten_snoc cs x,
)

read_chunks_cases :
    (fuel c : ℕ) (rest : List ℕ) (cs : List (List ℕ))
    → read_chunks (suc fuel) c rest ≡ some cs
    → ((is_empty (take c rest) ≡ true) × (cs ≡ []))
      ⊎ ((is_empty (take c rest) ≡ false)
          × ((cs' : List (List ℕ)) × (read_chunks fuel c (drop c rest) ≡ some cs')
              × (cs ≡ take c rest ∷ cs')))
unfolding read_chunks
read_chunks_cases fuel c rest cs e = elim (Bool-cases (is_empty (take c rest))) [
  | inl nothing ↦ inl (nothing, ground arith)
  | inr more ↦ elim (Option-cases (read_chunks fuel c (drop c rest))) [
    | inl out ↦ absurd (ground arith)
    | inr (cs', there) ↦ inr (more, (cs', there, ground arith))
  ]
]

read_chunks_nil : (fuel c : ℕ) (cs : List (List ℕ)) → read_chunks fuel c [] ≡ some cs → cs ≡ []
unfolding read_chunks
read_chunks_nil zero c cs e = cc
read_chunks_nil (suc fuel) zero cs e = cc
read_chunks_nil (suc fuel) (suc c) cs e = cc

module _ (api : Api) (c : ℕ) (r : GetStreamingRequest) (v : Sight) (path : FilePath)
    (size : ℕ) where
  -- The loop comes to its end with these chunks.
  unfoldable pub Streams : List (List ℕ) → Bool → List (List ℕ) → Type 0
  Streams sofar eof cs =
      (n : ℕ) × (walk api c r (reading path size sofar eof) (repeat n v) ≡ finished size cs)

  Streams-ends :
      (sofar : List (List ℕ)) (eof : Bool)
      → step api c r (reading path size sofar eof) v ≡ finished size sofar
      → Streams sofar eof (sofar ++ [])
  unfolding walk Streams
  Streams-ends sofar eof e = (1, e ∙ ap (finished size) (sym (append-nil sofar)))

  -- what is left of the file
  unfoldable pub left_of : List (List ℕ) → List ℕ
  left_of sofar = drop (length (flatten sofar)) (stream_content path v)

  stream_done :
      (sofar : List (List ℕ))
      → is_empty (take c (left_of sofar)) ≡ true
      → step api c r (reading path size sofar false) v ≡ finished size sofar
  unfolding step read_step left_of
  stream_done sofar e = ground arith

  stream_failed :
      (sofar : List (List ℕ)) → step api c r (reading path size sofar true) v ≡ finished size sofar
  unfolding step read_step
  stream_failed sofar = refl

  left_of_next :
      (sofar : List (List ℕ))
      → left_of (sofar ++ take c (left_of sofar) ∷ []) ≡ drop c (left_of sofar)
  unfolding left_of
  left_of_next sofar =
      let bytes = stream_content path v in
      let rest = drop (length (flatten sofar)) bytes in
      ap (λ k. drop k bytes) (length-flatten_snoc sofar (take c rest))
      ∙ drop-drop (length (flatten sofar)) (length (take c rest)) bytes
      ∙ drop_taken c rest

  left_of_short :
      (sofar : List (List ℕ))
      → ltb (length (take c (left_of sofar))) c ≡ true
      → left_of (sofar ++ take c (left_of sofar) ∷ []) ≡ []
  left_of_short sofar e = left_of_next sofar ∙ drop_short c (left_of sofar) (ground (arith, e))

  stream_more :
      (sofar : List (List ℕ))
      → is_empty (take c (left_of sofar)) ≡ false
      → step api c r (reading path size sofar false) v
        ≡ reading path size
            (sofar ++ take c (left_of sofar) ∷ [])
            (ltb (length (take c (left_of sofar))) c)
  unfolding step read_step left_of
  stream_more sofar e = ground arith

  Streams-step :
      (sofar next : List (List ℕ)) (eof eof' : Bool) (cs cs' : List (List ℕ))
      → step api c r (reading path size sofar eof) v ≡ reading path size next eof'
      → cs ≡ cs'
      → Streams next eof' cs
      → Streams sofar eof cs'
  unfolding walk Streams
  Streams-step sofar next eof eof' cs cs' e is (n, at) =
      (suc n, ap (λ x. walk api c r x (repeat n v)) e ∙ at ∙ ap (finished size) is)

  pub streams :
      (fuel : ℕ) (sofar : List (List ℕ)) (eof : Bool) (cs : List (List ℕ))
      → (eof ≡ true → left_of sofar ≡ [])
      → read_chunks fuel c (left_of sofar) ≡ some cs
      → Streams sofar eof (sofar ++ cs)
  unfolding read_chunks
  streams zero sofar eof cs stops e = absurd (ground (arith, e))
  streams (suc fuel) sofar true cs stops e =
      let nothing =
        read_chunks_nil (suc fuel) c cs
          (subst (λ x. read_chunks (suc fuel) c x ≡ some cs) (stops refl) e) in
      subst (λ x. Streams sofar true (sofar ++ x)) (sym nothing)
        (Streams-ends sofar true (stream_failed sofar))
  streams (suc fuel) sofar false cs stops e = elim (read_chunks_cases fuel c (left_of sofar) cs e) [
    | inl (nothing, is) ↦
        subst (λ x. Streams sofar false (sofar ++ x)) (sym is)
          (Streams-ends sofar false (stream_done sofar nothing))
    | inr (more, (cs', there, is)) ↦
        let next = sofar ++ take c (left_of sofar) ∷ [] in
        Streams-step sofar next false _ (next ++ cs') (sofar ++ cs) (stream_more sofar more)
          (append_assoc sofar (take c (left_of sofar) ∷ []) cs' ∙ ap (λ x. sofar ++ x) (sym is))
          (streams fuel next _ cs' (left_of_short sofar)
            (ap (read_chunks fuel c) (left_of_next sofar) ∙ there))
  ]
