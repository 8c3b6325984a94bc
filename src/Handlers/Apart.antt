-- ===== src/Handlers/Apart.antt =====
-- Which BLOB and which file a handler works on, in every interleaving of handlers and calls.
use data_relay_grpc.Base.{
  ℕ, ◌+◌, ◌≤◌, ◌<◌, ◌≡◌, refl, sym, ◌∙◌, ◌⊎◌, inl, inr, Bool, true, false, List, [], ◌∷◌, arith,
  Option-cases, Bool-cases, if◌then◌else◌,
}
use data_relay_grpc.OrderedMap.{find}
use data_relay_grpc.Text.{text}
use data_relay_grpc.FileSystem.{FilePath}
use data_relay_grpc.SessionStore
use data_relay_grpc.SessionStore.{SessionStore, word}
use data_relay_grpc.SessionStore.Usage.{create_blob_file-injective}
use data_relay_grpc.Session.{create_blob_file}
use data_relay_grpc.Upload.{size_matches}
use data_relay_grpc.Upload.Storage.{next_id, created_call}
use data_relay_grpc.Manager.{Server, with_session}
use data_relay_grpc.Outcome.{Exception, is_out_of_range, Outcome, returns, throws, undefined}
use data_relay_grpc.Relay.{PutMetadata, PutStreamingRequest, chunk}
use data_relay_grpc.Handlers.{
  Phase, starting, creating, opening, reading, writing, exhausting, discarding, tagging, ended,
  thrown, crashed, raised, next_phase, opened_phase, reserved_phase,
}

abbrev pub upload_file : SessionStore → ℕ → FilePath
upload_file st bid = SessionStore.create_blob_file st bid (text "upload")

-- The handler works on the BLOB, or removes its file.
abbrev pub Owns : SessionStore → ℕ → Phase → Type 0
Owns st b (opening m rs bid path) = bid ≡ b
Owns st b (reading m rs bid path total) = bid ≡ b
Owns st b (writing m rs bid path total bytes) = bid ≡ b
Owns st b (exhausting m bid) = bid ≡ b
Owns st b (tagging m bid) = bid ≡ b
Owns st b (discarding path) = path ≡ upload_file st b
Owns st b _ = ⊥

-- The handler's BLOB has got its id from the counter, and its file is named by the id.
abbrev pub IsNamed : SessionStore → ℕ → Phase → Type 0
IsNamed st n (opening m rs bid path) = (bid ≤ n) × (path ≡ upload_file st bid)
IsNamed st n (reading m rs bid path total) = (bid ≤ n) × (path ≡ upload_file st bid)
IsNamed st n (writing m rs bid path total bytes) = (bid ≤ n) × (path ≡ upload_file st bid)
IsNamed st n (exhausting m bid) = bid ≤ n
IsNamed st n (tagging m bid) = bid ≤ n
IsNamed st n (discarding path) = (b : ℕ) × (b ≤ n) × (path ≡ upload_file st b)
IsNamed st n _ = Unit

upload_file_same :
    (st st' : SessionStore) (b : ℕ)
    → st'.directory ≡ st.directory
    → upload_file st' b ≡ upload_file st b
unfolding SessionStore.create_blob_file
upload_file_same st st' b e = rw e refl

pub IsNamed-moves :
    (st st' : SessionStore) (n n' : ℕ) (p : Phase)
    → st'.directory ≡ st.directory
    → n ≤ n'
    → IsNamed st n p
    → IsNamed st' n' p
IsNamed-moves st st' n n' (starting m rs) e le k = tt
IsNamed-moves st st' n n' (creating m rs) e le k = tt
IsNamed-moves st st' n n' (opening m rs bid path) e le k =
    (omega (arith, k.0), k.1 ∙ sym (upload_file_same st st' bid e))
IsNamed-moves st st' n n' (reading m rs bid path total) e le k =
    (omega (arith, k.0), k.1 ∙ sym (upload_file_same st st' bid e))
IsNamed-moves st st' n n' (writing m rs bid path total bytes) e le k =
    (omega (arith, k.0), k.1 ∙ sym (upload_file_same st st' bid e))
IsNamed-moves st st' n n' (exhausting m bid) e le k = omega arith
IsNamed-moves st st' n n' (tagging m bid) e le k = omega arith
IsNamed-moves st st' n n' (discarding path) e le (b, under, at) =
    (b, omega arith, at ∙ sym (upload_file_same st st' b e))
IsNamed-moves st st' n n' (ended r) e le k = tt
IsNamed-moves st st' n n' (thrown x) e le k = tt
IsNamed-moves st st' n n' crashed e le k = tt

pub Owns-moves :
    (st st' : SessionStore) (b : ℕ) (p : Phase)
    → st'.directory ≡ st.directory
    → Owns st' b p
    → Owns st b p
Owns-moves st st' b (starting m rs) e w = w
Owns-moves st st' b (creating m rs) e w = w
Owns-moves st st' b (opening m rs bid path) e w = w
Owns-moves st st' b (reading m rs bid path total) e w = w
Owns-moves st st' b (writing m rs bid path total bytes) e w = w
Owns-moves st st' b (exhausting m bid) e w = w
Owns-moves st st' b (tagging m bid) e w = w
Owns-moves st st' b (discarding path) e w = w ∙ upload_file_same st st' b e
Owns-moves st st' b (ended r) e w = w
Owns-moves st st' b (thrown x) e w = w
Owns-moves st st' b crashed e w = w

-- what a handler keeps as it goes from one phase to the next
abbrev pub Passes : SessionStore → ℕ → ℕ → Phase → Phase → Type 0
Passes st n n' p q = IsNamed st n' q × ((b : ℕ) → Owns st b q → Owns st b p ⊎ ((n < b) × (b ≤ n')))

pub IsNamed-Owns : (st : SessionStore) (n b : ℕ) (p : Phase) → IsNamed st n p → Owns st b p → b ≤ n
IsNamed-Owns st n b (starting m rs) k w = absurd w
IsNamed-Owns st n b (creating m rs) k w = absurd w
IsNamed-Owns st n b (opening m rs bid path) (le, at) w = omega (arith, w)
IsNamed-Owns st n b (reading m rs bid path total) (le, at) w = omega (arith, w)
IsNamed-Owns st n b (writing m rs bid path total bytes) (le, at) w = omega (arith, w)
IsNamed-Owns st n b (exhausting m bid) le w = omega (arith, w)
IsNamed-Owns st n b (tagging m bid) le w = omega (arith, w)
IsNamed-Owns st n b (discarding path) (c, le, at) w =
    let same = create_blob_file-injective st (text "upload") c b (sym at ∙ w) in omega arith
IsNamed-Owns st n b (ended r) k w = absurd w
IsNamed-Owns st n b (thrown x) k w = absurd w
IsNamed-Owns st n b crashed k w = absurd w

raised-Passes :
    (st : SessionStore) (n n' : ℕ) (p : Phase) (x : Exception) → Passes st n n' p (raised x)
raised-Passes st n n' p x = elim (Bool-cases (is_out_of_range x)) [
  | inl range ↦ rw range (tt, (λ b w. absurd w))
  | inr other ↦ rw other (tt, (λ b w. absurd w))
]

pub next_phase-Passes :
    {A : Type 0} (st : SessionStore) (n n' : ℕ) (p : Phase) (k : A → Phase) (r : Outcome A × Server)
    → ((a : A) → Passes st n n' p (k a))
    → Passes st n n' p (next_phase k r).0
next_phase-Passes st n n' p k (returns a, s) h = h a
next_phase-Passes st n n' p k (throws x, s) h = raised-Passes st n n' p x
next_phase-Passes st n n' p k (undefined, s) h = (tt, (λ b w. absurd w))

pub creating-Passes :
    (m : PutMetadata) (rs : List PutStreamingRequest) (s : Server)
    → s.blob_id + 1 < word
    → Passes s.store s.blob_id
        (with_session m.session_id (create_blob_file (text "upload")) s).1.blob_id
        (creating m rs)
        (next_phase
          (opened_phase m rs)
          (with_session m.session_id (create_blob_file (text "upload")) s)).0
unfolding with_session
creating-Passes m rs s fits = elim (Option-cases (find m.session_id s.blob_sessions)) [
  | inl gone ↦ rw (gone, with_session) (tt, (λ b w. absurd w))
  | inr (impl, there) ↦
      let e : next_id s ≡ s.blob_id + 1 = omega arith in
      rw (created_call m.session_id impl s there)
        ((omega arith, refl), (λ b w. inr (omega (arith, w, e), omega (arith, w, e))))
]

pub reserved-Passes :
    (st : SessionStore) (n : ℕ) (m : PutMetadata) (rs : List PutStreamingRequest) (bid : ℕ)
    (path : FilePath) (total : ℕ) (bytes : List ℕ) (granted : Bool)
    → IsNamed st n (reading m (chunk bytes ∷ rs) bid path total)
    → Passes st n n
        (reading m (chunk bytes ∷ rs) bid path total)
        (reserved_phase m rs bid path total bytes granted)
reserved-Passes st n m rs bid path total bytes true k = (k, (λ b w. inl w))
reserved-Passes st n m rs bid path total bytes false (le, at) = (le, (λ b w. inl w))

pub end-Passes :
    (st : SessionStore) (n : ℕ) (m : PutMetadata) (bid : ℕ) (path : FilePath) (total : ℕ)
    → IsNamed st n (reading m [] bid path total)
    → Passes st n n
        (reading m [] bid path total)
        (if size_matches m.blob_size total then tagging m bid else discarding path)
end-Passes st n m bid path total (le, at) = elim (Bool-cases (size_matches m.blob_size total)) [
  | inl fits ↦ rw fits (le, (λ b w. inl w))
  | inr differs ↦ rw differs (
    (bid, le, at),
    (λ b w. inl (create_blob_file-injective st (text "upload") bid b (sym at ∙ w))),
  )
]
