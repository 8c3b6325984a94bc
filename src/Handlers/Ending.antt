-- ===== src/Handlers/Ending.antt =====
-- A handler comes to its end, whatever the other handlers and the calls of the library do between
-- its steps.
use data_relay_grpc.Base.{
  ℕ, ◌+◌, ◌-◌, ◌*◌, ◌≤◌, ◌≡◌, refl, Bool, true, false, List, [], ◌∷◌, inl, inr, arith, length,
  Bool-cases, Option-cases, if◌then◌else◌,
}
use data_relay_grpc.OrderedMap.{find}
use data_relay_grpc.FileSystem.{FilePath, open_output, remove}
use data_relay_grpc.TagGenerator.{OpenSsl}
use data_relay_grpc.Text.{text}
use data_relay_grpc.Session.{SessionImpl, create_blob_file, reserve_session_store, delete_blob_file}
use data_relay_grpc.Manager.{Server, compute_tag, get_session_impl, with_session}
use data_relay_grpc.Outcome.{Exception, is_out_of_range, Outcome, returns, throws, undefined}
use data_relay_grpc.Relay.{
  PutMetadata, PutStreamingRequest, metadata, chunk, not_set, check_api_version,
}
use data_relay_grpc.Upload.{refused, exhausted, size_matches}
use data_relay_grpc.Handlers.{
  Phase, starting, creating, opening, reading, writing, exhausting, discarding, tagging, ended,
  thrown, crashed, raised, next_phase, opened_phase, reserved_phase, accept, answered, tag_step,
  open_step, discard_step, step,
}

abbrev pub finished : Phase → Bool
finished (ended r) = true
finished (thrown x) = true
finished crashed = true
finished _ = false

-- the phases of a handler whose steps find the given servers
unfoldable pub walk : OpenSsl → Phase → List Server → Phase
walk o p [] = p
walk o p (s ∷ ss) = walk o (step o p s).0 ss

-- the most steps that a handler still takes
abbrev left : Phase → ℕ
left (starting m rs) = 2 * length rs + 5
left (creating m rs) = 2 * length rs + 4
left (opening m rs bid path) = 2 * length rs + 3
left (reading m rs bid path total) = 2 * length rs + 2
left (writing m rs bid path total bytes) = 2 * length rs + 3
left (exhausting m bid) = 1
left (discarding path) = 1
left (tagging m bid) = 1
left (ended r) = 0
left (thrown x) = 0
left crashed = 0

left-raised : (x : Exception) → left (raised x) ≡ 0
left-raised x = elim (Bool-cases (is_out_of_range x)) [
  | inl range ↦ rw range refl
  | inr other ↦ rw other refl
]

left-next_phase :
    {A : Type 0} (n : ℕ) (k : A → Phase) (r : Outcome A × Server)
    → ((a : A) → left (k a) ≤ n)
    → left (next_phase k r).0 ≤ n
left-next_phase n k (returns a, s) h = h a
left-next_phase n k (throws x, s) h = omega (arith, left-raised x)
left-next_phase n k (undefined, s) h = omega arith

left-open_step :
    (m : PutMetadata) (rs : List PutStreamingRequest) (bid : ℕ) (path : FilePath) (s : Server)
    → left (open_step m rs bid path s).0 ≤ 2 * length rs + 2
unfolding open_step
left-open_step m rs bid path s = elim (Option-cases (open_output s.file_system path)) [
  | inl shut ↦ rw (shut, open_step) (omega arith)
  | inr (fs, opens) ↦ rw (opens, open_step) (omega arith)
]

left-discard_step : (path : FilePath) (s : Server) → left (discard_step path s).0 ≤ 0
unfolding discard_step
left-discard_step path s = elim (Option-cases (remove s.file_system path)) [
  | inl stuck ↦ rw (stuck, discard_step) (omega arith)
  | inr (fs, done) ↦ rw (done, discard_step) (omega arith)
]

left-tag_step :
    (o : OpenSsl) (m : PutMetadata) (bid : ℕ) (s : Server) → left (tag_step o m bid s).0 ≤ 0
unfolding tag_step
left-tag_step o m bid s = elim (Option-cases (find m.session_id s.blob_sessions)) [
  | inl gone ↦ rw (gone, tag_step) (omega arith)
  | inr (impl, there) ↦
      rw (there, tag_step)
        (left-next_phase 0 (answered bid) (compute_tag o bid impl s.manager, s)
          (λ tag. omega arith))
]

left-reserved_phase :
    (m : PutMetadata) (rs : List PutStreamingRequest) (bid : ℕ) (path : FilePath) (total : ℕ)
    (bytes : List ℕ) (granted : Bool)
    → left (reserved_phase m rs bid path total bytes granted) ≤ 2 * length rs + 3
left-reserved_phase m rs bid path total bytes true = omega arith
left-reserved_phase m rs bid path total bytes false = omega arith

left_at_end :
    (m : PutMetadata) (bid : ℕ) (path : FilePath) (fits : Bool)
    → left (if fits then tagging m bid else discarding path) ≤ 1
left_at_end m bid path true = omega arith
left_at_end m bid path false = omega arith

left-step : (o : OpenSsl) (p : Phase) (s : Server) → left (step o p s).0 ≤ left p - 1
unfolding step
left-step o (starting m rs) s =
    let le =
      left-next_phase (2 * length rs + 4) (λ (_ : SessionImpl). creating m rs)
        (get_session_impl m.session_id s.manager, s) (λ a. omega arith) in
    omega (arith, le)
left-step o (creating m rs) s =
    let le =
      left-next_phase (2 * length rs + 3) (opened_phase m rs)
        (with_session m.session_id (create_blob_file (text "upload")) s)
        (λ (bid, path). omega arith) in
    omega (arith, le)
left-step o (opening m rs bid path) s = omega (arith, left-open_step m rs bid path s)
left-step o (reading m [] bid path total) s =
    omega (arith, left_at_end m bid path (size_matches m.blob_size total))
left-step o (reading m (chunk bytes ∷ rs) bid path total) s =
    let le =
      left-next_phase (2 * length rs + 3) (reserved_phase m rs bid path total bytes)
        (with_session m.session_id (reserve_session_store bid (length bytes)) s)
        (left-reserved_phase m rs bid path total bytes) in
    omega (arith, le)
left-step o (reading m (metadata _ ∷ rs) bid path total) s = omega arith
left-step o (reading m (not_set ∷ rs) bid path total) s = omega arith
left-step o (writing m rs bid path total bytes) s = omega arith
left-step o (exhausting m bid) s =
    let le =
      left-next_phase 0 (λ (_ : Unit {0}). ended (refused exhausted))
        (with_session m.session_id (delete_blob_file bid) s) (λ a. omega arith) in
    omega (arith, le)
left-step o (discarding path) s = omega (arith, left-discard_step path s)
left-step o (tagging m bid) s = omega (arith, left-tag_step o m bid s)
left-step o (ended r) s = omega arith
left-step o (thrown x) s = omega arith
left-step o crashed s = omega arith

left-walk : (o : OpenSsl) (ss : List Server) (p : Phase) → left (walk o p ss) ≤ left p - length ss
unfolding walk
left-walk o [] p = omega arith
left-walk o (s ∷ ss) p = omega (arith, left-walk o ss (step o p s).0, left-step o p s)

left-finished : (p : Phase) → left p ≤ 0 → finished p ≡ true
left-finished (starting m rs) le = absurd (omega arith)
left-finished (creating m rs) le = absurd (omega arith)
left-finished (opening m rs bid path) le = absurd (omega arith)
left-finished (reading m rs bid path total) le = absurd (omega arith)
left-finished (writing m rs bid path total bytes) le = absurd (omega arith)
left-finished (exhausting m bid) le = absurd (omega arith)
left-finished (discarding path) le = absurd (omega arith)
left-finished (tagging m bid) le = absurd (omega arith)
left-finished (ended r) le = refl
left-finished (thrown x) le = refl
left-finished crashed le = refl

left-accept : (rs : List PutStreamingRequest) → left (accept rs) ≤ 2 * length rs + 3
unfolding accept
left-accept [] = omega arith
left-accept (chunk bytes ∷ rs) = omega arith
left-accept (not_set ∷ rs) = omega arith
left-accept (metadata m ∷ rs) = elim (Bool-cases (check_api_version m.api_version)) [
  | inl old ↦ rw old (omega arith)
  | inr new ↦ rw new (omega arith)
]

-- An upload takes at most two steps for a request and three more to its end, whatever the servers
-- are that its steps find, that is, whatever other handlers and calls do between them.
pub walk-accept :
    (o : OpenSsl) (rs : List PutStreamingRequest) (ss : List Server)
    → 2 * length rs + 3 ≤ length ss
    → finished (walk o (accept rs) ss) ≡ true
walk-accept o rs ss enough =
    left-finished (walk o (accept rs) ss)
      (omega (arith, left-walk o ss (accept rs), left-accept rs))
