-- ===== src/Upload/Chunks.antt =====
-- The loop over the chunks of an upload, run to its end or to the chunk that does not fit.
use mathlib.Core.List.{append_assoc}
use data_relay_grpc.Base.{
  ℕ, ◌+◌, ◌%◌, ◌≤◌, ◌<◌, ◌≡◌, refl, sym, ap, ◌∙◌, Bool, true, List, [], ◌∷◌, ◌++◌, some, arith, map,
  length, flatten, subst, length-append, append-nil,
}
use data_relay_grpc.OrderedMap.{find}
use data_relay_grpc.OrderedMap.Lookup.{find-assign}
use data_relay_grpc.FileSystem.{FilePath, append_output}
use data_relay_grpc.SessionStore.{word}
use data_relay_grpc.Session.{Blob, SessionImpl, Context, reserve_session_store}
use data_relay_grpc.Manager.{Server, with_session, context, absorb}
use data_relay_grpc.Manager.History.{reserves, IsSound, Step-IsSound}
use data_relay_grpc.Outcome.{Outcome, returns}
use data_relay_grpc.Relay.{PutStreamingRequest}
use data_relay_grpc.Upload.{complete, write, receive}
use data_relay_grpc.Upload.Stream.{
  IsStored, absorb-KeepsSessions, Advances, Advances-refl, Advances-trans, granted, reserve_granted,
  with_session_found, node-append_output, append_output-elsewhere,
}

-- the server after a chunk is accepted
abbrev pub accepted :
    (sid bid : ℕ) (path : FilePath) (chunk : List ℕ) → SessionImpl → Blob → Server → Server
accepted sid bid path chunk impl b s =
    write path chunk (absorb sid s (granted bid (length chunk) b (context s impl)))

accepted_call :
    (sid bid : ℕ) (path : FilePath) (bytes chunk : List ℕ) (s : Server)
    (o : IsStored sid bid path bytes s)
    → s.store.quota + length chunk < word
    → s.store.current_size + length chunk ≤ s.store.quota
    → with_session sid (reserve_session_store bid (length chunk)) s
      ≡ (returns true, absorb sid s (granted bid (length chunk) o.blob (context s o.impl)))
accepted_call sid bid path bytes chunk s o fits room =
    let r =
      reserve_granted (context s o.impl) bid (length chunk) o.blob o.sound.booked.set fits room
        o.has in
    with_session_found sid (reserve_session_store bid (length chunk)) s o.impl o.there
    ∙ ap (λ (x : Outcome Bool × Context). (x.0, absorb sid s x.1)) r

accepted-IsSound :
    (sid bid : ℕ) (path : FilePath) (bytes chunk : List ℕ) (s : Server)
    (o : IsStored sid bid path bytes s)
    → s.store.quota + length chunk < word
    → s.store.current_size + length chunk ≤ s.store.quota
    → IsSound 0 (accepted sid bid path chunk o.impl o.blob s)
accepted-IsSound sid bid path bytes chunk s o fits room =
    let v : IsSound 0 (absorb sid s (granted bid (length chunk) o.blob (context s o.impl))) =
      subst (IsSound 0)
        (ap (λ (x : Outcome Bool × Server). x.1)
          (accepted_call sid bid path bytes chunk s o fits room))
        (Step-IsSound (reserves sid bid (length chunk) fits o.there o.has) o.sound) in
    record { registered = v.registered; booked = v.booked }

accepted-IsStored :
    (sid bid : ℕ) (path : FilePath) (bytes chunk : List ℕ) (s : Server)
    (o : IsStored sid bid path bytes s)
    → s.store.quota + length chunk < word
    → s.store.current_size + length chunk ≤ s.store.quota
    → IsStored sid bid path (bytes ++ chunk) (accepted sid bid path chunk o.impl o.blob s)
accepted-IsStored sid bid path bytes chunk s o fits room = record {
  impl = (granted bid (length chunk) o.blob (context s o.impl)).impl;
  blob = record (o.blob) { size = (o.blob.size + length chunk) % word };
  sound = accepted-IsSound sid bid path bytes chunk s o fits room;
  there = ground (
    arith,
    o.there,
    find-assign sid sid (granted bid (length chunk) o.blob (context s o.impl)).impl s.blob_sessions,
  );
  has = ground (
    arith,
    o.has,
    find-assign bid bid (record (o.blob) { size = (o.blob.size + length chunk) % word })
        (o.impl).blobs,
  );
  named = o.named;
  sized = omega (arith, o.sized, o.counted, length-append bytes chunk);
  counted = omega (arith, o.counted, length-append bytes chunk);
  written = node-append_output s.file_system path bytes chunk o.written;
}

accepted-Advances :
    (sid bid : ℕ) (path : FilePath) (chunk : List ℕ) (impl : SessionImpl) (b : Blob) (s : Server)
    → find sid s.blob_sessions ≡ some impl
    → Advances path (length chunk) s (accepted sid bid path chunk impl b s)
unfolding append_output
accepted-Advances sid bid path chunk impl b s there = record {
  used = refl;
  same_quota = refl;
  same_key = refl;
  sessions =
      absorb-KeepsSessions sid s impl (granted bid (length chunk) b (context s impl)) there refl
        refl;
  same_system = record { resolve = refl; can_open = refl; can_remove = refl };
  elsewhere = λ q n. append_output-elsewhere s.file_system path q chunk n;
}

-- A chunk that fits is stored, and the loop goes on.
pub receive-accepted :
    (sid bid : ℕ) (path : FilePath) (bytes chunk : List ℕ) (rest : List PutStreamingRequest)
    (total : ℕ) (s : Server) (o : IsStored sid bid path bytes s)
    → s.store.quota + length chunk < word
    → s.store.current_size + length chunk ≤ s.store.quota
    → receive sid bid path (PutStreamingRequest.chunk chunk ∷ rest) total s
      ≡ receive sid bid path rest
          ((total + length chunk) % word)
          (accepted sid bid path chunk o.impl o.blob s)
unfolding receive
receive-accepted sid bid path bytes chunk rest total s o fits room =
    rw (accepted_call sid bid path bytes chunk s o fits room) refl

-- Chunks that all fit are all stored, one after the other, and the usage grows by their length,
-- whatever comes next.
pub receive_prefix :
    (sid bid : ℕ) (path : FilePath) (bytes : List ℕ) (cs : List (List ℕ))
    (rest : List PutStreamingRequest) (s : Server)
    → IsStored sid bid path bytes s
    → s.store.quota + length (flatten cs) < word
    → s.store.current_size + length (flatten cs) ≤ s.store.quota
    → (t : Server) × (receive sid bid path
          (map PutStreamingRequest.chunk cs ++ rest)
          (length bytes)
          s
        ≡ receive sid bid path rest (length (bytes ++ flatten cs)) t)
      × IsStored sid bid path (bytes ++ flatten cs) t
      × Advances path (length (flatten cs)) s t
unfolding flatten
receive_prefix sid bid path bytes [] rest s o fits room = (
  s,
  ap (λ xs. receive sid bid path rest (length xs) s) (sym (append-nil bytes)),
  subst (λ xs. IsStored sid bid path xs s) (sym (append-nil bytes)) o,
  Advances-refl path s,
)
receive_prefix sid bid path bytes (c ∷ cs) rest s o fits room =
    let split = length-append c (flatten cs) in
    let fits' : s.store.quota + length c < word = omega (arith, split) in
    let room' : s.store.current_size + length c ≤ s.store.quota = omega (arith, split) in
    let s' : Server = accepted sid bid path c o.impl o.blob s in
    let (t, e, p, a) =
      receive_prefix sid bid path (bytes ++ c) cs rest s'
        (accepted-IsStored sid bid path bytes c s o fits' room') (omega (arith, split))
        (omega (arith, split)) in
    let n : (length bytes + length c) % word ≡ length (bytes ++ c) =
      omega (arith, length-append bytes c, o.counted) in
    let same : (bytes ++ c) ++ flatten cs ≡ bytes ++ (c ++ flatten cs) =
      append_assoc bytes c (flatten cs) in
    (
      t,
      receive-accepted sid bid path bytes c (map PutStreamingRequest.chunk cs ++ rest)
            (length bytes) s o fits' room'
          ∙ ap (λ k. receive sid bid path (map PutStreamingRequest.chunk cs ++ rest) k s') n
          ∙ e
          ∙ ap (λ xs. receive sid bid path rest (length xs) t) same,
      subst (λ xs. IsStored sid bid path xs t) same p,
      subst (λ k. Advances path k s t) (sym split)
          (Advances-trans (accepted-Advances sid bid path c o.impl o.blob s o.there) a),
    )

pub receive_end :
    (sid bid : ℕ) (path : FilePath) (total : ℕ) (s : Server)
    → receive sid bid path [] total s ≡ (returns (complete total), s)
unfolding receive
receive_end sid bid path total s = refl
