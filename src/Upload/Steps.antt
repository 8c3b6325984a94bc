-- ===== src/Upload/Steps.antt =====
-- The parts of an upload that work on the session, whatever the client sends.
use data_relay_grpc.Base.{
  ℕ, ◌+◌, ◌%◌, ◌<◌, ◌≡◌, refl, sym, ap, ◌∙◌, ◌⊎◌, inl, inr, Bool, true, false, List, [], ◌∷◌, some,
  arith, length, subst, dec_lt,
}
use data_relay_grpc.OrderedMap.{find}
use data_relay_grpc.OrderedMap.Lookup.{find-assign}
use data_relay_grpc.FileSystem.{FilePath}
use data_relay_grpc.TagGenerator.{Digest, digest, failed}
use data_relay_grpc.SessionStore.{word}
use data_relay_grpc.Session.{Blob, SessionImpl, Context, reserve_session_store, delete_blob_file}
use data_relay_grpc.Session.Deletion.{delete_blob_file_cases}
use data_relay_grpc.Manager.{Server, with_session, context, absorb}
use data_relay_grpc.Manager.History.{reserves, IsSound, Step-IsSound, deletes-IsSound}
use data_relay_grpc.Outcome.{Outcome, returns, throws, undefined, is_out_of_range, after, M}
use data_relay_grpc.Relay.{PutStreamingRequest, metadata, chunk, not_set}
use data_relay_grpc.Upload.{write, receive, give_up}
use data_relay_grpc.Upload.Stream.{
  granted, reserve_granted, reserve_refused, with_session_found, assign_same,
}

-- A call that answers with the books in order, or throws what `Put` does not catch; it never uses
-- a session that is gone.
abbrev pub EndsWell : {A : Type 0} → Outcome A × Server → Type 0
EndsWell (returns a, t) = IsSound 0 t
EndsWell (throws x, t) = is_out_of_range x ≡ false
EndsWell (undefined, t) = ⊥

pub after-EndsWell :
    {A B : Type 0} (r : Outcome A × Server) (k : A → M Server B)
    → EndsWell r
    → ((a : A) (t : Server) → IsSound 0 t → EndsWell (k a t))
    → EndsWell (after r k)
after-EndsWell (returns a, t) k e f = f a t e
after-EndsWell (throws x, t) k e f = e
after-EndsWell (undefined, t) k e f = e

pub Digest-cases :
    (d : Digest) → ((md : List ℕ) × (d ≡ digest md)) ⊎ ((errors : List ℕ) × (d ≡ failed errors))
Digest-cases (digest md) = inl (md, refl)
Digest-cases (failed errors) = inr (errors, refl)

-- Each chunk has a size that cannot wrap the sum with the quota.
abbrev pub AreSmall : ℕ → List PutStreamingRequest → Type 0
AreSmall quota [] = Unit
AreSmall quota (chunk bytes ∷ rest) = (quota + length bytes < word) × AreSmall quota rest
AreSmall quota (metadata m ∷ rest) = Unit
AreSmall quota (not_set ∷ rest) = Unit

-- The BLOB that is being uploaded is in its session.
pub record IsReady (sid bid quota : ℕ) (s : Server) : Type 0 where
  pub sound : IsSound 0 s
  pub limit : s.store.quota ≡ quota
  pub impl : SessionImpl
  pub blob : Blob
  pub there : find sid s.blob_sessions ≡ some impl
  pub has : find bid impl.blobs ≡ some blob

reserve-IsReady :
    (sid bid quota n : ℕ) (s : Server)
    → IsReady sid bid quota s
    → quota + n < word
    → ((t : Server) × (with_session sid (reserve_session_store bid n) s ≡ (returns true, t))
        × IsReady sid bid quota t)
      ⊎ (with_session sid (reserve_session_store bid n) s ≡ (returns false, s))
reserve-IsReady sid bid quota n s p fits = elim (dec_lt s.store.quota (s.store.current_size + n)) [
  | yes over ↦
      let r =
        reserve_refused (context s p.impl) bid n p.sound.booked.set (omega (arith, p.limit))
          p.sound.booked.within over in
      inr (
        with_session_found sid (reserve_session_store bid n) s p.impl p.there
        ∙ ap (λ (x : Outcome Bool × Context). (x.0, absorb sid s x.1)) r
        ∙ ap
            (λ m. (
              returns false,
              (let u : Server = record s { manager = record (s.manager) { blob_sessions = m } } in
                  u),
            ))
            (assign_same sid p.impl s.blob_sessions p.there))
  | no room ↦
      let fits' : s.store.quota + n < word = omega (arith, p.limit) in
      let c : Context = granted bid n p.blob (context s p.impl) in
      let call =
        with_session_found sid (reserve_session_store bid n) s p.impl p.there
        ∙ ap (λ (x : Outcome Bool × Context). (x.0, absorb sid s x.1))
            (reserve_granted (context s p.impl) bid n p.blob p.sound.booked.set fits' (omega arith)
              p.has) in
      inl (
        absorb sid s c,
        call,
        record {
          sound =
              subst (IsSound 0) (ap (λ (x : Outcome Bool × Server). x.1) call)
                (Step-IsSound (reserves sid bid n fits' p.there p.has) p.sound);
          limit = p.limit;
          impl = c.impl;
          blob = record (p.blob) { size = (p.blob.size + n) % word };
          there = ground (arith, p.there, find-assign sid sid c.impl s.blob_sessions);
          has = ground (
            arith,
            p.has,
            find-assign bid bid (record (p.blob) { size = (p.blob.size + n) % word })
                (p.impl).blobs,
          );
        },
      )
]

delete_blob_file-EndsWell :
    (sid bid quota : ℕ) (s : Server)
    → IsReady sid bid quota s
    → EndsWell (with_session sid (delete_blob_file bid) s)
delete_blob_file-EndsWell sid bid quota s p = elim (delete_blob_file_cases bid (context s p.impl)) [
  | inl (absent, _) ↦ cc (p.has)
  | inr (inr (b, _, _, e)) ↦
      rw (with_session_found sid (delete_blob_file bid) s p.impl p.there, e) refl
  | inr (inl (b, fs, _, _, e)) ↦
      let call =
        with_session_found sid (delete_blob_file bid) s p.impl p.there
        ∙ ap (λ (x : Outcome (Unit {0}) × Context). (x.0, absorb sid s x.1)) e in
      subst EndsWell (sym call) (deletes-IsSound sid bid s _ call p.sound)
]

write-IsReady :
    (sid bid quota : ℕ) (path : FilePath) (bytes : List ℕ) (s : Server)
    → IsReady sid bid quota s
    → IsReady sid bid quota (write path bytes s)
write-IsReady sid bid quota path bytes s p = record {
  sound = record { registered = p.sound.registered; booked = p.sound.booked };
  limit = p.limit;
  impl = p.impl;
  blob = p.blob;
  there = p.there;
  has = p.has;
}

pub receive-EndsWell :
    (sid bid quota : ℕ) (path : FilePath) (rs : List PutStreamingRequest) (total : ℕ) (s : Server)
    → IsReady sid bid quota s
    → AreSmall quota rs
    → EndsWell (receive sid bid path rs total s)
unfolding receive give_up
receive-EndsWell sid bid quota path [] total s p h = p.sound
receive-EndsWell sid bid quota path (metadata m ∷ rs) total s p h = p.sound
receive-EndsWell sid bid quota path (not_set ∷ rs) total s p h = p.sound
receive-EndsWell sid bid quota path (chunk bytes ∷ rs) total s p h =
    elim (reserve-IsReady sid bid quota (length bytes) s p h.0) [
      | inl (t, e, q) ↦ rw e (
          receive-EndsWell sid bid quota path rs ((total + length bytes) % word)
            (write path bytes t) (write-IsReady sid bid quota path bytes t q) h.1)
      | inr e ↦ rw e (
          after-EndsWell (with_session sid (delete_blob_file bid) s) (λ _ t. (returns _, t))
            (delete_blob_file-EndsWell sid bid quota s p) (λ _ t v. v))
    ]
