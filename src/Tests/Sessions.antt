-- ===== src/Tests/Sessions.antt =====
-- The theorems on sessions, at concrete inputs.
use data_relay_grpc.Base.{ℕ, ◌+◌, ◌≡◌, refl, false, [], ◌∷◌, none, some, arith}
use data_relay_grpc.OrderedMap.{find, erase}
use data_relay_grpc.FileSystem.{
  FilePath-discrete, find_node, exists, node, is_removable, removed, remove as remove_file,
}
use data_relay_grpc.SessionStore.{remove}
use data_relay_grpc.Session.{
  Blob, Context, reserve_session_store, delete_blob_file, delete_found, remove_if_exists,
  delete_entries, entries,
}
use data_relay_grpc.Session.Accounting.{IsAccounted, reserved}
use data_relay_grpc.Session.Release.{IsPlain}
use data_relay_grpc.Session.Leaks.{reserve_session_store_leaks, delete_blob_file_drifts}
use data_relay_grpc.Manager.{context}
use data_relay_grpc.Manager.Books.{others, IsBooked-IsAccounted}
use data_relay_grpc.Outcome.{returns, throws, map_at, filesystem_error, for_each}
use data_relay_grpc.Tests.Fixtures.{dir, disk, impl2, blob3, holding, holding-IsSound}

abbrev held : Context
held = context holding impl2

holding_there : find 1 holding.blob_sessions ≡ some impl2
unfolding find
holding_there = refl

has : find 1 held.blobs ≡ some blob3
unfolding find
has = refl

has_not : find 9 held.blobs ≡ none
unfolding find
has_not = refl

-- what is reserved outside of the session
abbrev rest : ℕ
rest = others 1 holding.manager + 0

held-IsAccounted : IsAccounted rest held
held-IsAccounted = IsBooked-IsAccounted holding 1 impl2 holding_there holding-IsSound.booked

-- the session after its BLOB is deleted
abbrev released : Context
released = record {
  impl = record impl2 { blobs = [] };
  store = record { directory = dir; quota = 10; current_size = 0 };
  blob_id = 1;
  file_system = removed disk ((1 ∷ []) ∷ []);
}

deletes : delete_blob_file 1 held ≡ (returns tt, released)
unfolding delete_blob_file delete_found remove_if_exists find erase remove remove_file exists
    is_removable node find_node FilePath-discrete
deletes = refl

deletes_entries : delete_entries held ≡ (returns tt, released)
unfolding delete_entries entries for_each
deletes_entries = rw deletes refl

blob3-IsPlain : IsPlain held blob3
unfolding find_node FilePath-discrete
blob3-IsPlain = (refl, refl)

only_blob3 : (j : ℕ) (b : Blob) → find j held.blobs ≡ some b → blob3 ≡ b
unfolding find
only_blob3 j b e = ground arith

reserve_session_store_leaks_example :
    ((reserve_session_store 9 4 held).0 ≡ throws map_at)
    × ((reserve_session_store 9 4 held).1.store.current_size
        ≡ rest + reserved (reserve_session_store 9 4 held).1 + 4)
reserve_session_store_leaks_example =
    reserve_session_store_leaks rest held 9 4 (omega arith) (omega arith) (omega arith) has_not
      held-IsAccounted

-- the same on a disk that lets nothing be removed
abbrev locked : Context
locked = record held { file_system = record disk { can_remove = λ p. false } }

abbrev drifted : Context
drifted = record locked { store = record { directory = dir; quota = 10; current_size = 0 } }

locked-IsAccounted : IsAccounted rest locked
locked-IsAccounted = record {
  set = held-IsAccounted.set;
  small = held-IsAccounted.small;
  exact = held-IsAccounted.exact;
  within = held-IsAccounted.within;
  ordered = held-IsAccounted.ordered;
  numbered = held-IsAccounted.numbered;
}

locked_throws : delete_blob_file 1 locked ≡ (throws (filesystem_error ((1 ∷ []) ∷ [])), drifted)
unfolding delete_blob_file delete_found remove_if_exists find erase remove remove_file exists
    is_removable node find_node FilePath-discrete
locked_throws = refl

delete_blob_file_drifts_example :
    (find 1 drifted.blobs ≡ some blob3) × (drifted.store.current_size + 3 ≡ rest + reserved drifted)
delete_blob_file_drifts_example =
    delete_blob_file_drifts rest locked drifted 1 blob3 (filesystem_error ((1 ∷ []) ∷ [])) has
      locked-IsAccounted locked_throws
