-- ===== src/SessionStore/Usage.antt =====
-- The usage counter and the names of the files of the session storage.
use mathlib.Core.List.{append_cancel_left, head-eq_of_cons-eq}
use data_relay_grpc.Base.{ℕ, ◌+◌, ◌-◌, ◌≤◌, ◌<◌, ◌≡◌, ◌≢◌, true, false, ◌⊎◌, ◌++◌, arith}
use data_relay_grpc.Text.{Text, text}
use data_relay_grpc.Text.Decimal.{to_string-injective}
use data_relay_grpc.SessionStore.{SessionStore, word, reserve, remove, create_blob_file}

-- With a quota that is set and not yet exceeded, and a size that cannot wrap the sum, `reserve`
-- adds the size exactly when the sum stays within the quota, and else changes nothing.
pub reserve_lem :
    (s : SessionStore) (size : ℕ)
    → s.quota ≢ 0
    → s.quota + size < word
    → s.current_size ≤ s.quota
    → ((s.current_size + size ≤ s.quota)
        × (reserve s size ≡ (true, record s { current_size = s.current_size + size })))
      ⊎ ((s.quota < s.current_size + size) × (reserve s size ≡ (false, s)))
unfolding reserve
reserve_lem s size set fits le = ground arith

-- `remove` takes back exactly what a successful `reserve` of the same size has added, for 64-bit
-- values.
pub remove-reserve :
    (s t : SessionStore) (size : ℕ)
    → s.current_size < word
    → size < word
    → reserve s size ≡ (true, t)
    → remove t size ≡ s
unfolding reserve remove
remove-reserve s t size h k e = ground arith

-- Files of one session storage and one prefix have different paths if they have different BLOB
-- ids.
pub create_blob_file-injective :
    (s : SessionStore) (prefix : Text) (a b : ℕ)
    → create_blob_file s a prefix ≡ create_blob_file s b prefix
    → a ≡ b
unfolding create_blob_file
create_blob_file-injective s prefix a b e =
    to_string-injective a b (append_cancel_left (prefix ++ text "_") _ _ (head-eq_of_cons-eq e))

-- With a quota that is set, `remove` subtracts a size that the counter covers.
pub remove_lem :
    (s : SessionStore) (size : ℕ)
    → s.quota ≢ 0
    → size ≤ s.current_size
    → s.current_size < word
    → remove s size ≡ record s { current_size = s.current_size - size }
unfolding remove
remove_lem s size set le fits = ground arith
