-- ===== src/BlobSession.antt =====
-- common/session.h and common/session.cpp, `blob_session`: the session as the users of the library
-- hold it. `impl_` leads to the session with the given id; each method calls that of the session.
pub mod Contract
pub mod Interface
use data_relay_grpc.Base.{ℕ, List, Option, none, some}
use data_relay_grpc.OrderedMap
use data_relay_grpc.FileSystem.{FilePath}
use data_relay_grpc.TagGenerator.{OpenSsl}
use data_relay_grpc.Session
use data_relay_grpc.Session.{Context, remove_list, remove_vector}
use data_relay_grpc.Manager
use data_relay_grpc.Manager.{Server, with_session, dispose_session}
use data_relay_grpc.Outcome.{returns, undefined, M}

unfoldable pub session_id : ℕ → M Server ℕ
session_id impl = with_session impl (λ c. (returns c.session_id, c))

unfoldable pub dispose : ℕ → M Server (Unit {0})
dispose impl = dispose_session impl

unfoldable pub add : ℕ → FilePath → M Server ℕ
add impl path = with_session impl (Session.add path)

unfoldable pub find : ℕ → ℕ → M Server (Option FilePath)
find impl blob_id = with_session impl (λ c. (returns (Session.find blob_id c.impl), c))

unfoldable pub entries : ℕ → M Server (List ℕ)
entries impl = with_session impl (λ c. (returns (Session.entries c.impl), c))

-- `remove` over the iterators of a list, and of a vector
unfoldable pub remove : ℕ → List ℕ → M Server (Unit {0})
remove impl blob_ids = with_session impl (remove_list blob_ids)

unfoldable pub remove_between : ℕ → List ℕ → (first last : ℕ) → M Server (Unit {0})
remove_between impl blob_ids first last = with_session impl (remove_vector blob_ids first last)

unfoldable pub compute_tag : OpenSsl → ℕ → ℕ → M Server ℕ
compute_tag o impl blob_id s = elim (OrderedMap.find impl s.blob_sessions) [
  | none ↦ (undefined, s)
  | some session ↦ (Manager.compute_tag o blob_id session s.manager, s)
]
