-- ===== src/Handlers/System.antt =====
-- Handlers of `Put` at work at the same time, and calls of the library between their steps. A call
-- of the library runs as a whole.
use data_relay_grpc.Base.{ℕ, ◌+◌, ◌<◌, ◌≡◌, ◌≢◌, List, ◌∷◌, none, some, length}
use data_relay_grpc.OrderedMap.{find, assign}
use data_relay_grpc.FileSystem.{FilePath}
use data_relay_grpc.TagGenerator.{OpenSsl}
use data_relay_grpc.SessionStore.{word}
use data_relay_grpc.Manager.{Server}
use data_relay_grpc.Manager.History.{Step}
use data_relay_grpc.Outcome.{filesystem_error}
use data_relay_grpc.Relay.{PutStreamingRequest, chunk}
use data_relay_grpc.Handlers.{Phase, creating, reading, exhausting, thrown, accept, step}

-- the server, and the handlers by number
pub record System : Type 0 where
  pub server : Server
  pub handlers : List (ℕ × Phase)

-- The counter of BLOB ids does not wrap, a chunk cannot wrap the sum with the quota, and the file
-- of an upload that is given up can be removed.
abbrev pub IsFitting : OpenSsl → Phase → Server → Type 0
IsFitting o (creating m rs) s = s.blob_id + 1 < word
IsFitting o (reading m (chunk bytes ∷ rs) bid path total) s = s.store.quota + length bytes < word
IsFitting o (exhausting m bid) s =
    (path : FilePath) → (step o (exhausting m bid) s).0 ≢ thrown (filesystem_error path)
IsFitting o _ s = Unit

-- the system after a step of one handler
abbrev pub advanced : OpenSsl → ℕ → Phase → System → System
advanced o i p y = record {
  server = (step o p y.server).1;
  handlers = assign i (step o p y.server).0 y.handlers;
}

pub data Move (o : OpenSsl) (y : System) : System → Type 0 where
  arrives :
      (i : ℕ) (rs : List PutStreamingRequest)
      → find i y.handlers ≡ none
      → Move o y (record { server = y.server; handlers = (i, accept rs) ∷ y.handlers })
  advances :
      (i : ℕ) {p : Phase}
      → find i y.handlers ≡ some p
      → IsFitting o p y.server
      → Move o y (advanced o i p y)
  calls : {t : Server} → Step y.server t → Move o y (record { server = t; handlers = y.handlers })

pub data Reach (o : OpenSsl) (y : System) : System → Type 0 where
  here : Reach o y y
  next : {z w : System} → Reach o y z → Move o z w → Reach o y w
