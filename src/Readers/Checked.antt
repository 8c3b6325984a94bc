-- ===== src/Readers/Checked.antt =====
-- That the handler of a download has seen everything that it should before a client is sent
-- anything, whatever other calls do between its steps.
use data_relay_grpc.Base.{ℕ, ◌≡◌, refl, List, [], ◌∷◌}
use data_relay_grpc.OrderedMap
use data_relay_grpc.Manager.{Api}
use data_relay_grpc.Relay.{Status, GetStreamingRequest, GetStreamingResponse}
use data_relay_grpc.Readers.{Sight, ended, step, walk}

-- A handler that has ended stays where it is.
pub walk-ended :
    (api : Api) (c : ℕ) (r : GetStreamingRequest) (vs : List Sight) (status : Status)
    (rs : List GetStreamingResponse)
    → walk api c r (ended status rs) vs ≡ ended status rs
unfolding walk step
walk-ended api c r [] status rs = refl
walk-ended api c r (v ∷ vs) status rs = walk-ended api c r vs status rs
