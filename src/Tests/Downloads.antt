-- ===== src/Tests/Downloads.antt =====
-- The theorems on downloads and on the local service, at concrete inputs.
use data_relay_grpc.Base.{ℕ, ◌≤◌, ◌≡◌, refl, false, [], ◌∷◌, some, arith}
use data_relay_grpc.OrderedMap
use data_relay_grpc.Text.{text}
use data_relay_grpc.FileSystem.{FilePath, FilePath-discrete, regular, find_node, node, exists}
use data_relay_grpc.Session.{SessionImpl, find}
use data_relay_grpc.Manager.{get_session_impl, get_session_id, get_tag}
use data_relay_grpc.Outcome.{returns}
use data_relay_grpc.Relay.{
  ok, check_api_version, session_id, transaction_id, GetStreamingRequest, GetStreamingResponse,
  fails,
}
use data_relay_grpc.Download.{
  goes, find_origin, check_transaction, same_transaction, locate, expected_tag, check_tag, ended,
  authorize, get,
}
use data_relay_grpc.Download.Access.{IsSource, TagFor, IsAccepted, get_authorized}
use data_relay_grpc.Download.Delivery.{get_empty, authorize_session}
use data_relay_grpc.Local.{GetLocalRequest, answer, requested_session, get_local}
use data_relay_grpc.Local.Laws.{get_local_sound}
use data_relay_grpc.Tests.Fixtures.{api, disk, server, impl2, holding, holding-IsSound}

-- a BLOB of the datastore, asked for by the transaction of the session
abbrev request : GetStreamingRequest
request = record {
  api_version = 1;
  context_id = transaction_id 7;
  blob = record { storage_id = 1; object_id = 3; tag = 5 };
}

abbrev stored : FilePath
stored = (1 ∷ []) ∷ []

authorized : authorize api server request ≡ goes stored
unfolding authorize find_origin get_session_id check_transaction same_transaction get_session_impl
    locate expected_tag check_tag exists node find_node FilePath-discrete OrderedMap.find
authorized = refl

there : node disk stored ≡ some (regular (4 ∷ 5 ∷ []))
unfolding node find_node FilePath-discrete
there = refl

get_empty_example :
    get api 0 server request ≡ ended (fails ok (text "")) (GetStreamingResponse.metadata 2 ∷ [])
get_empty_example = get_empty api server request stored (4 ∷ 5 ∷ []) (omega arith) authorized there

get_authorized_example :
    (1 ≤ 1)
    × ((path : FilePath) × IsSource api server request path)
    × ((tag : ℕ) × TagFor api server.manager (transaction_id 7) 3 tag
        × IsAccepted server.manager tag 5)
get_authorized_example = get_authorized api 0 server request get_empty_example

found_origin :
    find_origin server.manager (transaction_id 7)
    ≡ goes (record { session = 1; transaction = some 7; raw = false })
unfolding find_origin get_session_id OrderedMap.find
found_origin = refl

abbrev local_request : GetLocalRequest
local_request = record {
  api_version = 1;
  context_id = session_id 1;
  blob = record { storage_id = 1; object_id = 3; tag = 5 };
}

local_answer : get_local api server local_request ≡ returns (fails ok (text ""), some stored)
unfolding get_local get_session_impl OrderedMap.find requested_session answer check_api_version
local_answer = refl

get_local_sound_example :
    (1 ≤ 1)
    × (fails ok (text "") ≡ fails ok (text ""))
    × (stored ≡ stored)
    × ((impl : SessionImpl) × (tid : ℕ) × (get_session_impl
            (requested_session (session_id 1))
            server.manager
          ≡ returns impl)
        × (impl.transaction_id ≡ some tid)
        × (5 ≡ api.get_tag 3 tid))
get_local_sound_example =
    get_local_sound api server local_request (fails ok (text "")) stored local_answer

-- a BLOB of the session, asked for by the session
abbrev own_request : GetStreamingRequest
own_request = record {
  api_version = 1;
  context_id = session_id 1;
  blob = record { storage_id = 0; object_id = 1; tag = 5 };
}

own_impl : get_session_impl 1 holding.manager ≡ returns impl2
unfolding get_session_impl OrderedMap.find
own_impl = refl

own_path : find 1 impl2 ≡ some stored
unfolding find OrderedMap.find
own_path = refl

own_tag : TagFor api holding.manager (session_id 1) 1 5
unfolding get_tag
own_tag = (impl2, own_impl, refl)

authorize_session_example : authorize api holding own_request ≡ goes stored
authorize_session_example =
    authorize_session api holding own_request impl2 stored holding-IsSound.registered own_impl refl
      own_path own_tag
