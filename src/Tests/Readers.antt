-- ===== src/Tests/Readers.antt =====
-- The theorems on downloads that other calls run in between, at concrete inputs.
use data_relay_grpc.Base.{ℕ, ◌≡◌, refl, false, List, [], ◌∷◌, some, arith, All, flatten}
use data_relay_grpc.OrderedMap
use data_relay_grpc.Text.{text}
use data_relay_grpc.FileSystem.{FilePath, FilePath-discrete, regular, find_node, node, exists}
use data_relay_grpc.Manager.{Server, get_session_impl, get_session_id}
use data_relay_grpc.Relay.{
  ok, check_api_version, transaction_id, GetStreamingRequest, GetStreamingResponse, fails,
}
use data_relay_grpc.Download.{
  Origin, find_origin, check_transaction, same_transaction, locate, expected_tag, check_tag,
  authorize, get,
}
use data_relay_grpc.Readers.{
  Sight, finding, sizing, crashed, accept, locate_step, expect_step, size_step, finished, read_step,
  step, walk,
}
use data_relay_grpc.Readers.Reaching.{Reaches}
use data_relay_grpc.Readers.Alone.{walk-get}
use data_relay_grpc.Readers.Protocol.{IsChunked, IsAnswer, walk-IsAnswer}
use data_relay_grpc.Readers.Steady.{IsSteady}
use data_relay_grpc.Readers.Completion.{walk_delivers}
use data_relay_grpc.Readers.Removal.{for_blob, walk_truncates, dispose_session-walk}
use data_relay_grpc.Tests.Fixtures.{
  api, disk, server, holding, holding-IsSound, over, impl2, blob3, disposes,
}

-- a BLOB of the datastore, asked for by the transaction of the session
abbrev wanted : GetStreamingRequest
wanted = record {
  api_version = 1;
  context_id = transaction_id 7;
  blob = record { storage_id = 1; object_id = 3; tag = 5 };
}

abbrev place : FilePath
place = (1 ∷ []) ∷ []

abbrev sight : Server → Sight
sight s = record { server = s; unlinked = λ path. [] }

walk-get_example : Reaches api 1 wanted (sight server) (accept wanted) (get api 1 server wanted)
walk-get_example = walk-get api 1 wanted (sight server)

-- the session gets a BLOB of its own in the meantime
abbrev seen : List Sight
seen =
    sight server
    ∷ sight server
    ∷ sight holding
    ∷ sight server
    ∷ sight holding
    ∷ sight holding
    ∷ sight holding
    ∷ sight holding
    ∷ sight holding
    ∷ sight server
    ∷ sight holding
    ∷ sight holding
    ∷ sight holding
    ∷ []

sent_all : walk api 1 wanted (accept wanted) seen ≡ finished 2 ((4 ∷ []) ∷ (5 ∷ []) ∷ [])
unfolding walk step accept find_origin get_session_id check_api_version same_transaction
    get_session_impl locate_step expect_step check_tag size_step read_step exists node find_node
    FilePath-discrete OrderedMap.find flatten
sent_all = refl

walk-IsAnswer_example : IsAnswer 1 (fails ok (text "")) (
    GetStreamingResponse.metadata 2
    ∷ GetStreamingResponse.chunk (4 ∷ [])
    ∷ GetStreamingResponse.chunk (5 ∷ [])
    ∷ [])
walk-IsAnswer_example = walk-IsAnswer api 1 wanted seen _ _ sent_all

abbrev origin : Origin
origin = record { session = 1; transaction = some 7; raw = false }

server-IsSteady : IsSteady api wanted origin place (4 ∷ 5 ∷ []) (sight server)
unfolding authorize find_origin get_session_id check_transaction same_transaction get_session_impl
    locate expected_tag check_tag exists node find_node FilePath-discrete OrderedMap.find
server-IsSteady = (refl, refl, refl)

holding-IsSteady : IsSteady api wanted origin place (4 ∷ 5 ∷ []) (sight holding)
unfolding authorize find_origin get_session_id check_transaction same_transaction get_session_impl
    locate expected_tag check_tag exists node find_node FilePath-discrete OrderedMap.find
holding-IsSteady = (refl, refl, refl)

seen-IsSteady : All (IsSteady api wanted origin place (4 ∷ 5 ∷ [])) seen
seen-IsSteady =
    let a = server-IsSteady in
    let b = holding-IsSteady in (a, (a, (b, (a, (b, (b, (b, (b, (b, (a, (b, (b, (b, tt)))))))))))))

walk_delivers_example :
    (cs : List (List ℕ)) × (flatten cs ≡ 4 ∷ 5 ∷ [])
    × IsChunked 1 cs
    × (walk api 1 wanted (accept wanted) seen ≡ finished 2 cs)
walk_delivers_example =
    walk_delivers api 1 wanted origin place (4 ∷ 5 ∷ []) seen (omega arith) (omega arith)
      seen-IsSteady (omega arith)

abbrev start : List Sight
start =
    sight server ∷ sight server ∷ sight holding ∷ sight server ∷ sight holding ∷ sight holding ∷ []

before_size : walk api 1 wanted (accept wanted) start ≡ sizing place
unfolding walk step accept find_origin get_session_id check_api_version same_transaction
    get_session_impl locate_step expect_step check_tag exists node find_node FilePath-discrete
    OrderedMap.find
before_size = refl

there : node disk place ≡ some (regular (4 ∷ 5 ∷ []))
unfolding node find_node FilePath-discrete
there = refl

held : OrderedMap.find 1 holding.blob_sessions ≡ some impl2
unfolding OrderedMap.find
held = refl

held_blob : OrderedMap.find 1 impl2.blobs ≡ some blob3
unfolding OrderedMap.find
held_blob = refl

walk_truncates_example :
    walk api 1 wanted (accept wanted) (
      sight server
      ∷ sight server
      ∷ sight holding
      ∷ sight server
      ∷ sight holding
      ∷ sight holding
      ∷ sight holding
      ∷ sight over
      ∷ sight over
      ∷ [])
    ≡ finished 2 []
walk_truncates_example =
    walk_truncates api 1 wanted 1 1 impl2 blob3 (4 ∷ 5 ∷ []) start [] (sight holding) (sight over)
      (sight over) before_size holding-IsSound held held_blob there disposes

dispose_session-walk_example :
    walk api 1 wanted (finding origin) (sight over ∷ sight over ∷ []) ≡ crashed
dispose_session-walk_example =
    dispose_session-walk api 1 wanted 1 holding (sight over) (sight over ∷ []) (finding origin)
      holding-IsSound disposes (for_blob origin refl)
