-- ===== src/Tests/Stores.antt =====
-- The theorems on the session storage and on tags, at concrete inputs.
use data_relay_grpc.Base.{
  ℕ, ◌+◌, ◌≤◌, ◌≡◌, ◌≢◌, ◌⊎◌, refl, true, false, [], ◌∷◌, none, arith, take, drop,
}
use data_relay_grpc.OrderedMap
use data_relay_grpc.OrderedMap.Total.{total}
use data_relay_grpc.Text.{Text}
use data_relay_grpc.FileSystem.{
  FilePath, FilePath-discrete, find_node, exists, node, children, entries_of,
}
use data_relay_grpc.TagGenerator.{from_bytes, input_bytes, generate_reference_tag}
use data_relay_grpc.TagGenerator.Encoding.{input_bytes_decode}
use data_relay_grpc.SessionStore.{SessionStore, reserve, blob_session_store, is_writable}
use data_relay_grpc.SessionStore.Startup.{blob_session_store_empties}
use data_relay_grpc.SessionStore.Concurrent.{
  outside, trying, Thread, Move, load, exchange, retry, give_back, System, Step, pick, Reach, here,
  next, reserved, returned, IsFitting, IsCounted, quota_respected, Move-reserve,
}
use data_relay_grpc.Outcome.{returns, for_each}
use data_relay_grpc.Tests.Fixtures.{ossl, dir, disk}

abbrev three : SessionStore
three = record { directory = dir; quota = 10; current_size = 3 }

abbrev seven : SessionStore
seven = record { directory = dir; quota = 10; current_size = 7 }

reserve_four : reserve three 4 ≡ (true, seven)
unfolding reserve
reserve_four = refl

abbrev twelve : ℕ
twelve = 12

abbrev fresh_store : SessionStore
fresh_store = record { directory = dir; quota = 10; current_size = 0 }

starts : blob_session_store dir 10 disk ≡ (returns fresh_store, disk)
unfolding blob_session_store exists node find_node is_writable entries_of children for_each
    FilePath-discrete
starts = refl

blob_session_store_empties_example :
    (fresh_store ≡ fresh_store)
    × ((name : Text) → find_node (name ∷ dir) disk.nodes ≡ none)
    × ((q : FilePath)
        → ((name : Text) → q ≢ name ∷ dir)
        → find_node q disk.nodes ≡ find_node q disk.nodes)
blob_session_store_empties_example =
    blob_session_store_empties dir 10 disk disk fresh_store (λ name. refl) starts

input_bytes_decode_example :
    (from_bytes (take 8 (input_bytes 300 2)) ≡ 300) × (from_bytes (drop 8 (input_bytes 300 2)) ≡ 2)
input_bytes_decode_example = input_bytes_decode 300 2 (omega arith) (omega arith)

tag_one : generate_reference_tag ossl [] 1 2 ≡ returns 1
unfolding generate_reference_tag from_bytes
tag_one = refl

abbrev idle : Thread
idle = record { phase = outside; reserved = 0 }

abbrev busy : Thread
busy = record { phase = trying 4 0; reserved = 0 }

abbrev busy' : Thread
busy' = record { phase = outside; reserved = 4 }

abbrev start : System
start = record { store = fresh_store; threads = (1, idle) ∷ (2, idle) ∷ [] }

start-IsCounted : IsCounted 0 start
unfolding OrderedMap.find total
start-IsCounted = record { exact = refl; within = omega arith; sane = λ i t e. ground arith }

-- the usage, and where the two threads stand
abbrev at : (used : ℕ) → Thread → Thread → System
at used t u = record {
  store = record { directory = dir; quota = 10; current_size = used };
  threads = (1, t) ∷ (2, u) ∷ [];
}

abbrev trying_three : ℕ → Thread
trying_three current = record { phase = trying 3 current; reserved = 0 }

abbrev idle_three : Thread
idle_three = record { phase = outside; reserved = 3 }

first :
    {used used' : ℕ} {t t' u : Thread}
    → Move (at used t u).store t (at used' t' u).store t'
    → Step (at used t u) (at used' t' u)
unfolding OrderedMap.find OrderedMap.assign
first {used} {t = t} {u = u} mv = pick 1 refl mv

second :
    {used used' : ℕ} {t u u' : Thread}
    → Move (at used t u).store u (at used' t u').store u'
    → Step (at used t u) (at used' t u')
unfolding OrderedMap.find OrderedMap.assign
second {used} {t = t} {u = u} mv = pick 2 refl mv

-- Both load; the first takes 4, so that the second must try again to take 3; and then the second
-- gives back 2 of what the first has reserved, and 3 of its own.
schedule : Reach start (at 2 busy' idle_three)
schedule =
    next
      (next
        (next
          (next
            (next
              (next here (
                first {used = 0} {used' = 0} {t = idle} {t' = busy} {u = idle}
                  (load 4 (omega arith))))
              (second {used = 0} {used' = 0} {t = busy} {u = idle} {u' = trying_three 0}
                (load 3 (omega arith))))
            (first {used = 0} {used' = 4} {t = busy} {t' = busy'} {u = trying_three 0}
              (exchange (omega arith) refl)))
          (second {used = 4} {used' = 4} {t = busy'} {u = trying_three 0} {u' = trying_three 4}
            (retry (omega arith) (omega arith))))
        (second {used = 4} {used' = 7} {t = busy'} {u = trying_three 4} {u' = idle_three}
          (exchange (omega arith) refl)))
      (second {used = 7} {used' = 2} {t = busy'} {u = idle_three} {u' = idle_three}
        (give_back 5 (omega arith)))

schedule-IsFitting : IsFitting schedule
unfolding schedule first second IsFitting returned total
schedule-IsFitting = ((((((tt, omega arith), omega arith), tt), tt), tt), omega arith)

quota_respected_example : (2 + returned schedule ≡ reserved (at 2 busy' idle_three)) × (2 ≤ 10)
quota_respected_example = quota_respected (omega arith) start-IsCounted schedule schedule-IsFitting

Move-reserve_example :
    ((busy'.reserved ≡ busy.reserved + 4)
      × (reserve fresh_store 4 ≡ (true, record fresh_store { current_size = 4 })))
    ⊎ ((busy'.reserved ≡ busy.reserved)
        × (record fresh_store { current_size = 4 } ≡ fresh_store)
        × (reserve fresh_store 4 ≡ (false, fresh_store)))
Move-reserve_example =
    Move-reserve {s = fresh_store} {s' = record fresh_store { current_size = 4 }} {t = busy}
      {t' = busy'} {size = 4} {current = 0} (omega arith)
      (exchange {h = 0} {size = 4} {current = 0} (omega arith) refl) refl refl
