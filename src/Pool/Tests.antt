-- ===== src/Pool/Tests.antt =====
-- A pool of two lanes, of which one is lost.
use libtmux_go.Base.{ℕ, ◌≤◌, ◌<◌, ◌≡◌, ◌≢◌, refl, true, false, some, List, [], ◌∷◌, length, arith}
use libtmux_go.Pool.{
  LanePool, lost, waits, drained, lane, new_pool, survives, remove, remove_closing, closes_last,
  poll, take, settle, acquire, release, finish_release,
}
use libtmux_go.Pool.Steps.{count, takes, settles, releases, Reach, start, next, IsSound}
use libtmux_go.Pool.Soundness.{Reach-IsSound}
use libtmux_go.Pool.Progress.{end_calls, end_calls-acquire, release-room}

abbrev two : List ℕ
two = 1 ∷ 2 ∷ []

-- The first lane is received, and then held.
abbrev received : LanePool ℕ
received = record (new_pool two) { free = 2 ∷ []; taken = 1 ∷ [] }

abbrev used : LanePool ℕ
used = record (new_pool two) { free = 2 ∷ []; held = 1 ∷ [] }

received-Reach : Reach two received
unfolding take
received-Reach = next start (takes (new_pool two) received 1 refl)

used-Reach : Reach two used
unfolding settle remove count
used-Reach = next received-Reach (settles received false 1 (omega arith))

used_once : 1 ≤ count 1 used.held
unfolding count
used_once = omega arith

-- The lane is lost, and its client is being closed.
losing-Reach : Reach two (release 1 (some (lost 9)) used)
losing-Reach = next used-Reach (releases used 1 (some (lost 9)) used_once)

Reach-IsSound_example : IsSound (release 1 (some (lost 9)) used) two
Reach-IsSound_example = Reach-IsSound two (omega arith) losing-Reach

end_calls-acquire_example :
    (acquire false (end_calls (λ c. false) (λ c. some (lost 9)) received)).0 ≢ waits
end_calls-acquire_example =
    end_calls-acquire two (λ c. false) (λ c. some (lost 9)) false (omega arith) received-Reach

release-room_example : (length used.free < length two) × (used.is_drained ≡ false)
release-room_example = release-room two 1 (omega arith) used-Reach used_once

abbrev last_one : LanePool ℕ
last_one = record (new_pool (1 ∷ [])) { free = []; held = 1 ∷ [] }

-- The last lane is lost: a call waits while the client is being closed, and then the pool reports why.
still_closing : (acquire false (release 1 (some (lost 9)) last_one)).0 ≡ waits
unfolding acquire poll take release survives remove
still_closing = refl

all_lost :
    (acquire false (finish_release 1 (release 1 (some (lost 9)) last_one))).0
    ≡ drained (some (lost 9))
unfolding acquire poll release survives remove finish_release remove_closing closes_last
all_lost = refl

nothing_free : (acquire false last_one).0 ≡ waits
unfolding acquire poll take
nothing_free = refl

-- A lane that was received as the pool stopped goes back.
stopped_late :
    (settle false 1 (record received { is_stopped = true })).1
    ≡ record (new_pool two) { free = 2 ∷ 1 ∷ []; is_stopped = true }
unfolding settle remove
stopped_late = refl

handed_out : (acquire {X = ℕ} false (new_pool two)).0 ≡ lane 1
unfolding acquire poll take settle
handed_out = refl
