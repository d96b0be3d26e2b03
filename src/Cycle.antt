-- ===== src/Cycle.antt =====
-- The fuzzing cycle that the host expects of an agent, as a monitor of the history: hello by
-- ACQUIRE and RELEASE, a payload buffer by GET_PAYLOAD, then rounds of NEXT_PAYLOAD, ACQUIRE, runs
-- of the target, RELEASE.
pub mod Trace
use kafl_targets.Base.{ℕ, suc, ◌≡◌, ◌≢◌, ◌==◌, Option, none, some, [], ◌∷◌, if◌then◌else◌}
use kafl_targets.Nyx
use kafl_targets.Machine.{Event, vmcall, call, target, History}

-- `bare` and `greeting` are before the payload buffer is known; `idle`, `ready` and `running` make
-- a round.
pub data Phase : Type 0 where
  bare greeting idle ready running : Phase

abbrev pub on_acquire : Phase → Option Phase
on_acquire bare = some greeting
on_acquire ready = some running
on_acquire _ = none

abbrev pub on_release : Phase → Option Phase
on_release greeting = some bare
on_release running = some idle
on_release _ = none

abbrev pub on_buffer : Phase → Option Phase
on_buffer bare = some idle
on_buffer idle = some idle
on_buffer _ = none

abbrev pub on_next : Phase → Option Phase
on_next idle = some ready
on_next _ = none

-- USER_FAST_ACQUIRE is NEXT_PAYLOAD and ACQUIRE in one.
abbrev pub on_fast_acquire : Phase → Option Phase
on_fast_acquire idle = some running
on_fast_acquire _ = none

abbrev on_target : Phase → Option Phase
on_target running = some running
on_target _ = none

-- The phase after an event; `none` if the event is out of order.
abbrev pub step : Event → Phase → Option Phase
step (vmcall id a) p =
    if id == Nyx.acquire
    then on_acquire p
    else if id == Nyx.release
    then on_release p
    else if id == Nyx.get_payload
    then on_buffer p
    else if id == Nyx.next_payload
    then on_next p
    else if id == Nyx.user_fast_acquire
    then on_fast_acquire p
    else some p
step (call name args) p = some p
step (target x) p = on_target p

abbrev pub phase : History → Option Phase
phase [] = some bare
phase (e ∷ h) = elim (phase h) [ none ↦ none | some p ↦ step e p ]

-- No event of the history is out of order.
abbrev pub InOrder : History → Type 0
InOrder h = phase h ≢ none

-- How often the target has run.
abbrev pub runs : History → ℕ
runs [] = 0
runs (target x ∷ h) = suc (runs h)
runs (vmcall id a ∷ h) = runs h
runs (call name args ∷ h) = runs h

-- The target has run `k` times.
abbrev pub HasRun : ℕ → History → Type 0
HasRun k h = runs h ≡ k

abbrev pub AtBare : History → Type 0
AtBare h = phase h ≡ some bare

abbrev pub AtIdle : History → Type 0
AtIdle h = phase h ≡ some idle

abbrev pub AtRunning : History → Type 0
AtRunning h = phase h ≡ some running
