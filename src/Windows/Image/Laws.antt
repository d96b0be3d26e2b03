-- ===== src/Windows/Image/Laws.antt =====
-- The steps of the fuzzing cycle in the program that fuzzes images.
use kafl_targets.Base.{ℕ, ⊤, [], arith}
use kafl_targets.Nyx.{Payload, Range}
use kafl_targets.Machine.{
  Env, History, After, After-then, After-bind, M, After-repeat, ◌>>◌, ◌>>=◌, repeat,
}
use kafl_targets.Cycle.{AtBare, AtIdle, AtRunning, InOrder}
use kafl_targets.Windows.Regions.{System, drop_va}
use kafl_targets.Windows.Regions.Laws.{drop_va-phase}
use kafl_targets.Windows.Session.{open_session}
use kafl_targets.Windows.Session.Laws.{open_session-phase}
use kafl_targets.Windows.Image.{
  locate_payload, write_payload_file, try_image, from_file, image_round, start, name_payload,
  prepare, image_main,
}

try_image-phase :
    (w : ℕ) (p : Payload) (env : Env) (h : History)
    → AtRunning h
    → After (λ _. AtRunning) InOrder (try_image w p env h)
unfolding try_image from_file
try_image-phase w p env h at_start = ground arith

write_payload_file-phase :
    (p : Payload) (env : Env) (h : History)
    → AtRunning h
    → After (λ _. AtRunning) InOrder (write_payload_file p env h)
unfolding write_payload_file
write_payload_file-phase p env h at_start = ground arith

image_round-phase :
    (w : ℕ) (env : Env) (h : History) → AtIdle h → After (λ _. AtIdle) InOrder (image_round w env h)
unfolding image_round
image_round-phase w env h at_start = grind (arith, try_image-phase w, write_payload_file-phase)

locate_payload-phase : (env : Env) → After (λ _. AtBare) InOrder (locate_payload env [])
unfolding locate_payload
locate_payload-phase env = ground arith

start-phase : (env : Env) (h : History) → AtBare h → After (λ _. AtBare) InOrder (start env h)
unfolding start
start-phase env h at_start = ground arith

name_payload-phase :
    (env : Env) (h : History) → AtBare h → After (λ _. AtBare) InOrder (name_payload env h)
unfolding name_payload
name_payload-phase env h at_start = ground arith

module _ (system : System) (env : Env) where
  prepare-phase :
      (fuel : ℕ) (h : History) → AtBare h → After (λ _. AtBare) InOrder (prepare system fuel env h)
  unfolding prepare
  prepare-phase fuel h at_start =
      After-then AtBare (λ _. AtBare) InOrder start (drop_va system fuel >> name_payload) env h
        (start-phase env h at_start)
        λ h1 q1.
          After-then AtBare (λ _. AtBare) InOrder (drop_va system fuel) name_payload env h1
            (drop_va-phase system env fuel h1 q1) (name_payload-phase env)

  -- The program that fuzzes images keeps to the fuzzing cycle for any number of rounds, whatever the
  -- address space and the ranges of the host: wherever it is cut off no call is out of order, and it
  -- completes each round in the idle phase.
  pub image_main-InOrder :
      (ranges : History → ℕ → Range) (payload_size fuel n : ℕ)
      → After (λ _. AtIdle) InOrder (image_main system ranges payload_size fuel n env [])
  unfolding image_main
  image_main-InOrder ranges payload_size fuel n =
      After-then AtBare (λ _. AtIdle) InOrder locate_payload (prepare system fuel >>= rounds) env []
        (locate_payload-phase env)
        λ h1 q1.
          After-bind (λ _. AtBare) (λ _. AtIdle) InOrder (prepare system fuel) rounds env h1
            (prepare-phase fuel h1 q1)
            λ w h2 q2.
              After-then AtIdle (λ _. AtIdle) InOrder (open_session ranges payload_size)
                (repeat n (image_round w)) env h2 (open_session-phase ranges env payload_size h2 q2)
                (After-repeat AtIdle InOrder (image_round w) env (image_round-phase w env) n)
    where
      rounds : ℕ → M ⊤
      rounds w = open_session ranges payload_size >> repeat n (image_round w)
