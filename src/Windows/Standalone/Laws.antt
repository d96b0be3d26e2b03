-- ===== src/Windows/Standalone/Laws.antt =====
-- The stand-alone build: when the file fits the buffer, and how often the target runs.
use kafl_targets.Base.{
  ℕ, zero, suc, ⊤, ◌+◌, ◌-◌, ◌%◌, ◌^◌, ◌≤◌, ◌<◌, ◌≡◌, ◌≢◌, ◌↔◌, refl, ltb, false, String, [], ◌∷◌,
  arith, if◌then◌else◌,
}
use kafl_targets.Base.Int.{is_zero}
use kafl_targets.Machine.{
  M, Env, History, Returns, NoBadAccess, After-then, After-weaken, After-bind, live, call, num, str,
  perform, hprintf, ◌>>◌,
}
use kafl_targets.Cycle.{runs, HasRun}
use kafl_targets.Windows.Regions.{System, drop_va}
use kafl_targets.Windows.Regions.Laws.{Covers, drop_va-Returns}
use kafl_targets.Windows.Session.{
  allocate_buffer, announce_buffer, advise_ranges, grow_working_set, submit_mode,
}
use kafl_targets.Windows.Font.{font_round}
use kafl_targets.Windows.Font.Runs.{Makes, font_round-runs}
use kafl_targets.Windows.Standalone.{
  read_file, set_payload, set_from, open_standalone, iterations, font_standalone,
}

-- The file can be opened and read, and has this number of bytes.
pub record HoldsFile (env : Env) (path : String) (bytes : ℕ) : Type 0 where
  pub opened : (h : History) → env.rax h (call "CreateFile" (str path ∷ [])) ≢ 0
  pub sized : (h : History) (handle : ℕ) → env.rax h (call "GetFileSize" (num handle ∷ [])) ≡ bytes
  pub succeeds :
      (h : History) (size : ℕ) → is_zero (env.result h (call "ReadFile" (num size ∷ []))) ≡ false
  pub reads :
      (h : History) (size : ℕ)
      → env.rax h (call "ReadFile" (num size ∷ [])) ≡ (if ltb bytes size then bytes else size)

-- If every call returns and the file can be opened and read, `set_payload` stays in its buffer exactly
-- if the file has at most as many bytes as the buffer has behind its size; it does not look.
pub set_payload_iff :
    (env : Env) (path : String) (bytes payload_size : ℕ) (h : History)
    → HoldsFile env path bytes
    → bytes < 2 ^ 32
    → NoBadAccess (set_payload payload_size path (live env) h) ↔ (bytes ≤ payload_size - 4)
unfolding set_payload read_file
set_payload_iff env path bytes payload_size h file small =
    let opening = call "CreateFile" (str path ∷ []) in
    let sizing = call "GetFileSize" (num (env.rax h opening) ∷ []) in
    let asked = env.rax (opening ∷ h) sizing % 2 ^ 32 in
    let before = sizing ∷ opening ∷ h in
    let read = file.reads before asked in
    let sized = file.sized (opening ∷ h) (env.rax h opening) in
    (
      λ safe. ground (arith, file.opened h, sized, file.succeeds before asked, read),
      λ fits. ground (arith, file.opened h, sized, file.succeeds before asked, read),
    )

module _ (env : Env) (k : ℕ) where
  announce_buffer-runs :
      (b : ℕ) (h : History) → HasRun k h → Returns (λ _. HasRun k) (announce_buffer b (live env) h)
  unfolding announce_buffer
  announce_buffer-runs b h so_far = ground arith

  allocate_buffer-runs :
      (payload_size : ℕ) (h : History)
      → HasRun k h
      → Returns (λ _. HasRun k) (allocate_buffer payload_size (live env) h)
  unfolding allocate_buffer
  allocate_buffer-runs payload_size h so_far = ground arith

  ready-runs :
      (h : History)
      → HasRun k h
      → Returns (λ _. HasRun k) ((advise_ranges >> (grow_working_set >> submit_mode)) (live env) h)
  unfolding advise_ranges grow_working_set submit_mode
  ready-runs h so_far = ground arith

  set_payload-runs :
      (path : String) (bytes payload_size : ℕ) (h : History)
      → HoldsFile env path bytes
      → bytes < 2 ^ 32
      → bytes ≤ payload_size - 4
      → HasRun k h
      → Returns (λ _. HasRun k) (set_payload payload_size path (live env) h)
  unfolding set_payload read_file
  set_payload-runs path bytes payload_size h file small fits so_far =
      let opening = call "CreateFile" (str path ∷ []) in
      let sizing = call "GetFileSize" (num (env.rax h opening) ∷ []) in
      let asked = env.rax (opening ∷ h) sizing % 2 ^ 32 in
      let before = sizing ∷ opening ∷ h in
      ground (
        arith,
        file.opened h,
        file.sized (opening ∷ h) (env.rax h opening),
        file.succeeds before asked,
        file.reads before asked,
      )

  pub open_standalone-runs :
      (path : String) (bytes payload_size : ℕ) (h : History)
      → HoldsFile env path bytes
      → bytes < 2 ^ 32
      → bytes ≤ payload_size - 4
      → HasRun k h
      → Returns (λ _. HasRun k) (open_standalone payload_size (path ∷ []) (live env) h)
  unfolding open_standalone set_from
  open_standalone-runs path bytes payload_size h file small fits so_far =
      let ready = advise_ranges >> (grow_working_set >> submit_mode) in
      After-bind (λ _. HasRun k) (λ _. HasRun k) (λ _. ⊥) (allocate_buffer payload_size)
        (λ b. set_payload payload_size path >> (announce_buffer b >> ready)) (live env) h
        (allocate_buffer-runs payload_size h so_far)
        (λ b h1 q1.
          After-then (HasRun k) (λ _. HasRun k) (λ _. ⊥) (set_payload payload_size path)
            (announce_buffer b >> ready) (live env) h1
            (set_payload-runs path bytes payload_size h1 file small fits q1)
            (λ h2 q2.
              After-then (HasRun k) (λ _. HasRun k) (λ _. ⊥) (announce_buffer b) ready (live env) h2
                (announce_buffer-runs b h2 q2) ready-runs))

pub iterations-runs :
    (env : Env) (round : M ⊤)
    → ((k : ℕ) (h : History) → HasRun k h → Returns (λ _. HasRun (suc k)) (round (live env) h))
    → (n c k : ℕ) (h : History) → HasRun k h
    → Returns (λ _. HasRun (k + n)) (iterations round n c (live env) h)
unfolding iterations
iterations-runs env round runs_one zero c k h so_far = omega arith
iterations-runs env round runs_one (suc n) c k h so_far =
    After-then (HasRun k) (λ _. HasRun (k + suc n)) (λ _. ⊥) (hprintf _ _)
      (round >> iterations round n (c + 1)) (live env) h (unfold hprintf in so_far)
      (λ h1 q1.
        After-then (HasRun (suc k)) (λ _. HasRun (k + suc n)) (λ _. ⊥) round
          (iterations round n (c + 1)) (live env) h1 (runs_one k h1 q1)
          (λ h2 q2.
            After-weaken (λ _. HasRun (suc k + n)) (λ _. HasRun (k + suc n)) (λ _. ⊥)
              (iterations round n (c + 1) (live env) h2)
              (iterations-runs env round runs_one n (c + 1) (suc k) h2 q2)
              (λ u h3 q3. omega arith)))

-- Where every call comes back, gdiplus makes the objects that it is asked for, the walk over the
-- address space ends, and the file that is the only argument can be read and fits the buffer, the
-- stand-alone build comes to its end after five runs of the target.
pub font_standalone-runs :
    (system : System) (env : Env) (path : String) (bytes payload_size fuel : ℕ)
    → Covers system
    → Makes env
    → HoldsFile env path bytes
    → bytes < 2 ^ 32
    → bytes ≤ payload_size - 4
    → system.maximum < system.minimum + fuel
    → 0 < fuel
    → Returns
        (λ _ h'. runs h' ≡ 5)
        (font_standalone system payload_size fuel (path ∷ []) (live env) [])
unfolding font_standalone
font_standalone-runs system env path bytes payload_size fuel covers makes file small fits enough
      some_fuel =
    let opened = open_standalone payload_size (path ∷ []) in
    let rounds = iterations font_round 5 0 in
    After-then (HasRun 0) (λ _. HasRun 5) (λ _. ⊥) (perform _)
      (drop_va system fuel >> (opened >> rounds)) (live env) [] (unfold perform in refl)
      λ h1 q1.
        After-then (HasRun 0) (λ _. HasRun 5) (λ _. ⊥) (drop_va system fuel) (opened >> rounds)
          (live env) h1 (drop_va-Returns system env fuel 0 h1 covers enough some_fuel q1)
          λ h2 q2.
            After-then (HasRun 0) (λ _. HasRun 5) (λ _. ⊥) opened rounds (live env) h2
              (open_standalone-runs env 0 path bytes payload_size h2 file small fits q2)
              λ h3 q3. iterations-runs env font_round (font_round-runs env makes) 5 0 0 h3 q3
