-- ===== src/Windows/Image/Standalone.antt =====
-- The stand-alone build (__NOKAFL) of the program that fuzzes images
-- (windows_x86_64/src/userspace/gdiplus.cpp): the payload comes from a file, for five rounds. What it
-- shares with the program that fuzzes fonts is in Windows/Standalone.
use kafl_targets.Base.{ℕ, ⊤, ◌+◌, ◌-◌, ◌^◌, ◌≤◌, ◌<◌, ◌≡◌, String, List, [], ◌∷◌, arith}
use kafl_targets.Machine.{
  M, Env, History, Returns, After-then, After-bind, live, pure, ◌>>=◌, ◌>>◌, hprintf, perform, call,
  num, str,
}
use kafl_targets.Cycle.{runs, HasRun}
use kafl_targets.Windows.Regions.{System, drop_va}
use kafl_targets.Windows.Regions.Laws.{Covers, drop_va-Returns}
use kafl_targets.Windows.Standalone.{open_standalone, iterations}
use kafl_targets.Windows.Standalone.Laws.{HoldsFile, open_standalone-runs, iterations-runs}
use kafl_targets.Windows.Image.{locate_payload, start, char2wchar, lock_names, image_round}
use kafl_targets.Windows.Image.Runs.{Succeeds, locate_payload-runs, start-runs, image_round-runs}

-- `main` between the walk over the address space and the payload buffer; no handler is installed.
name_payload : M ℕ
unfolding hprintf char2wchar perform lock_names
name_payload = do
  hprintf "[+] payload location %s\n" (str "payload_file" ∷ [])
  payload_file_w ← char2wchar (str "payload_file")
  perform (call "wprintf" (num payload_file_w ∷ []))
  lock_names payload_file_w
  pure payload_file_w

-- `main` from the payload buffer on.
fuzz_file : ℕ → List String → ℕ → M ⊤
fuzz_file payload_size args payload_file_w =
    open_standalone payload_size args >> iterations (image_round payload_file_w) 5 0

-- `main`
image_standalone : System → ℕ → ℕ → List String → M ⊤
unfolding locate_payload start name_payload fuzz_file
image_standalone system payload_size fuel args =
    locate_payload
    >> (start >> (drop_va system fuel >> (name_payload >>= fuzz_file payload_size args)))

module _ (env : Env) (succeeds : Succeeds env) where
  name_payload-runs :
      (h : History) → HasRun 0 h → Returns (λ _. HasRun 0) (name_payload (live env) h)
  unfolding name_payload
  name_payload-runs h so_far = ground arith

  module _ (path : String) (bytes payload_size : ℕ) (file : HoldsFile env path bytes)
      (small : bytes < 2 ^ 32) (fits : bytes ≤ payload_size - 4) where
    fuzz_file-runs :
        (w : ℕ) (h : History)
        → HasRun 0 h
        → Returns (λ _. HasRun 5) (fuzz_file payload_size (path ∷ []) w (live env) h)
    unfolding fuzz_file
    fuzz_file-runs w h so_far =
        After-then (HasRun 0) (λ _. HasRun 5) (λ _. ⊥) (open_standalone payload_size (path ∷ []))
          (iterations (image_round w) 5 0) (live env) h
          (open_standalone-runs env 0 path bytes payload_size h file small fits so_far)
          (iterations-runs env (image_round w) (image_round-runs env succeeds w) 5 0 0)

    -- Where every call comes back, the path of the temporary files has at most 247 bytes, every
    -- image gives an object, the walk over the address space ends, and the file that is the only
    -- argument can be read and fits the buffer, the stand-alone build comes to its end after five
    -- runs of the target.
    image_standalone-runs :
        (system : System) (fuel : ℕ)
        → Covers system
        → system.maximum < system.minimum + fuel
        → 0 < fuel
        → Returns
            (λ _ h'. runs h' ≡ 5)
            (image_standalone system payload_size fuel (path ∷ []) (live env) [])
    unfolding image_standalone
    image_standalone-runs system fuel covers enough some_fuel =
        let rest = name_payload >>= fuzz_file payload_size (path ∷ []) in
        After-then (HasRun 0) (λ _. HasRun 5) (λ _. ⊥) locate_payload
          (start >> (drop_va system fuel >> rest)) (live env) [] (locate_payload-runs env succeeds)
          λ h1 q1.
            After-then (HasRun 0) (λ _. HasRun 5) (λ _. ⊥) start (drop_va system fuel >> rest)
              (live env) h1 (start-runs env succeeds h1 q1)
              λ h2 q2.
                After-then (HasRun 0) (λ _. HasRun 5) (λ _. ⊥) (drop_va system fuel) rest (live env)
                  h2 (drop_va-Returns system env fuel 0 h2 covers enough some_fuel q2)
                  λ h3 q3.
                    After-bind (λ _. HasRun 0) (λ _. HasRun 5) (λ _. ⊥) name_payload
                      (fuzz_file payload_size (path ∷ [])) (live env) h3 (name_payload-runs h3 q3)
                      fuzz_file-runs
