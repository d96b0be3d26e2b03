-- ===== src/Zephyr/Target/Laws.antt =====
-- Memory safety of the Zephyr test target.
use kafl_targets.Base.{
  ℕ, ⊤, ltb, true, zero, suc, ◌+◌, ◌≤◌, ◌≡◌, ◌≢◌, refl, ap, none, List, [], ◌∷◌, ◌++◌, String,
  length, get_elem?, arith, ◌∙◌, sym,
}
use kafl_targets.Machine.{
  Env, History, NoBadAccess, ◌>>◌, perform, pure, call, skip, M, After, After-then,
}
use kafl_targets.Cycle.{AtRunning, InOrder}
use kafl_targets.Buffer.{codes, chain, probe}
use kafl_targets.Buffer.Laws.{
  After-probe, chain-eq-prefix_of, prefix_of-terminated, NonZero, probe-NoBadAccess,
  NoBadAccess-then,
}
use kafl_targets.Zephyr.Target.{input_length, clip, input_of, test_input, target_entry}

-- The bytes of `buf` up to the length `n`, with a terminator.
abbrev terminated : List ℕ → ℕ → List ℕ
terminated buf zero = 0 ∷ []
terminated [] (suc n) = 0 ∷ []
terminated (x ∷ buf) (suc n) = x ∷ terminated buf n

abbrev copied : List ℕ → ℕ → List ℕ
copied buf zero = []
copied [] (suc n) = []
copied (x ∷ buf) (suc n) = x ∷ copied buf n

terminated_lem : (buf : List ℕ) (n : ℕ) → terminated buf n ≡ copied buf n ++ (0 ∷ [])
terminated_lem buf zero = refl
terminated_lem [] (suc n) = refl
terminated_lem (x ∷ buf) (suc n) = ap (λ r. x ∷ r) (terminated_lem buf n)

input_of_lem :
    (buf : List ℕ) (n : ℕ)
    → n ≤ length buf
    → (j : ℕ) → input_of buf n j ≡ get_elem? (terminated buf n) j
unfolding input_of
input_of_lem buf zero le zero = ground arith
input_of_lem buf zero le (suc j) = ground arith
input_of_lem [] (suc n) le j = elim le [ ]
input_of_lem (x ∷ buf) (suc n) le zero = ground arith
input_of_lem (x ∷ buf) (suc n) le (suc j) = ground (arith, input_of_lem buf n (omega arith) j)

module _ (buf : List ℕ) (n : ℕ) (le : n ≤ length buf) where
  chain_inside : (w : List ℕ) → NonZero w → chain (input_of buf n) 0 w ≢ none
  chain_inside w nz e = prefix_of-terminated (copied buf n) w nz (
      rw (← terminated_lem buf n) (
        sym (
          chain-eq-prefix_of w (input_of buf n) 0 (terminated buf n) (λ j.
            let z : 0 + j ≡ j = omega arith in ap (input_of buf n) z ∙ input_of_lem buf n le j))
        ∙ e))

  check :
      (w e : String) (env : Env) (h : History)
      → NonZero (codes w)
      → NoBadAccess (probe (input_of buf n) w (perform (call e [])) env h)
  unfolding perform
  check w e env h nz =
      probe-NoBadAccess (input_of buf n) w (perform (call e [])) env h (chain_inside (codes w) nz)
        (ground arith)

-- The copy and its terminator fit the local array.
clip_inside : (len : ℕ) → ltb (clip len) input_length ≡ true
unfolding clip
clip_inside len = ground arith

test_input-NoBadAccess :
    (buf : List ℕ) (n : ℕ) (env : Env) (h : History)
    → n ≤ length buf
    → NoBadAccess (test_input buf n env h)
unfolding test_input
test_input-NoBadAccess buf n env h le =
    let test = λ (w e : String). probe (input_of buf n) w (perform (call e [])) in
    let last = test "RedQueen" "k_oops" >> pure n in
    let third = test "KASAN" "k_oops" >> last in
    let second = test "SERGEJ" "k_panic" >> third in
    NoBadAccess-then (test "KERNELAFL" "k_panic") second env h
      (check buf n le "KERNELAFL" "k_panic" env h (omega arith))
      λ h1.
        NoBadAccess-then (test "SERGEJ" "k_panic") third env h1
          (check buf n le "SERGEJ" "k_panic" env h1 (omega arith))
          λ h2.
            NoBadAccess-then (test "KASAN" "k_oops") last env h2
              (check buf n le "KASAN" "k_oops" env h2 (omega arith))
              λ h3.
                NoBadAccess-then (test "RedQueen" "k_oops") (pure n) env h3
                  (check buf n le "RedQueen" "k_oops" env h3 (omega arith)) (λ _. tt)

-- On a payload that holds the bytes of its length, the test target of Zephyr writes nothing outside
-- of its local array, and reads no byte there that it has not written before: a short input is cut
-- off by its terminator.
pub target_entry-NoBadAccess :
    (buf : List ℕ) (len : ℕ) (env : Env) (h : History)
    → len ≤ length buf
    → NoBadAccess (target_entry buf len env h)
unfolding target_entry
target_entry-NoBadAccess buf len env h holds =
    let le : clip len ≤ length buf = unfold clip in ground arith in
    rw (clip_inside len) (test_input-NoBadAccess buf (clip len) env h le)

test_input-phase :
    (buf : List ℕ) (n : ℕ) (env : Env) (h : History)
    → AtRunning h
    → After (λ _. AtRunning) InOrder ((test_input buf n >> skip) env h)
unfolding test_input perform
test_input-phase buf n env h running =
    After-then AtRunning (λ _. AtRunning) InOrder
      (first >> (second >> (third >> (fourth >> pure n)))) skip env h
      (next first (second >> (third >> (fourth >> pure n))) h (test "KERNELAFL" "k_panic" h running)
        λ h1 r1.
          next second (third >> (fourth >> pure n)) h1 (test "SERGEJ" "k_panic" h1 r1) λ h2 r2.
            next third (fourth >> pure n) h2 (test "KASAN" "k_oops" h2 r2)
              λ h3 r3. next fourth (pure n) h3 (test "RedQueen" "k_oops" h3 r3) (λ h4 r4. r4))
      (λ h' r. r)
  where
    probe_for : String → String → M ⊤
    probe_for w e = probe (input_of buf n) w (perform (call e []))

    first : M ⊤
    first = probe_for "KERNELAFL" "k_panic"

    second : M ⊤
    second = probe_for "SERGEJ" "k_panic"

    third : M ⊤
    third = probe_for "KASAN" "k_oops"

    fourth : M ⊤
    fourth = probe_for "RedQueen" "k_oops"

    test :
        (w e : String) (h' : History)
        → AtRunning h'
        → After (λ _. AtRunning) InOrder (probe_for w e env h')
    test w e h' r =
        After-probe AtRunning InOrder (input_of buf n) w (perform (call e [])) env h' r
          (ground arith) (ground arith)

    next :
        (m : M ⊤) (k : M ℕ) (h' : History)
        → After (λ _. AtRunning) InOrder (m env h')
        → ((h2 : History) → AtRunning h2 → After (λ _. AtRunning) InOrder (k env h2))
        → After (λ _. AtRunning) InOrder ((m >> k) env h')
    next m k h' = After-then AtRunning (λ _. AtRunning) InOrder m k env h'

-- The test target leaves the fuzzing cycle to the agent.
pub target_entry-phase :
    (buf : List ℕ) (len : ℕ) (env : Env) (h : History)
    → AtRunning h
    → After (λ _. AtRunning) InOrder ((target_entry buf len >> skip) env h)
unfolding target_entry
target_entry-phase buf len env h running =
    rw (clip_inside len) (test_input-phase buf (clip len) env h running)
