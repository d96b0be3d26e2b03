-- ===== src/MacOs/Driver/Laws.antt =====
-- What the macOS driver reads of its buffer.
use mathlib.Core.Path.{subst}
use kafl_targets.Base.{
  ℕ, zero, suc, ◌+◌, ◌<◌, ◌≡◌, ap, ◌∙◌, none, List, [], ◌∷◌, ◌++◌, length, length-append, sym,
  get_elem?, arith,
}
use kafl_targets.Base.Int.{pos}
use kafl_targets.Machine.{Env, History, call, num, stopped, bad_access, live, perform}
use kafl_targets.Buffer.{codes, chain}
use kafl_targets.Buffer.Laws.{chain-eq-prefix_of, prefix_of-outside, probe-bad_access}
use kafl_targets.MacOs.Driver.{clip, buffer_of, vuln_write}

buffer_of_lem : (user : List ℕ) (j : ℕ) → buffer_of user (length user) j ≡ get_elem? user j
unfolding buffer_of
buffer_of_lem [] j = ground arith
buffer_of_lem (x ∷ user) zero = ground arith
buffer_of_lem (x ∷ user) (suc j) = ground (arith, buffer_of_lem user j)

outside :
    (user : List ℕ) (c : ℕ) (w : List ℕ)
    → chain (buffer_of user (length user)) 0 (user ++ (c ∷ w)) ≡ none
outside user c w =
    chain-eq-prefix_of (user ++ (c ∷ w)) (buffer_of user (length user)) 0 user (λ j.
      let z : 0 + j ≡ j = omega arith in ap (buffer_of user (length user)) z ∙ buffer_of_lem user j)
    ∙ prefix_of-outside user c w

short :
    (user : List ℕ) (c : ℕ) (w : List ℕ) → codes "KERNELAFL" ≡ user ++ (c ∷ w) → length user < 255
short user c w e = omega (arith, ap length e, length-append {0} user (c ∷ w))

clip_short : (n : ℕ) → n < 255 → clip n ≡ n
unfolding clip
clip_short n lt = ground arith

-- Where every call comes back and `copyin` succeeds, a write of a proper beginning of KERNELAFL,
-- the empty one too, makes the driver compare the byte behind the user's data, which it has not
-- written.
vuln_write-bad_access :
    (user : List ℕ) (c : ℕ) (w : List ℕ) (env : Env) (h : History)
    → codes "KERNELAFL" ≡ user ++ (c ∷ w)
    → env.result h (call "copyin" (num (length user) ∷ [])) ≡ pos 0
    → vuln_write user (length user) (live env) h
      ≡ stopped bad_access (call "copyin" (num (length user) ∷ []) ∷ h)
unfolding vuln_write
vuln_write-bad_access user c w env h beginning copied =
    let same : clip (length user) ≡ length user =
      clip_short (length user) (short user c w beginning) in
    let left : chain (buffer_of user (length user)) 0 (codes "KERNELAFL") ≡ none =
      subst (λ s. chain (buffer_of user (length user)) 0 s ≡ none) (sym beginning)
        (outside user c w) in
    ground (
      arith,
      same,
      copied,
      probe-bad_access (buffer_of user (length user)) "KERNELAFL" (perform (call "*null" []))
          (live env) (call "copyin" (num (length user) ∷ []) ∷ h) left,
    )
