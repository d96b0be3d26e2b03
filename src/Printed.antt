-- ===== src/Printed.antt =====
-- `pos += sprintf(buffer + pos, ..)`: a text is printed behind those that a buffer holds already.
use kafl_targets.Base.{ℕ, ◌+◌, ltb, String, List, ◌∷◌, ◌≤◌, ◌<◌, ◌≡◌, some, if◌then◌else◌, arith}
use kafl_targets.Machine.{
  M, Env, History, Val, libcall_word, pure, stop, str, call, bad_access, ◌>>=◌, After, Safe,
}
use kafl_targets.Cycle.{Phase, phase, InOrder}

-- The position behind the text; its terminator has to lie in the buffer too.
unfoldable pub sprintf_at : ℕ → String → List Val → ℕ → M ℕ
unfolding libcall_word
sprintf_at size format args pos = do
  n ← libcall_word "sprintf" (str format ∷ args)
  if ltb (pos + n) size then pure (pos + n) else stop bad_access

-- No text that is printed is longer than this.
abbrev pub TextsUpTo : ℕ → Env → Type 0
TextsUpTo most env =
    (h : History) (format : String) (args : List Val)
    → env.rax h (call "sprintf" (str format ∷ args)) ≤ most

pub sprintf_at-Safe :
    (most limit size : ℕ) (format : String) (args : List Val) (pos : ℕ) (env : Env) (h : History)
    → TextsUpTo most env
    → pos + most ≤ limit
    → limit < size
    → Safe (λ q _. q ≤ limit) (sprintf_at size format args pos env h)
unfolding sprintf_at
sprintf_at-Safe most limit size format args pos env h short room inside =
    ground (arith, short h format args)

pub sprintf_at-phase :
    (size : ℕ) (format : String) (args : List Val) (pos : ℕ) (p : Phase) (env : Env) (h : History)
    → phase h ≡ some p
    → After (λ _ h'. phase h' ≡ some p) InOrder (sprintf_at size format args pos env h)
unfolding sprintf_at
sprintf_at-phase size format args pos p env h at_start = ground arith
