-- ===== src/Linux/Agent/Transfer/Received.antt =====
-- What the host holds after `hpush_file`.
use kafl_targets.Base.{◌≡◌, [], ◌∷◌, String, false}
use kafl_targets.Base.Int.{is_negative}
use kafl_targets.Machine.{Env, History, call, num, str}

-- A file can be opened.
abbrev pub CanOpen : Env → String → Type 0
CanOpen env src =
    (h : History) → is_negative (env.result h (call "open" (str src ∷ num 0 ∷ []))) ≡ false
