-- ===== src/Windows/Exceptions.antt =====
-- The exception handler of the gdiplus programs (windows_x86_64/src/userspace/gdiplus.cpp; the same
-- text is in gdiplus_loadfont.cpp).
use kafl_targets.Base.{⊤, Bool, true, false, ◌∷◌, ◌≡◌, ◌≢◌, arith}
use kafl_targets.Base.Int.{ℤ, pos}
use kafl_targets.Nyx
use kafl_targets.Machine.{
  M, pure, stop, when, ◌>>◌, hypercall_raw, word, no_return, Env, History, After, vmcall,
}

-- The exceptions that the handler tells apart; `heap_corruption` is 0xc0000374.
pub data ExceptionCode : Type 0 where
  access_violation illegal_instruction heap_corruption : ExceptionCode
  stack_overflow stack_buffer_overrun fatal_app_exit other : ExceptionCode

abbrev pub is_fatal : ExceptionCode → Bool
is_fatal other = false
is_fatal _ = true

-- `panic`: the hypercall, and a loop without end.
panic : M ⊤
unfolding hypercall_raw
panic = hypercall_raw Nyx.panic (word 1) >> stop no_return

-- `exc_handle`
exc_handle : ExceptionCode → M ℤ
unfolding panic
exc_handle exception_code = when (is_fatal exception_code) panic >> pure (pos 1)

-- The handler comes back for an exception that is not fatal, and has placed no call then. For a fatal
-- one it does not come back, whatever becomes of its only call, which is a PANIC.
exc_handle_lem :
    (exception_code : ExceptionCode) (env : Env) (h : History)
    → After
        (λ _ h'. (exception_code ≡ other) × (h' ≡ h))
        (λ h'. (exception_code ≢ other) × (h' ≡ vmcall Nyx.panic (word 1) ∷ h))
        (exc_handle exception_code env h)
unfolding exc_handle
exc_handle_lem exception_code env h = ground arith
