-- ===== src/Linux/Forkserver/Round.antt =====
-- A round of the fork server (forkserver/src/forkserver.c): the child up to the target, and what its
-- parent does about the status with which it ends.
use kafl_targets.Base.{ℕ, ⊤, Bool, true, not, String, [], ◌∷◌, ◌==◌, if◌then◌else◌}
use kafl_targets.Base.Int.{ℤ, pos, negsuc, is_minus_one}
use kafl_targets.Nyx
use kafl_targets.Machine.{
  M, skip, when, ◌>>=◌, ◌>>◌, hypercall_raw, perform, libcall, errno, hprintf, habort, payload, num,
  int, str, word, call, target,
}

abbrev pub asan_exit_code : ℕ
asan_exit_code = 101

-- SIGVTALRM on Linux.
abbrev pub sigvtalrm : ℕ
sigvtalrm = 26

-- `ERRNO_FAIL_ON(cond, msg)`
unfoldable pub errno_fail_on : Bool → String → M ⊤
unfolding hprintf habort
errno_fail_on failed msg =
    when failed (do e ← errno; hprintf "Error: %s\n" (num e ∷ []); habort msg)

-- `ret != payload_buffer->size`
differs : ℤ → ℤ → Bool
differs (pos a) (pos b) = not (a == b)
differs (negsuc a) (negsuc b) = not (a == b)
differs (pos a) (negsuc b) = true
differs (negsuc a) (pos b) = true

-- The child of a round: it fetches a payload, hands it over and becomes the target.
unfoldable pub child : Bool → M ⊤
unfolding hypercall_raw perform libcall errno_fail_on differs
child stdin_mode = do
  perform (call "atexit" (str "snapshot_reload" ∷ []))
  hypercall_raw Nyx.user_fast_acquire (word 0)
  if stdin_mode
      then (do
        ret ← libcall "pipe" []
        errno_fail_on (is_minus_one ret) "pipe"
        p ← payload
        perform (call "vmsplice" (int p.size ∷ []))
        perform (call "dup2" (num 0 ∷ []))
        perform (call "close" []))
      else do
        fd ← libcall "open" (str "/tmp/payload" ∷ [])
        errno_fail_on (is_minus_one fd) "open"
        p ← payload
        ret ← libcall "write" (int fd ∷ int p.size ∷ [])
        errno_fail_on (differs ret p.size) "write"
        perform (call "close" (int fd ∷ []))
  perform (call "setrlimit" [])
  perform (call "setitimer" (num 1 ∷ num 200 ∷ []))
  p ← payload
  perform (target p)

-- What the macros of <sys/wait.h> read from the status of a child.
pub record WaitStatus : Type 0 where
  pub wifsignaled : Bool
  pub wtermsig : ℕ
  pub wexitstatus : ℕ

-- The parent's part of a round, after `waitpid`.
unfoldable pub report : WaitStatus → M ⊤
unfolding hypercall_raw hprintf
report status = do
  if status.wifsignaled
      then (if status.wtermsig == sigvtalrm
          then hprintf "TIMEOUT found\n" []
          else (hypercall_raw Nyx.panic (word 1) >> skip))
      else when (status.wexitstatus == asan_exit_code) (hypercall_raw Nyx.kasan (word 1) >> skip)
  hypercall_raw Nyx.release (word 0)
  skip
