-- ===== src/Linux/Vmcall.antt =====
-- The command line tool vmcall (vmcall/src/vmcall.c): its subcommands and their dispatch. A list
-- of arguments is argv from `optind` on. `getopt`, `basename` and `sscanf` are parameters.
pub mod Laws
pub mod Range
pub mod Silent
pub mod Files
use Prim.Native.String.{String}
use package.text.Mathlib.Text.{starts_with, ◌==◌ as str_eq}
use kafl_targets.Base.{
  ℕ, ◌+◌, ◌%◌, ◌^◌, ◌-◌, Bool, false, ltb, Option, none, some, List, [], ◌∷◌, ◌==◌, if◌then◌else◌,
}
use kafl_targets.Base.Int.{ℤ, pos, negsuc, is_zero}
use kafl_targets.Nyx
use kafl_targets.Machine.{
  M, pure, ◌>>=◌, ◌>>◌, libcall, libcall_word, perform, call, errno, num, str, word, text,
}
use kafl_targets.Linux.Agent.Cpu.{
  CpuType, nyx_cpu_v1, nyx_cpu_v2, nyx_cpu_none, nyx_cpu_invalid, get_nyx_cpu_type, hypercall,
  habort_msg,
}
use kafl_targets.Linux.Agent.Transfer.{hprintf_from_file, hget_file, hpush_file}
use kafl_targets.Linux.Agent.Host.{check_host_magic}
use kafl_targets.Linux.Vmcall.Range.{einval, cmd_hrange}

-- What `getopt` makes of the arguments: the options with their values, and the operands.
pub record Parsed : Type 0 where
  pub options : List (String × String)
  pub operands : List String

pub record Library : Type 0 where
  pub getopt : String → List String → Parsed
  pub basename : String → String
  pub scan_range : String → Option (ℕ × ℕ × ℕ)

-- A `size_t` returned as an `int`.
abbrev to_int : ℕ → ℤ
to_int n = if ltb (n % 2 ^ 32) (2 ^ 31) then pos (n % 2 ^ 32) else negsuc (2 ^ 32 - n % 2 ^ 32 - 1)

-- `written += r`, with a signed `r` added to a `size_t`.
abbrev add_ssize : ℕ → ℤ → ℕ
add_ssize written (pos r) = (written + r) % 2 ^ 64
add_ssize written (negsuc r) = (written + 2 ^ 64 - r - 1) % 2 ^ 64

-- The options of `cmd_hget`: the file mode and the destination; `none` is the usage error.
hget_options : List (String × String) → ℕ → Option String → Option (ℕ × Option String)
hget_options [] fmode dst_root = some (fmode, dst_root)
hget_options ((opt, value) ∷ more) fmode dst_root =
    let x = hget_options more 0o775 dst_root in
    let o = hget_options more fmode (some value) in
    if str_eq opt "x" then x else if str_eq opt "o" then o else none

-- The options of `cmd_hpush`.
hpush_options : List (String × String) → ℕ → Option String → Option (ℕ × Option String)
hpush_options [] append dst_name = some (append, dst_name)
hpush_options ((opt, value) ∷ more) append dst_name =
    let a = hpush_options more 1 dst_name in
    let o = hpush_options more append (some value) in
    if str_eq opt "a" then a else if str_eq opt "o" then o else none

abbrev pub is_einval : ℤ → Bool
is_einval (pos n) = false
is_einval (negsuc n) = n == 21

module _ (lib : Library) (depth fuel : ℕ) (cpu : CpuType) where
  -- The file arguments of `cmd_hcat`.
  pub hcat_files : List String → ℕ → M ℤ
  unfolding libcall_word hprintf_from_file
  hcat_files [] written = pure (if ltb 0 written then pos 0 else pos 1)
  hcat_files (name ∷ more) written = do
    f ← libcall_word "fopen" (str name ∷ str "r" ∷ [])
    if f == 0
        then pure (to_int written)
        else do r ← hprintf_from_file depth cpu fuel f; hcat_files more (add_ssize written r)

  cmd_hcat : List String → M ℤ
  unfolding libcall hcat_files hprintf_from_file
  cmd_hcat args = do
    tty ← libcall "isatty" (num 0 ∷ [])
    if is_zero tty
        then (do r ← hprintf_from_file depth cpu fuel 0; hcat_files args (add_ssize 0 r))
        else hcat_files args 0

  cmd_habort : List String → M ℤ
  unfolding habort_msg
  cmd_habort [] = habort_msg depth cpu "vmcall/habort called." >> pure (pos 0)
  cmd_habort (msg ∷ more) = habort_msg depth cpu msg >> pure (pos 0)

  cmd_hpanic : List String → M ℤ
  unfolding hypercall
  cmd_hpanic [] = hypercall depth cpu Nyx.panic (word 0) >> pure (pos 0)
  cmd_hpanic (msg ∷ more) = hypercall depth cpu Nyx.panic_extended (text msg) >> pure (pos 0)

  -- The files of `cmd_hget`, up to the first that fails.
  hget_files : ℕ → List String → M ℤ
  unfolding hget_file
  hget_files fmode [] = pure (pos 0)
  hget_files fmode (name ∷ more) = do
    ret ← hget_file depth cpu lib.basename fuel name fmode
    if is_zero ret then hget_files fmode more else pure ret

  -- `chdir(dst_root)`, if a destination is given; `none` is success.
  enter_root : Option String → M (Option ℤ)
  unfolding libcall perform
  enter_root none = pure none
  enter_root (some dst_root) = do
    ret ← libcall "chdir" (str dst_root ∷ [])
    perform (call "free" (str dst_root ∷ []))
    if is_zero ret then pure none else do e ← errno; pure (some (pos e))

  -- The part of `cmd_hget` behind its options.
  hget_operands : ℕ → Option String → List String → M ℤ
  unfolding enter_root hget_files
  hget_operands fmode dst_root [] = pure einval
  hget_operands fmode dst_root (name ∷ more) = do
    failed ← enter_root dst_root
    elim failed [ some e ↦ pure e | none ↦ hget_files fmode (name ∷ more) ]

  cmd_hget : List String → M ℤ
  unfolding hget_options hget_operands
  cmd_hget args =
      let p = lib.getopt "xo:" args in
      elim (hget_options p.options 0o664 none) [
        | none ↦ pure einval
        | some (fmode, dst_root) ↦ hget_operands fmode dst_root p.operands
      ]

  -- The part of `cmd_hpush` behind its options.
  hpush_operands : ℕ → Option String → List String → M ℤ
  unfolding hpush_file perform
  hpush_operands append dst_name [] = pure einval
  hpush_operands append none (src_path ∷ []) = do
    ret ← hpush_file fuel src_path (lib.basename src_path) append
    perform (call "free" (str src_path ∷ []))
    pure ret
  hpush_operands append (some dst_name) (src_path ∷ []) = do
    ret ← hpush_file fuel src_path dst_name append
    perform (call "free" (str dst_name ∷ []))
    pure ret
  hpush_operands append dst_name (src_path ∷ another ∷ more) = pure einval

  cmd_hpush : List String → M ℤ
  unfolding hpush_options hpush_operands
  cmd_hpush args =
      let p = lib.getopt "ao:" args in
      elim (hpush_options p.options 0 none) [
        | none ↦ pure einval
        | some (append, dst_name) ↦ hpush_operands append dst_name p.operands
      ]

  -- `cmd_check`; -nyx_cpu_type is -1 or -2.
  pub cmd_check : List String → M ℤ
  unfolding check_host_magic habort_msg
  cmd_check args = elim cpu [
    | nyx_cpu_v1 ↦ check_as (pos 1) (negsuc 0)
    | nyx_cpu_v2 ↦ check_as (pos 2) (negsuc 1)
    | nyx_cpu_none ↦ pure (pos 0)
    | nyx_cpu_invalid ↦ pure (pos 0)
  ]
    where
      check_as : ℤ → ℤ → M ℤ
      check_as good bad = do
        magic ← check_host_magic depth cpu
        if is_zero magic
            then pure good
            else habort_msg depth cpu "[check] Incompatible host magic or version." >> pure bad

  cmd_hlock : M ℤ
  unfolding hypercall
  cmd_hlock = hypercall depth cpu Nyx.lock (word 0) >> pure (pos 0)

  -- `cmd_dispatch`, with `cmd_vmcall` at its first entry. Behind the last argument `basename(NULL)`
  -- is ".", which begins with no command.
  pub cmd_dispatch : List String → M ℤ
  unfolding cmd_hcat cmd_habort cmd_hpanic cmd_hget cmd_hpush cmd_hrange cmd_check cmd_hlock
  cmd_dispatch [] = pure einval
  cmd_dispatch (arg ∷ args) =
      let name = lib.basename arg in
      let inner = cmd_dispatch args in
      if starts_with name "vmcall"
      then (do ret ← inner; pure (if is_einval ret then pos 0 else ret))
      else if starts_with name "hcat"
      then cmd_hcat args
      else if starts_with name "habort"
      then cmd_habort args
      else if starts_with name "hget"
      then cmd_hget args
      else if starts_with name "hpush"
      then cmd_hpush args
      else if starts_with name "hpanic"
      then cmd_hpanic args
      else if starts_with name "hrange"
      then cmd_hrange lib.scan_range depth cpu args
      else if starts_with name "hlock"
      then cmd_hlock
      else if starts_with name "check"
      then cmd_check args
      else pure einval

-- `main`; the global CPU type starts as invalid. The usage text is printed to stderr.
pub vmcall_main : Library → ℕ → ℕ → List ℕ → List String → M ℤ
unfolding get_nyx_cpu_type
vmcall_main lib depth fuel regs argv =
    cmd_dispatch lib depth fuel (get_nyx_cpu_type regs nyx_cpu_invalid) argv
