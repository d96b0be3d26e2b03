-- ===== src/MacOs/Info.antt =====
-- The program that collects what the host should know of the system (macOS_x86_64/info/info.c).
-- INFO_SIZE of kafl_user.h is a parameter.
pub mod Takes
pub mod Parts
pub mod Bounds
use kafl_targets.Base.{
  ℕ, zero, suc, ⊤, String, length, ◌&&◌, ◌+◌, ◌-◌, ◌%◌, ◌^◌, ◌<◌, ltb, Bool, true, false, Option,
  none, some, List, [], ◌∷◌, ◌==◌, if◌then◌else◌,
}
use kafl_targets.Base.Int.{ℤ, is_zero}
use kafl_targets.Nyx
use kafl_targets.Buffer.{codes}
use kafl_targets.MacOs.Kexts.{
  Line, Commands, delimiter, append_text, run_command, pclose, kext_lines,
}
use kafl_targets.Machine.{
  M, Val, pure, skip, stop, ◌>>=◌, ◌>>◌, hypercall_raw, perform, libcall, libcall_word, call, num,
  str, word, bad_access,
}

-- ANSI_COLOR_RED, ANSI_COLOR_GREEN and ANSI_COLOR_RESET
abbrev ansi_color_red : String
ansi_color_red = "\u{1b}[31m"

abbrev ansi_color_green : String
ansi_color_green = "\u{1b}[32m"

abbrev ansi_color_reset : String
ansi_color_reset = "\u{1b}[0m"

-- A message with a coloured word.
pub record Message : Type 0 where
  pub format : String
  pub color : String

abbrev message : String → String → Message
message format color = record { format = format; color = color }

-- What `check_sip` says of a line.
sip_message : Line → Message
sip_message l =
    if l.contains "enabled"
    then message "System Integrity Protection:\t%sENABLED%s\n" ansi_color_red
    else if l.contains "disabled"
    then message "System Integrity Protection:\t%sDISABLED%s\n" ansi_color_green
    else message "System Integrity Protection:\t%sUNKNOWN%s\n" ansi_color_red

-- What `check_root` says of a user.
root_message : ℤ → Message
root_message uid =
    if is_zero uid
    then message "Root UID:\t\t\t%sTRUE%s\n" ansi_color_green
    else message "Root UID:\t\t\t%sFALSE%s\n" ansi_color_red

-- The bytes of a text with its final zero.
abbrev pub bytes_with_zero : String → ℕ
bytes_with_zero s = length (codes s) + 1

-- `info_size` is the size of the buffer, `output` what the commands print, and `sysctl` what
-- `sysctlbyname` writes.
module _ (info_size : ℕ) (output : Commands) (sysctl : String → String) where
  -- The first line of a command, as `fgets` leaves it; without one, bytes that were never written.
  first_line : String → M String
  unfolding run_command pclose
  first_line c = do
    ls ← run_command output c
    pclose
    elim ls [ [] ↦ stop bad_access | l ∷ more ↦ pure l.line ]

  -- Both values are read, the second into the size that the first has left in `size`; the texts are
  -- printed also if a call has failed, and has not written its text to the end.
  read_sysctl : String → M String
  unfolding libcall
  read_sysctl line3 = do
    released ← libcall "sysctlbyname" (str "kern.osrelease" ∷ num 0x1000 ∷ [])
    let size = bytes_with_zero (sysctl "kern.osrelease")
    versioned ← libcall "sysctlbyname" (str "kern.osversion" ∷ num size ∷ [])
    if is_zero released && is_zero versioned then pure line3 else stop bad_access

  read_version : M String
  unfolding first_line read_sysctl
  read_version = first_line "sw_vers -productVersion" >>= read_sysctl

  print_version : String → ℕ → M ℕ
  unfolding append_text
  print_version line3 =
      append_text info_size
        "XNU System Infos:%s\nproductVersion\t\t%ssysctl kern.osrelease\t%s\nsysctl kern.osversion\t%s\n\n"
        (str delimiter
          ∷ str line3
          ∷ str (sysctl "kern.osrelease")
          ∷ str (sysctl "kern.osversion")
          ∷ [])

  -- `get_system_infos`
  pub get_system_infos : ℕ → M ℕ
  unfolding read_version print_version
  get_system_infos p = read_version >>= λ line3. print_version line3 p

  print_core : String → String → ℕ → M ℕ
  unfolding append_text
  print_core addr1 addr2 =
      append_text info_size "XNU Core Address Range:%s\n0x%s\t0x%s\n\n"
        (str delimiter ∷ str addr1 ∷ str addr2 ∷ [])

  -- `get_xnu_core_addresses`
  pub get_xnu_core_addresses : ℕ → M ℕ
  unfolding first_line print_core
  get_xnu_core_addresses p = do
    addr1 ← first_line "nm /System/Library/Kernels/kernel  | head -n1"
    addr2 ← first_line "nm /System/Library/Kernels/kernel  | tail -n1"
    print_core addr1 addr2 p

  -- What is printed of the lines of `kextstat`, the first of them as it is.
  kext_table : List Line → ℕ → M ℕ
  unfolding append_text kext_lines pclose
  kext_table [] p = stop bad_access
  kext_table (l ∷ more) p = do
    p2 ← append_text info_size "%s" (str l.line ∷ []) p
    k ← kext_lines info_size more (record { start = none; offset = none; pos = p2 })
    pclose
    pure k.pos

  -- `get_xnu_kext_addresses`
  pub get_xnu_kext_addresses : ℕ → M ℕ
  unfolding append_text run_command kext_table
  get_xnu_kext_addresses p = do
    p1 ← append_text info_size "XNU Kext Address Ranges:%s\n" (str delimiter ∷ []) p
    ls ← run_command output "/usr/sbin/kextstat"
    kext_table ls p1

  closing : ℕ → M ℕ
  unfolding pclose
  closing p = pclose >> pure p

  print_message : Message → ℕ → M ℕ
  unfolding append_text
  print_message m = append_text info_size m.format (str m.color ∷ str ansi_color_reset ∷ [])

  -- The loop of `check_sip`.
  sip_lines : List Line → ℕ → M ℕ
  unfolding print_message
  sip_lines [] p = pure p
  sip_lines (l ∷ more) p = print_message (sip_message l) p >>= sip_lines more

  sip_report : List Line → ℕ → M ℕ
  unfolding sip_lines closing
  sip_report ls p = sip_lines ls p >>= closing

  -- `check_sip`
  pub check_sip : ℕ → M ℕ
  unfolding append_text run_command sip_report
  check_sip p = do
    p1 ← append_text info_size "\nSystem Status:%s\n" (str delimiter ∷ []) p
    ls ← run_command output "csrutil status"
    sip_report ls p1

  -- The loop of `check_cr3s` and of `check_kaslr`: a message for each line, by whether it holds the
  -- option.
  boot_arg_lines : String → Message → Message → List Line → ℕ → M ℕ
  unfolding print_message
  boot_arg_lines option present absent [] p = pure p
  boot_arg_lines option present absent (l ∷ more) p =
      print_message (if l.contains option then present else absent) p
      >>= boot_arg_lines option present absent more

  -- Without a line, the option is not set.
  or_absent : Message → List Line → ℕ → M ℕ
  unfolding print_message
  or_absent absent [] = print_message absent
  or_absent absent (l ∷ more) = pure

  boot_arg_report : String → Message → Message → List Line → ℕ → M ℕ
  unfolding boot_arg_lines or_absent closing
  boot_arg_report option present absent ls p =
      boot_arg_lines option present absent ls p >>= or_absent absent ls >>= closing

  -- Both functions.
  pub check_boot_arg : String → Message → Message → ℕ → M ℕ
  unfolding run_command boot_arg_report
  check_boot_arg option present absent p = do
    ls ← run_command output "nvram -p | grep \"boot-args\""
    boot_arg_report option present absent ls p

  -- `check_cr3s`
  check_cr3s : ℕ → M ℕ
  unfolding check_boot_arg
  check_cr3s =
      check_boot_arg "-no_shared_cr3"
        (message "Non-Shared CR3 (boot-args):\t%sENABLED%s\n" ansi_color_red)
        (message "Non-Shared CR3 (boot-args):\t%sDISABLED%s\n" ansi_color_green)

  -- `check_kaslr`
  check_kaslr : ℕ → M ℕ
  unfolding check_boot_arg
  check_kaslr =
      check_boot_arg "slide=0" (message "XNU KALSR (boot-args):\t\t%sDISABLED%s\n" ansi_color_green)
        (message "XNU KALSR (slide=0):\t\t%sENABLED%s\n" ansi_color_red)

  -- `check_root`
  pub check_root : ℕ → M ℕ
  unfolding libcall print_message
  check_root p = do uid ← libcall "getuid" []; print_message (root_message uid) p

  -- `main` between the buffer and the hypercall.
  collect : M ℕ
  unfolding get_system_infos get_xnu_core_addresses get_xnu_kext_addresses check_sip check_cr3s
      check_kaslr check_root
  collect =
      get_system_infos 0
      >>= get_xnu_core_addresses
      >>= get_xnu_kext_addresses
      >>= check_sip
      >>= check_cr3s
      >>= check_kaslr
      >>= check_root

  -- The report is handed to the host.
  inform : ℕ → M ⊤
  unfolding hypercall_raw
  inform info_buffer = hypercall_raw Nyx.info (word info_buffer) >> skip

  -- `main` behind the allocation of the buffer.
  fill : ℕ → M ⊤
  unfolding perform collect inform
  fill info_buffer =
      perform (call "memset" (num info_buffer ∷ num 0xff ∷ num info_size ∷ []))
      >> (collect >> inform info_buffer)

  -- `main`; MAP_FAILED is not looked for, and `memset` would write there.
  pub info_main : M ⊤
  unfolding libcall_word fill
  info_main = libcall_word "mmap" (num 0 ∷ num info_size ∷ []) >>= λ info_buffer.
      if info_buffer == 2 ^ 64 - 1 then stop bad_access else fill info_buffer
