-- ===== src/MacOs/Info/Parts.antt =====
-- How many texts each part of the program prints at most, and that they stay in the buffer.
use kafl_targets.Base.{
  ℕ, suc, if◌then◌else◌, ◌^◌, ◌≢◌, true, ◌+◌, ◌-◌, ◌≤◌, ◌≡◌, String, none, some, List, [], ◌∷◌,
  length, arith,
}
use kafl_targets.Machine.{
  M, Env, History, call, num, str, libcall, Safe, Safe-bind, ◌>>=◌, ◌>>◌, pure,
}
use kafl_targets.Base.Int.{is_zero}
use kafl_targets.Printed.{TextsUpTo}
use kafl_targets.MacOs.Kexts.{Kext, Line, Commands, append_text, run_command, pclose, kext_lines}
use kafl_targets.MacOs.Kexts.Bounds.{CountsTokens, append_text-Safe, kext_lines-Safe}
use kafl_targets.MacOs.Info.{
  Message, bytes_with_zero, first_line, read_sysctl, read_version, print_version, get_system_infos,
  print_core, get_xnu_core_addresses, get_xnu_kext_addresses, closing, kext_table, sip_report,
  or_absent, boot_arg_report, print_message, sip_message, root_message, sip_lines, check_sip,
  boot_arg_lines, check_boot_arg, check_root,
}
use kafl_targets.MacOs.Info.Takes.{
  Any, Takes, Takes-bind, Takes-more, Takes-pure, append_text-Takes, Takes-then, run_command-Safe,
}

-- The command prints a line.
abbrev pub HasLine : Commands → String → Type 0
HasLine output c = (l : Line) × (more : List Line) × (output c ≡ some (l ∷ more))

-- `sysctlbyname` succeeds where the value and its zero fit the size; both values fit, that of
-- kern.osversion what that of kern.osrelease has left; and there is memory for the buffer.
pub record Serves (env : Env) (sysctl : String → String) (info_size : ℕ) : Type 0 where
  pub fits :
      (h : History) (name : String) (size : ℕ)
      → bytes_with_zero (sysctl name) ≤ size
      → is_zero (env.result h (call "sysctlbyname" (str name ∷ num size ∷ []))) ≡ true
  pub release_fits : bytes_with_zero (sysctl "kern.osrelease") ≤ 0x1000
  pub version_fits :
      bytes_with_zero (sysctl "kern.osversion") ≤ bytes_with_zero (sysctl "kern.osrelease")
  pub mapped : (h : History) → env.rax h (call "mmap" (num 0 ∷ num info_size ∷ [])) ≢ 2 ^ 64 - 1

-- Without a line there is one message.
abbrev pub messages : List Line → ℕ
messages [] = 1
messages (l ∷ more) = length (l ∷ more)

module _ (most info_size : ℕ) (env : Env) (short : TextsUpTo most env) where
  module _ (output : Commands) (sysctl : String → String) where
    first_line-Safe :
        (c : String)
        → HasLine output c
        → (h : History) → Safe Any (first_line info_size output sysctl c env h)
    unfolding first_line
    first_line-Safe c (l, more, e) h = unfold run_command pclose in ground arith

    -- A report on the lines of a command.
    commanded :
        (c : String) (ls : List Line) (report : List Line → ℕ → M ℕ) (n : ℕ)
        → output c ≡ some ls
        → Takes most info_size env short (report ls) n
        → Takes most info_size env short (λ p. run_command output c >>= λ r. report r p) n
    commanded c ls report n e takes =
        Takes-then most info_size env short (λ r _. r ≡ ls) (run_command output c) report n
          (run_command-Safe most info_size env short output c ls e) (λ r h q. rw q takes)

    read_sysctl-Safe :
        Serves env sysctl info_size
        → (line3 : String) (h : History)
        → Safe Any (read_sysctl info_size output sysctl line3 env h)
    unfolding read_sysctl
    read_sysctl-Safe serves line3 h =
        let size = bytes_with_zero (sysctl "kern.osrelease") in
        let release = call "sysctlbyname" (str "kern.osrelease" ∷ num 0x1000 ∷ []) in
        let first = serves.fits h "kern.osrelease" 0x1000 serves.release_fits in
        let second = serves.fits (release ∷ h) "kern.osversion" size serves.version_fits in
        unfold libcall in ground (arith, first, second)

    read_version-Safe :
        Serves env sysctl info_size
        → HasLine output "sw_vers -productVersion"
        → (h : History) → Safe Any (read_version info_size output sysctl env h)
    unfolding read_version
    read_version-Safe serves version h =
        Safe-bind Any Any (first_line info_size output sysctl _)
          (read_sysctl info_size output sysctl) env h (first_line-Safe _ version h)
          (λ line3 h' _. read_sysctl-Safe serves line3 h')

    pub get_system_infos-Takes :
        Serves env sysctl info_size
        → HasLine output "sw_vers -productVersion"
        → Takes most info_size env short (get_system_infos info_size output sysctl) 1
    unfolding get_system_infos print_version
    get_system_infos-Takes serves version =
        Takes-then most info_size env short Any (read_version info_size output sysctl)
          (print_version info_size output sysctl) 1 (read_version-Safe serves version)
          (λ line3 _ _. append_text-Takes most info_size env short _ _)

    print_core-Takes :
        (a b : String) → Takes most info_size env short (print_core info_size output sysctl a b) 1
    unfolding print_core
    print_core-Takes a b = append_text-Takes most info_size env short _ _

    pub get_xnu_core_addresses-Takes :
        HasLine output "nm /System/Library/Kernels/kernel  | head -n1"
        → HasLine output "nm /System/Library/Kernels/kernel  | tail -n1"
        → Takes most info_size env short (get_xnu_core_addresses info_size output sysctl) 1
    unfolding get_xnu_core_addresses
    get_xnu_core_addresses-Takes first last =
        let line = first_line info_size output sysctl in
        let print = print_core info_size output sysctl in
        let last_line : String = "nm /System/Library/Kernels/kernel  | tail -n1" in
        Takes-then most info_size env short Any (line _)
          (λ a p. line last_line >>= λ b. print a b p) 1 (first_line-Safe _ first)
          (λ a _ _.
            Takes-then most info_size env short Any (line last_line) (print a) 1
              (first_line-Safe _ last) (λ b _ _. print_core-Takes a b))

    closing-Takes : Takes most info_size env short (closing info_size output sysctl) 0
    unfolding closing
    closing-Takes p limit h room inside = unfold pclose in ground arith

    print_message-Takes :
        (m : Message) → Takes most info_size env short (print_message info_size output sysctl m) 1
    unfolding print_message
    print_message-Takes m = append_text-Takes most info_size env short _ _

    sip_lines-Takes :
        (ls : List Line)
        → Takes most info_size env short (sip_lines info_size output sysctl ls) (length ls)
    unfolding sip_lines
    sip_lines-Takes [] = Takes-pure most info_size env short
    sip_lines-Takes (l ∷ more) =
        Takes-more most info_size env short (print_message info_size output sysctl (sip_message l))
          (sip_lines info_size output sysctl more) (length more)
          (print_message-Takes (sip_message l)) (sip_lines-Takes more)

    boot_arg_lines-Takes :
        (option : String) (present absent : Message) (ls : List Line)
        → Takes most info_size env short
            (boot_arg_lines info_size output sysctl option present absent ls)
            (length ls)
    unfolding boot_arg_lines
    boot_arg_lines-Takes option present absent [] = Takes-pure most info_size env short
    boot_arg_lines-Takes option present absent (l ∷ more) =
        let m = if l.contains option then present else absent in
        Takes-more most info_size env short (print_message info_size output sysctl m)
          (boot_arg_lines info_size output sysctl option present absent more) (length more)
          (print_message-Takes m) (boot_arg_lines-Takes option present absent more)

    kext_table-Takes :
        (l : Line) (more : List Line)
        → CountsTokens more
        → Takes most info_size env short
            (kext_table info_size output sysctl (l ∷ more))
            (suc (length more))
    unfolding kext_table
    kext_table-Takes l more counts p limit h room inside =
        Safe-bind (λ q _. q ≤ p + most) (λ q _. q ≤ limit) (append_text info_size _ _ p)
          (λ q. kext_lines info_size more (record { start = none; offset = none; pos = q }) >>= λ k.
            pclose >> pure k.pos)
          env h
          (append_text-Safe most info_size env short (p + most) _ _ p h (omega arith) (grind arith))
          (λ q h1 q-le.
            Safe-bind (λ (k : Kext) _. k.pos ≤ limit) (λ q' _. q' ≤ limit)
              (kext_lines info_size more _) (λ k. pclose >> pure k.pos) env h1
              (kext_lines-Safe most info_size env short limit more _ h1 counts (grind arith) inside)
              (λ k h2 k-le. unfold pclose in ground arith))

    pub get_xnu_kext_addresses-Takes :
        (l : Line) (more : List Line)
        → output "/usr/sbin/kextstat" ≡ some (l ∷ more)
        → CountsTokens more
        → Takes most info_size env short
            (get_xnu_kext_addresses info_size output sysctl)
            (1 + suc (length more))
    unfolding get_xnu_kext_addresses
    get_xnu_kext_addresses-Takes l more e counts =
        let table = kext_table info_size output sysctl in
        Takes-bind most info_size env short (append_text info_size _ _)
          (λ p. run_command output "/usr/sbin/kextstat" >>= λ r. table r p) 1 (suc (length more))
          (append_text-Takes most info_size env short _ _)
          (commanded _ (l ∷ more) table (suc (length more)) e (kext_table-Takes l more counts))

    sip_report-Takes :
        (ls : List Line)
        → Takes most info_size env short (sip_report info_size output sysctl ls) (length ls + 0)
    unfolding sip_report
    sip_report-Takes ls =
        Takes-bind most info_size env short (sip_lines info_size output sysctl ls)
          (closing info_size output sysctl) (length ls) 0 (sip_lines-Takes ls) closing-Takes

    pub check_sip-Takes :
        (ls : List Line)
        → output "csrutil status" ≡ some ls
        → Takes most info_size env short (check_sip info_size output sysctl) (1 + (length ls + 0))
    unfolding check_sip
    check_sip-Takes ls e =
        let report = sip_report info_size output sysctl in
        Takes-bind most info_size env short (append_text info_size _ _)
          (λ p. run_command output "csrutil status" >>= λ r. report r p) 1 (length ls + 0)
          (append_text-Takes most info_size env short _ _)
          (commanded _ ls report (length ls + 0) e (sip_report-Takes ls))

    or_absent-Takes :
        (absent : Message) (ls : List Line)
        → Takes most info_size env short
            (λ p. or_absent info_size output sysctl absent ls p)
            (messages ls - length ls)
    unfolding or_absent
    or_absent-Takes absent [] p limit h room inside =
        print_message-Takes absent p limit h (omega arith) inside
    or_absent-Takes absent (l ∷ more) p limit h room inside = omega arith

    pub check_boot_arg-Takes :
        (option : String) (present absent : Message) (ls : List Line)
        → output "nvram -p | grep \"boot-args\"" ≡ some ls
        → Takes most info_size env short
            (check_boot_arg info_size output sysctl option present absent)
            (length ls + (messages ls - length ls) + 0)
    unfolding check_boot_arg boot_arg_report
    check_boot_arg-Takes option present absent ls e =
        let lines = boot_arg_lines info_size output sysctl option present absent ls in
        let extra = or_absent info_size output sysctl absent ls in
        commanded _ ls (boot_arg_report info_size output sysctl option present absent) _ e (
          Takes-bind most info_size env short (λ p. lines p >>= extra)
            (closing info_size output sysctl) _ 0
            (Takes-bind most info_size env short lines extra (length ls) (messages ls - length ls)
              (boot_arg_lines-Takes option present absent ls) (or_absent-Takes absent ls))
            closing-Takes)

    pub check_root-Takes : Takes most info_size env short (check_root info_size output sysctl) 1
    unfolding check_root
    check_root-Takes =
        Takes-then most info_size env short Any (libcall "getuid" [])
          (λ uid. print_message info_size output sysctl (root_message uid)) 1
          (λ h. unfold libcall in ground arith) (λ uid _ _. print_message-Takes (root_message uid))
