-- ===== src/MacOs/Info/Bounds.antt =====
-- The whole report stays in the buffer.
use kafl_targets.Base.{
  ℕ, suc, ◌+◌, ◌-◌, ◌*◌, ◌<◌, ◌≤◌, ◌≡◌, String, some, List, [], ◌∷◌, length, arith,
}
use kafl_targets.Machine.{
  Env, History, Safe, Safe-bind, Safe-weaken, NoBadAccess, NoBadAccess-Safe, ◌>>=◌, ◌>>◌, perform,
  libcall_word,
}
use kafl_targets.Printed.{TextsUpTo}
use kafl_targets.MacOs.Kexts.{Line, Commands}
use kafl_targets.MacOs.Kexts.Bounds.{CountsTokens}
use kafl_targets.MacOs.Info.{
  get_system_infos, get_xnu_core_addresses, get_xnu_kext_addresses, check_sip, check_cr3s,
  check_kaslr, check_root, collect, inform, fill, info_main,
}
use kafl_targets.MacOs.Info.Takes.{Any, Takes, Takes-bind, Takes-le}
use kafl_targets.MacOs.Info.Parts.{
  HasLine, Serves, messages, get_system_infos-Takes, get_xnu_core_addresses-Takes,
  get_xnu_kext_addresses-Takes, check_sip-Takes, check_boot_arg-Takes, check_root-Takes,
}

-- Every command starts, and those of which a line is used print one; `kexts` are the extensions,
-- `sip` and `boot` the lines on the system's protection and on the boot arguments.
pub record Answers (output : Commands) (kexts sip boot : List Line) : Type 0 where
  pub version : HasLine output "sw_vers -productVersion"
  pub first : HasLine output "nm /System/Library/Kernels/kernel  | head -n1"
  pub last : HasLine output "nm /System/Library/Kernels/kernel  | tail -n1"
  pub kextstat : (l : Line) × (output "/usr/sbin/kextstat" ≡ some (l ∷ kexts))
  pub csrutil : output "csrutil status" ≡ some sip
  pub nvram : output "nvram -p | grep \"boot-args\"" ≡ some boot
  pub counts : CountsTokens kexts

-- How many texts the program prints at most.
abbrev pub texts : List Line → List Line → List Line → ℕ
texts kexts sip boot = 6 + length kexts + length sip + 2 * messages boot

length-le-messages : (ls : List Line) → length ls ≤ messages ls
length-le-messages [] = omega arith
length-le-messages (l ∷ more) = omega arith

module _ (most info_size : ℕ) (env : Env) (short : TextsUpTo most env) (output : Commands)
    (sysctl : String → String) (kexts sip boot : List Line)
    (answers : Answers output kexts sip boot) (serves : Serves env sysctl info_size) where
  -- The parts, one after the other.
  collect-Takes :
      Takes most info_size env short
        (λ p.
          get_system_infos info_size output sysctl p
          >>= get_xnu_core_addresses info_size output sysctl
          >>= get_xnu_kext_addresses info_size output sysctl
          >>= check_sip info_size output sysctl
          >>= check_cr3s info_size output sysctl
          >>= check_kaslr info_size output sysctl
          >>= check_root info_size output sysctl)
        (texts kexts sip boot)
  unfolding check_cr3s check_kaslr
  collect-Takes =
      let bind = Takes-bind most info_size env short in
      let system = get_system_infos info_size output sysctl in
      let core = get_xnu_core_addresses info_size output sysctl in
      let extensions = get_xnu_kext_addresses info_size output sysctl in
      let protection = check_sip info_size output sysctl in
      let cr3s = check_cr3s info_size output sysctl in
      let kaslr = check_kaslr info_size output sysctl in
      let root = check_root info_size output sysctl in
      let (l, e) = answers.kextstat in
      let options = length boot + (messages boot - length boot) + 0 in
      let two = λ (p : ℕ). system p >>= core in
      let three = λ (p : ℕ). two p >>= extensions in
      let four = λ (p : ℕ). three p >>= protection in
      let five = λ (p : ℕ). four p >>= cr3s in
      let six = λ (p : ℕ). five p >>= kaslr in
      Takes-le most info_size env short (λ p. six p >>= root) _ (texts kexts sip boot)
        (omega (arith, length-le-messages boot))
        (bind six root _ 1
          (bind five kaslr _ options
            (bind four cr3s _ options
              (bind three protection _ (1 + (length sip + 0))
                (bind two extensions 2 (1 + suc (length kexts))
                  (bind system core 1 1
                    (get_system_infos-Takes most info_size env short output sysctl serves
                      answers.version)
                    (get_xnu_core_addresses-Takes most info_size env short output sysctl
                      answers.first answers.last))
                  (get_xnu_kext_addresses-Takes most info_size env short output sysctl l kexts e
                    answers.counts))
                (check_sip-Takes most info_size env short output sysctl sip answers.csrutil))
              (check_boot_arg-Takes most info_size env short output sysctl _ _ _ boot
                answers.nvram))
            (check_boot_arg-Takes most info_size env short output sysctl _ _ _ boot answers.nvram))
          (check_root-Takes most info_size env short output sysctl))

  collect-Safe :
      (h : History)
      → texts kexts sip boot * most < info_size
      → Safe (λ q _. q < info_size) (collect info_size output sysctl env h)
  unfolding collect
  collect-Safe h room =
      let limit = texts kexts sip boot * most in
      Safe-weaken (λ q _. q ≤ limit) (λ q _. q < info_size) (collect info_size output sysctl env h)
        (collect-Takes 0 limit h (omega arith) room) (λ q h' q-le. omega arith)

  fill-Safe :
      (b : ℕ) (h : History)
      → texts kexts sip boot * most < info_size
      → Safe Any (fill info_size output sysctl b env h)
  unfolding fill
  fill-Safe b h room =
      let report = collect info_size output sysctl in
      let end = inform info_size output sysctl b in
      Safe-bind Any Any (perform _) (λ _. report >> end) env h (unfold perform in ground arith)
        (λ _ h1 _.
          Safe-bind (λ q _. q < info_size) Any report (λ _. end) env h1 (collect-Safe h1 room)
            (λ q h2 _. unfold inform in ground arith))

  info_main-Safe :
      (h : History)
      → texts kexts sip boot * most < info_size
      → Safe Any (info_main info_size output sysctl env h)
  unfolding info_main
  info_main-Safe h room =
      let mapped = serves.mapped h in unfold libcall_word in grind (arith, mapped, fill-Safe)

-- If no text that is printed is longer than `most`, the commands answer, `sysctlbyname` succeeds
-- where a value and its zero fit the size, kern.osrelease is no longer than its array and
-- kern.osversion no longer than kern.osrelease, there is memory for the buffer, no line on an extension has
-- more than 256 tokens, and the buffer has room for six texts, one for each extension and each line
-- on the system's protection, and two for each line on the boot arguments (two if there is none), all
-- of this length, then wherever the program is cut off it reads and writes nothing outside of its
-- buffers.
pub info_main-NoBadAccess :
    (most info_size : ℕ) (env : Env) (output : Commands) (sysctl : String → String)
    (kexts sip boot : List Line) (h : History)
    → TextsUpTo most env
    → Answers output kexts sip boot
    → Serves env sysctl info_size
    → texts kexts sip boot * most < info_size
    → NoBadAccess (info_main info_size output sysctl env h)
info_main-NoBadAccess most info_size env output sysctl kexts sip boot h short answers serves room =
    NoBadAccess-Safe Any _
      (info_main-Safe most info_size env short output sysctl kexts sip boot answers serves h room)
