-- ===== src/Windows/Drivers.antt =====
-- The loaded drivers, as the kernel fuzzing agent finds them (windows_x86_64/src/driver/vuln_test.c):
-- the addresses of the bug check functions, and the range of the driver under test.
pub mod Laws
pub mod Bounds
pub mod Addresses
use kafl_targets.Base.{
  not, ◌||◌, ℕ, ⊤, ◌+◌, ◌-◌, ◌*◌, ◌%◌, ◌^◌, Bool, String, List, [], ◌∷◌, map, length, ◌==◌,
  if◌then◌else◌,
}
use kafl_targets.Base.Int.{is_zero, is_negative}
use kafl_targets.Nyx
use kafl_targets.Machine.{
  M, pure, skip, stop, ◌>>=◌, ◌>>◌, hypercall_raw, hprintf, habort, perform, libcall, libcall_word,
  call, num, str, word, range_ptr, exited,
}
use kafl_targets.Printed.{sprintf_at}

-- A loaded driver: its base address, the size of its image, its file name, and whether its path
-- holds the name of the driver under test.
pub record Module : Type 0 where
  pub base : ℕ
  pub image_size : ℕ
  pub file_name : String
  pub is_target : Bool

-- INFO_SIZE
abbrev pub info_size : ℕ
info_size = 128 * 1024

-- `KernGetProcAddress`: the offset in the image that is loaded here, from the kernel's base.
pub kern_get_proc_address : ℕ → String → M ℕ
unfolding libcall_word
kern_get_proc_address kern_base function = do
  kernel_base_in_user_mode ←
      libcall_word "LoadLibraryA" (str "C:\\Windows\\System32\\ntoskrnl.exe" ∷ [])
  p ← libcall_word "GetProcAddress" (num kernel_base_in_user_mode ∷ str function ∷ [])
  pure ((p + (2 ^ 64 - kernel_base_in_user_mode % 2 ^ 64) + kern_base) % 2 ^ 64)

-- The loop of `resolve_KeBugCheck` from the driver with number `i` on.
pub resolve_loop : String → List ℕ → ℕ → M ℕ
unfolding libcall kern_get_proc_address
resolve_loop kfunc [] i = pure 0
resolve_loop kfunc (driver ∷ more) i = do
  named ← libcall "GetDeviceDriverFileName" (num driver ∷ [])
  if is_zero named
      then resolve_loop kfunc more (i + 1)
      else if i == 0
      then (do
        ke_bug_check ← kern_get_proc_address driver kfunc
        if ke_bug_check == 0 then stop (exited 0) else pure ke_bug_check)
      else resolve_loop kfunc more (i + 1)

-- `resolve_KeBugCheck`, on the drivers that the system lists; `fits` says whether their table has
-- room for them all.
pub resolve_ke_bug_check : Bool → List ℕ → String → M ℕ
unfolding libcall resolve_loop
resolve_ke_bug_check fits drivers kfunc = do
  listed ← libcall "EnumDeviceDrivers" []
  if is_zero listed || not fits then stop (exited 0) else resolve_loop kfunc drivers 0

-- The two addresses are submitted.
submit_handlers : ℕ → ℕ → M ⊤
unfolding hprintf hypercall_raw
submit_handlers panic_kebugcheck panic_kebugcheck2 = do
  hprintf "Submitting bug check handlers\n" []
  hypercall_raw Nyx.submit_panic (word panic_kebugcheck)
  hypercall_raw Nyx.submit_panic (word panic_kebugcheck2)
  skip

-- `init_panic_handlers`
pub init_panic_handlers : Bool → List Module → M ⊤
unfolding resolve_ke_bug_check submit_handlers
init_panic_handlers fits modules = do
  panic_kebugcheck ← resolve_ke_bug_check fits (map (λ m. m.base) modules) "KeBugCheck"
  panic_kebugcheck2 ← resolve_ke_bug_check fits (map (λ m. m.base) modules) "KeBugCheckEx"
  submit_handlers panic_kebugcheck panic_kebugcheck2

-- The label `fail` of `set_ip_range`.
pub no_match : M ⊤
unfolding habort
no_match = habort "FAIL! NO MATCH!\n" >> stop (exited 1)

-- The row of a driver.
print_row : Module → ℕ → M ℕ
unfolding sprintf_at
print_row m pos =
    sprintf_at info_size "0x%p\t0x%lld\t%s\n"
      (num m.base ∷ num ((m.base + m.image_size) % 2 ^ 64) ∷ str m.file_name ∷ []) pos

-- The range of the driver under test.
submit_module : Module → M ⊤
unfolding hypercall_raw
submit_module m =
    hypercall_raw Nyx.range_submit (range_ptr m.base ((m.base + m.image_size) % 2 ^ 64) 0) >> skip

-- The loop of `set_ip_range`: a row of the table for each driver, up to the one under test.
pub submit_first : List Module → ℕ → M ⊤
unfolding print_row submit_module no_match
submit_first [] pos = no_match
submit_first (m ∷ more) pos = do
  pos' ← print_row m pos
  if m.is_target then submit_module m else submit_first more pos'

-- The head of the table.
print_head : List Module → M ℕ
unfolding sprintf_at
print_head modules =
    sprintf_at info_size "kAFL Windows x86-64 Kernel Addresses (%d Drivers)\n\n"
      (num (length modules) ∷ []) 0
    >>= sprintf_at info_size "START-ADDRESS\t\tEND-ADDRESS\t\tDRIVER\n" []

-- `set_ip_range`
pub set_ip_range : Bool → List Module → M ⊤
unfolding libcall libcall_word no_match print_head submit_first hprintf habort perform
set_ip_range fits modules = do
  info_buffer ← libcall_word "VirtualAlloc" []
  perform (call "memset" (num info_buffer ∷ num 0xff ∷ []))
  perform (call "memset" (num info_buffer ∷ num 0 ∷ []))
  listed ← libcall "EnumDeviceDrivers" []
  if is_zero listed || not fits
      then (do hprintf "%s: EnumDeviceDrivers failed\n" (str "set_ip_range" ∷ []); no_match)
      else (do
        info ← libcall_word "VirtualAlloc" []
        if info == 0 then habort "set_ip_range: VirtualAlloc failed\n" >> no_match else (do
          status ← libcall "NtQuerySystemInformation" []
          if is_negative status
              then (do
                perform (call "VirtualFree" [])
                habort "set_ip_range: NtQuerySystemInformation failed\n"
                no_match)
              else (print_head modules >>= submit_first modules)))
