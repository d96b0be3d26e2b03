-- ===== src/Windows/Drivers/Addresses.antt =====
-- Which addresses the agent submits as those of the kernel's bug check functions.
use kafl_targets.Base.{
  ℕ, suc, ◌+◌, ◌^◌, ◌<◌, ◌≡◌, ◌==◌, refl, Bool, true, false, not, String, List, [], ◌∷◌, map, arith,
  if◌then◌else◌,
}
use kafl_targets.Base.Int.{is_zero}
use kafl_targets.Nyx
use kafl_targets.Machine.{
  Env, History, Arg, vmcall, call, target, word, num, str, live, stop, pure, exited, After-bind,
  Returns, ◌>>=◌,
}
use kafl_targets.Windows.Drivers.{
  Module, kern_get_proc_address, resolve_loop, resolve_ke_bug_check, submit_handlers,
  init_panic_handlers,
}

abbrev word_of : Arg → List ℕ → List ℕ
word_of (word a) l = a ∷ l
word_of _ l = l

-- The panic addresses that a history submits, the latest first.
abbrev pub panics : History → List ℕ
panics [] = []
panics (vmcall id a ∷ h) = if id == Nyx.submit_panic then word_of a (panics h) else panics h
panics (call name args ∷ h) = panics h
panics (target p ∷ h) = panics h

-- The system lists its drivers.
abbrev pub Lists : Env → Type 0
Lists env = (h : History) → is_zero (env.result h (call "EnumDeviceDrivers" [])) ≡ false

-- Whether the system tells the file name of a driver.
abbrev pub Named : Env → ℕ → Bool → Type 0
Named env driver named =
    (h : History)
    → is_zero (env.result h (call "GetDeviceDriverFileName" (num driver ∷ []))) ≡ not named

-- The kernel's image is loaded at `image` here, with each of its functions at an offset.
pub record Loads (env : Env) (image : ℕ) (offset : String → ℕ) : Type 0 where
  pub loaded :
      (h : History)
      → env.rax h (call "LoadLibraryA" (str "C:\\Windows\\System32\\ntoskrnl.exe" ∷ [])) ≡ image
  pub exported :
      (h : History) (f : String)
      → env.rax h (call "GetProcAddress" (num image ∷ str f ∷ [])) ≡ image + offset f

-- The search comes back with `a`, and submits nothing.
abbrev Finds : ℕ → History → ℕ → History → Type 0
Finds a h q h' = (q ≡ a) × (panics h' ≡ panics h)

kern_get_proc_address-Finds :
    (kernel image : ℕ) (offset : String → ℕ) (f : String) (env : Env) (h : History)
    → Loads env image offset
    → image + offset f < 2 ^ 64
    → kernel + offset f < 2 ^ 64
    → Returns (Finds (kernel + offset f) h) (kern_get_proc_address kernel f (live env) h)
unfolding kern_get_proc_address
kern_get_proc_address-Finds kernel image offset f env h loads in_image in_kernel =
    let loading = call "LoadLibraryA" (str "C:\\Windows\\System32\\ntoskrnl.exe" ∷ []) in
    rw (loads.loaded h, loads.exported (loading ∷ h) f) (omega arith, refl)

-- Behind the first driver the loop finds nothing.
resolve_loop-later :
    (kfunc : String) (drivers : List ℕ) (i : ℕ) (env : Env) (h : History)
    → Returns (Finds 0 h) (resolve_loop kfunc drivers (suc i) (live env) h)
unfolding resolve_loop
resolve_loop-later kfunc [] i env h = (refl, refl)
resolve_loop-later kfunc (d ∷ more) i env h = ground (
  arith,
  resolve_loop-later kfunc more (suc i) env (call "GetDeviceDriverFileName" (num d ∷ []) ∷ h),
)

-- If the first driver has a name, the loop finds what is exported by the kernel.
resolve_loop-first :
    (kernel image : ℕ) (offset : String → ℕ) (f : String) (more : List ℕ) (env : Env) (h : History)
    → Loads env image offset
    → Named env kernel true
    → image + offset f < 2 ^ 64
    → 0 < kernel + offset f
    → kernel + offset f < 2 ^ 64
    → Returns (Finds (kernel + offset f) h) (resolve_loop f (kernel ∷ more) 0 (live env) h)
unfolding resolve_loop
resolve_loop-first kernel image offset f more env h loads named in_image found in_kernel =
    let asking = call "GetDeviceDriverFileName" (num kernel ∷ []) in
    let result = kern_get_proc_address kernel f in
    rw (named h) (
      After-bind (Finds (kernel + offset f) (asking ∷ h)) (Finds (kernel + offset f) h) (λ _. ⊥)
        result (λ a. if a == 0 then stop (exited 0) else pure a) (live env) (asking ∷ h)
        (kern_get_proc_address-Finds kernel image offset f env (asking ∷ h) loads in_image
          in_kernel)
        (λ a h' q. ground arith))

-- If it has none, the loop finds nothing.
resolve_loop-nameless :
    (f : String) (kernel : ℕ) (more : List ℕ) (env : Env) (h : History)
    → Named env kernel false
    → Returns (Finds 0 h) (resolve_loop f (kernel ∷ more) 0 (live env) h)
unfolding resolve_loop
resolve_loop-nameless f kernel more env h nameless =
    rw (nameless h)
      (resolve_loop-later f more 0 env (call "GetDeviceDriverFileName" (num kernel ∷ []) ∷ h))

resolve-Finds :
    (f : String) (drivers : List ℕ) (a : ℕ) (env : Env)
    → Lists env
    → ((h : History) → Returns (Finds a h) (resolve_loop f drivers 0 (live env) h))
    → (h : History) → Returns (Finds a h) (resolve_ke_bug_check true drivers f (live env) h)
unfolding resolve_ke_bug_check
resolve-Finds f drivers a env lists finds h = rw (lists h) (finds (call "EnumDeviceDrivers" [] ∷ h))

-- What both searches find is submitted.
submitted :
    (modules : List Module) (a b : ℕ) (env : Env) (h : History)
    → ((h' : History)
        → Returns
            (Finds a h')
            (resolve_ke_bug_check true (map (λ m. m.base) modules) "KeBugCheck" (live env) h'))
    → ((h' : History)
        → Returns
            (Finds b h')
            (resolve_ke_bug_check true (map (λ m. m.base) modules) "KeBugCheckEx" (live env) h'))
    → Returns (λ _ h'. panics h' ≡ b ∷ a ∷ panics h) (init_panic_handlers true modules (live env) h)
unfolding init_panic_handlers
submitted modules a b env h first second =
    let drivers = map (λ (m : Module). m.base) modules in
    After-bind (Finds a h) (λ _ h'. panics h' ≡ b ∷ a ∷ panics h) (λ _. ⊥)
      (resolve_ke_bug_check true drivers "KeBugCheck")
      (λ x. resolve_ke_bug_check true drivers "KeBugCheckEx" >>= submit_handlers x) (live env) h
      (first h)
      (λ x h1 q1.
        After-bind (Finds b h1) (λ _ h'. panics h' ≡ b ∷ a ∷ panics h) (λ _. ⊥)
          (resolve_ke_bug_check true drivers "KeBugCheckEx") (submit_handlers x) (live env) h1
          (second h1) (λ y h2 q2. unfold submit_handlers in ground arith))

-- If every call returns, the system lists its drivers and names the first one, which is the kernel,
-- the kernel's image is loaded by the agent too, with its functions at the same offsets, and no
-- address leaves the 64 bits or is null, then the agent submits two panic addresses: those that
-- KeBugCheck and KeBugCheckEx have in the kernel.
pub init_panic_handlers-relocated :
    (kernel : Module) (more : List Module) (image : ℕ) (offset : String → ℕ) (env : Env)
    (h : History)
    → Lists env
    → Named env kernel.base true
    → Loads env image offset
    → ((f : String) → image + offset f < 2 ^ 64)
    → ((f : String) → kernel.base + offset f < 2 ^ 64)
    → 0 < kernel.base
    → Returns
        (λ _ h'.
          panics h'
          ≡ (kernel.base + offset "KeBugCheckEx") ∷ (kernel.base + offset "KeBugCheck") ∷ panics h)
        (init_panic_handlers true (kernel ∷ more) (live env) h)
init_panic_handlers-relocated kernel more image offset env h lists named loads in_image in_kernel
      positive =
    let search = λ (f : String).
      resolve-Finds f (map (λ (m : Module). m.base) (kernel ∷ more)) (kernel.base + offset f) env
        lists
        (λ h'.
          resolve_loop-first kernel.base image offset f _ env h' loads named (in_image f)
            (omega arith) (in_kernel f)) in
    submitted (kernel ∷ more) _ _ env h (search "KeBugCheck") (search "KeBugCheckEx")

-- If every call returns, and the system lists its drivers but does not tell the name of the first
-- one, the agent submits two panic addresses that are 0.
init_panic_handlers-nameless :
    (kernel : Module) (more : List Module) (env : Env) (h : History)
    → Lists env
    → Named env kernel.base false
    → Returns
        (λ _ h'. panics h' ≡ 0 ∷ 0 ∷ panics h)
        (init_panic_handlers true (kernel ∷ more) (live env) h)
init_panic_handlers-nameless kernel more env h lists nameless =
    let search = λ (f : String).
      resolve-Finds f (map (λ (m : Module). m.base) (kernel ∷ more)) 0 env lists
        (λ h'. resolve_loop-nameless f kernel.base _ env h' nameless) in
    submitted (kernel ∷ more) 0 0 env h (search "KeBugCheck") (search "KeBugCheckEx")
