-- ===== src/Machine/Defs.antt =====
-- The machine under a guest program: the hypervisor, the kernel and the C library, seen through
-- the calls that the program makes. What they answer is the parameter `Env`. A program is run on
-- the history of its calls, latest first, and may be cut off at each call.
use kafl_targets.Base.{
  ℕ, zero, suc, ⊤, String, Bool, true, false, Option, none, some, List, [], ◌∷◌, ◌==◌,
  if◌then◌else◌,
}
use kafl_targets.Base.Int.{ℤ}
use kafl_targets.Nyx.{
  Payload, HostConfig, AgentConfig, DumpFile, printf, user_abort, get_host_config,
}

-- An argument of a call; a pointer to a text or a structure stands for what it points to.
pub data Val : Type 0 where
  num : ℕ → Val
  int : ℤ → Val
  str : String → Val

-- The second argument of a hypercall, with what the host reads through it.
pub data Arg : Type 0 where
  word : ℕ → Arg
  text : String → Arg
  formatted : String → List Val → Arg
  host_config_ptr : Arg
  agent_config_ptr : AgentConfig → Arg
  range_ptr : ℕ → ℕ → ℕ → Arg
  dump_file_ptr : DumpFile → Arg
  stream_ptr : String → List ℕ → Arg
  buffer_ptr : Arg

-- `vmcall` is `kAFL_hypercall`, `call` a call of a library or of the kernel, and `target` a run
-- of the code under test on a payload.
pub data Event : Type 0 where
  vmcall : ℕ → Arg → Event
  call : String → List Val → Event
  target : Payload → Event

abbrev pub History : Type 0
History = List Event

-- Why a program does not come back: a call that never returned, `exit`, a failed `assert`, an
-- exhausted stack, an access outside of a buffer or to bytes that were never written, or a loop
-- cut off by the bound of the model.
pub data Stop : Type 0 where
  no_return : Stop
  exited : ℕ → Stop
  assertion : Stop
  stack_overflow : Stop
  bad_access : Stop
  out_of_fuel : Stop

pub data Outcome (A : Type 0) : Type 0 where
  done : A → History → Outcome A
  stopped : Stop → History → Outcome A

-- The surroundings: whether control comes back from a call, the value that it returns (a register
-- for a hypercall, a signed number for the others), and what the host has written for the guest.
pub record Env : Type 0 where
  pub resumes : History → Event → Bool
  pub rax : History → Event → ℕ
  pub result : History → Event → ℤ
  pub errno : History → ℕ
  pub host_config : History → HostConfig
  pub payload : History → Payload

abbrev pub M : Type 0 → Type 0
M A = Env → History → Outcome A

module _ {A : Type 0} where
  abbrev pub pure : A → M A
  pure a env h = done a h

  abbrev pub stop : Stop → M A
  stop s env h = stopped s h

infixl 5 ◌>>=◌ ◌>>◌
abbrev pub ◌>>=◌ : {A B : Type 0} → M A → (A → M B) → M B
◌>>=◌ m f env h = elim (m env h) [ done a h' ↦ f a env h' | stopped s h' ↦ stopped s h' ]

abbrev pub ◌>>◌ : {A B : Type 0} → M A → M B → M B
m >> k = m >>= λ _. k

abbrev pub skip : M ⊤
skip = pure tt

-- One call, recorded whether it comes back or not.
unfoldable pub perform : Event → M ⊤
perform e env h = if env.resumes h e then done tt (e ∷ h) else stopped no_return (e ∷ h)

-- `kAFL_hypercall(id, arg)`; what it returns is its output register.
unfoldable pub hypercall_raw : ℕ → Arg → M ℕ
hypercall_raw id arg env h =
    let e = vmcall id arg in
    if env.resumes h e then done (env.rax h e) (e ∷ h) else stopped no_return (e ∷ h)

-- A call of a library, with its signed result.
unfoldable pub libcall : String → List Val → M ℤ
libcall name args env h =
    let e = call name args in
    if env.resumes h e then done (env.result h e) (e ∷ h) else stopped no_return (e ∷ h)

-- A call of a library that returns a pointer or a count; a null pointer is 0.
unfoldable pub libcall_word : String → List Val → M ℕ
libcall_word name args env h =
    let e = call name args in
    if env.resumes h e then done (env.rax h e) (e ∷ h) else stopped no_return (e ∷ h)

abbrev pub errno : M ℕ
errno env h = done (env.errno h) h

-- The host configuration that the last GET_HOST_CONFIG has brought.
abbrev pub last_config : Env → History → Option HostConfig
last_config env [] = none
last_config env (vmcall id arg ∷ h) =
    if id == get_host_config then some (env.host_config (vmcall id arg ∷ h)) else last_config env h
last_config env (_ ∷ h) = last_config env h

-- A read of the guest's `host_config`, which only GET_HOST_CONFIG writes.
abbrev pub host_config : M HostConfig
host_config env h = elim (last_config env h) [ none ↦ stopped bad_access h | some c ↦ done c h ]

-- What lies in the payload buffer now.
abbrev pub payload : M Payload
payload env h = done (env.payload h) h

-- `hprintf(format, ...)`: the text is printed into a buffer, which is handed to the host.
unfoldable pub hprintf : String → List Val → M ⊤
unfolding perform
hprintf format args = perform (vmcall printf (formatted format args))

-- `habort(msg)`
unfoldable pub habort : String → M ⊤
unfolding perform
habort msg = perform (vmcall user_abort (text msg))

-- `if (c) { m }`
abbrev pub when : Bool → M ⊤ → M ⊤
when true m = m
when false m = skip

-- The first `n` rounds of `while (1) { m }`.
unfoldable pub repeat : ℕ → M ⊤ → M ⊤
repeat zero m = skip
repeat (suc n) m = m >> repeat n m
