-- ===== src/Machine/Stops.antt =====
-- Why a program stops: out of fuel, an access outside of its buffers, or the end of its process.
use kafl_targets.Base.{⊤, Bool, true, false}
use kafl_targets.Machine.Defs.{
  no_return, exited, assertion, stack_overflow, bad_access, out_of_fuel, Event, vmcall, call,
  target, History, Outcome, done, stopped, Env, M, ◌>>=◌,
}
use kafl_targets.Machine.Rules.{After}

-- If the bound on the rounds of a loop cut the program off, the history satisfies `P`.
abbrev pub OnFuel : {A : Type 0} → (History → Type 0) → Outcome A → Type 0
OnFuel P (done _ h) = Unit
OnFuel P (stopped no_return h) = Unit
OnFuel P (stopped (exited n) h) = Unit
OnFuel P (stopped assertion h) = Unit
OnFuel P (stopped stack_overflow h) = Unit
OnFuel P (stopped bad_access h) = Unit
OnFuel P (stopped out_of_fuel h) = P h

pub OnFuel-bind :
    {A B : Type 0} (Q : A → History → Type 0) (P : History → Type 0) (m : M A) (f : A → M B)
    (env : Env) (h : History)
    → After Q (λ _. Unit {0}) (m env h)
    → OnFuel P (m env h)
    → ((a : A) (h' : History) → Q a h' → OnFuel P (f a env h'))
    → OnFuel P ((m >>= f) env h)
OnFuel-bind {A = A} Q P m f env h first cut next = go (m env h) first cut
  where
    go :
        (o : Outcome A)
        → After Q (λ _. Unit {0}) o
        → OnFuel P o
        → OnFuel P (elim o [ done a h' ↦ f a env h' | stopped s h' ↦ stopped s h' ])
    go (done a h') q c = next a h' q
    go (stopped no_return h') q c = tt
    go (stopped (exited n) h') q c = tt
    go (stopped assertion h') q c = tt
    go (stopped stack_overflow h') q c = tt
    go (stopped bad_access h') q c = tt
    go (stopped out_of_fuel h') q c = c

-- The program makes no access outside of its buffers.
abbrev pub NoBadAccess : {A : Type 0} → Outcome A → Type 0
NoBadAccess (done _ h) = Unit
NoBadAccess (stopped no_return h) = Unit
NoBadAccess (stopped (exited n) h) = Unit
NoBadAccess (stopped assertion h) = Unit
NoBadAccess (stopped stack_overflow h) = Unit
NoBadAccess (stopped bad_access h) = ⊥
NoBadAccess (stopped out_of_fuel h) = Unit

-- The program makes no access outside of its buffers, and comes back, if it does, with a result and
-- a history that satisfy `Q`.
abbrev pub Safe : {A : Type 0} → (A → History → Type 0) → Outcome A → Type 0
Safe Q (done a h) = Q a h
Safe Q (stopped no_return h) = Unit
Safe Q (stopped (exited n) h) = Unit
Safe Q (stopped assertion h) = Unit
Safe Q (stopped stack_overflow h) = Unit
Safe Q (stopped bad_access h) = ⊥
Safe Q (stopped out_of_fuel h) = Unit

pub Safe-bind :
    {A B : Type 0} (Q : A → History → Type 0) (R : B → History → Type 0) (m : M A) (f : A → M B)
    (env : Env) (h : History)
    → Safe Q (m env h)
    → ((a : A) (h' : History) → Q a h' → Safe R (f a env h'))
    → Safe R ((m >>= f) env h)
Safe-bind {A = A} Q R m f env h first next = go (m env h) first
  where
    go :
        (o : Outcome A)
        → Safe Q o
        → Safe R (elim o [ done a h' ↦ f a env h' | stopped s h' ↦ stopped s h' ])
    go (done a h') q = next a h' q
    go (stopped no_return h') q = tt
    go (stopped (exited n) h') q = tt
    go (stopped assertion h') q = tt
    go (stopped stack_overflow h') q = tt
    go (stopped bad_access h') q = elim q [ ]
    go (stopped out_of_fuel h') q = tt

pub Safe-weaken :
    {A : Type 0} (Q R : A → History → Type 0) (o : Outcome A)
    → Safe Q o
    → ((a : A) (h : History) → Q a h → R a h)
    → Safe R o
Safe-weaken Q R (done a h) q weaker = weaker a h q
Safe-weaken Q R (stopped no_return h) q weaker = tt
Safe-weaken Q R (stopped (exited n) h) q weaker = tt
Safe-weaken Q R (stopped assertion h) q weaker = tt
Safe-weaken Q R (stopped stack_overflow h) q weaker = tt
Safe-weaken Q R (stopped bad_access h) q weaker = elim q [ ]
Safe-weaken Q R (stopped out_of_fuel h) q weaker = tt

pub NoBadAccess-Safe :
    {A : Type 0} (Q : A → History → Type 0) (o : Outcome A) → Safe Q o → NoBadAccess o
NoBadAccess-Safe Q (done a h) q = tt
NoBadAccess-Safe Q (stopped no_return h) q = tt
NoBadAccess-Safe Q (stopped (exited n) h) q = tt
NoBadAccess-Safe Q (stopped assertion h) q = tt
NoBadAccess-Safe Q (stopped stack_overflow h) q = tt
NoBadAccess-Safe Q (stopped bad_access h) q = elim q [ ]
NoBadAccess-Safe Q (stopped out_of_fuel h) q = tt

-- The bound on the rounds of a loop cut the program off.
abbrev pub Unfinished : {A : Type 0} → Outcome A → Type 0
Unfinished (done _ h) = ⊥
Unfinished (stopped no_return h) = ⊥
Unfinished (stopped (exited n) h) = ⊥
Unfinished (stopped assertion h) = ⊥
Unfinished (stopped stack_overflow h) = ⊥
Unfinished (stopped bad_access h) = ⊥
Unfinished (stopped out_of_fuel h) = Unit

pub Unfinished-bind :
    {A B : Type 0} (Q : A → History → Type 0) (m : M A) (f : A → M B) (env : Env) (h : History)
    → After Q (λ _. ⊥) (m env h)
    → ((a : A) (h' : History) → Q a h' → Unfinished (f a env h'))
    → Unfinished ((m >>= f) env h)
Unfinished-bind {A = A} Q m f env h first next = go (m env h) first
  where
    go :
        (o : Outcome A)
        → After Q (λ _. ⊥) o
        → Unfinished (elim o [ done a h' ↦ f a env h' | stopped s h' ↦ stopped s h' ])
    go (done a h') q = next a h' q
    go (stopped s h') q = elim q [ ]

-- When one process has ended, however it did, another one goes on.
abbrev pub then_other : Outcome ⊤ → M ⊤ → M ⊤
then_other (done a h') m env h = m env h'
then_other (stopped s h') m env h = m env h'

pub After-then_other :
    (P : History → Type 0) (Q : ⊤ → History → Type 0) (S : History → Type 0) (o : Outcome ⊤)
    (m : M ⊤) (env : Env) (h : History)
    → After (λ _ _. ⊥) P o
    → ((h' : History) → P h' → After Q S (m env h'))
    → After Q S (then_other o m env h)
After-then_other P Q S (done a h') m env h none next = elim none [ ]
After-then_other P Q S (stopped s h') m env h p next = next h' p

-- Only the target does not come back: it ends its process.
abbrev returns : Event → Bool
returns (target p) = false
returns (vmcall id a) = true
returns (call name args) = true

abbrev pub crashing : Env → Env
crashing env = record env { resumes = λ _ e. returns e }
