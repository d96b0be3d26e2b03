-- ===== src/Machine/Rules.antt =====
-- How a property of histories, or of results, passes through a program.
use mathlib.Core.Path.{subst}
use kafl_targets.Base.{
  ℕ, zero, suc, ⊤, ◌+◌, ◌≡◌, refl, Bool, true, false, ◌==◌, if◌then◌else◌, arith,
}
use kafl_targets.Nyx.{user_abort}
use kafl_targets.Machine.Defs.{
  Event, Arg, vmcall, call, target, History, Outcome, done, stopped, Env, M, pure, ◌>>=◌, ◌>>◌,
  repeat,
}

-- The result and the history at the end satisfy `Q`; the history satisfies `S` if the program was
-- cut off.
abbrev pub After : {A : Type 0} → (A → History → Type 0) → (History → Type 0) → Outcome A → Type 0
After Q S (done a h) = Q a h
After Q S (stopped _ h) = S h

-- The history satisfies `P`, however the program ended.
abbrev pub Ends : {A : Type 0} → (History → Type 0) → Outcome A → Type 0
Ends P (done _ h) = P h
Ends P (stopped _ h) = P h

pub After-bind :
    {A B : Type 0} (Q : A → History → Type 0) (R : B → History → Type 0) (S : History → Type 0)
    (m : M A) (f : A → M B) (env : Env) (h : History)
    → After Q S (m env h)
    → ((a : A) (h' : History) → Q a h' → After R S (f a env h'))
    → After R S ((m >>= f) env h)
After-bind {A = A} Q R S m f env h first next = go (m env h) first
  where
    go :
        (o : Outcome A)
        → After Q S o
        → After R S (elim o [ done a h' ↦ f a env h' | stopped s h' ↦ stopped s h' ])
    go (done a h') q = next a h' q
    go (stopped s h') q = q

pub Ends-bind :
    {A B : Type 0} (P : History → Type 0) (m : M A) (f : A → M B) (env : Env) (h : History)
    → Ends P (m env h)
    → ((a : A) (h' : History) → P h' → Ends P (f a env h'))
    → Ends P ((m >>= f) env h)
Ends-bind {A = A} P m f env h first next = go (m env h) first
  where
    go :
        (o : Outcome A)
        → Ends P o
        → Ends P (elim o [ done a h' ↦ f a env h' | stopped s h' ↦ stopped s h' ])
    go (done a h') q = next a h' q
    go (stopped s h') q = q

-- The documented meaning of an abort: the host never gives control back.
abbrev pub AbortStops : Env → Type 0
AbortStops env = (h : History) (a : Arg) → env.resumes h (vmcall user_abort a) ≡ false

abbrev stops_abort : Event → Bool → Bool
stops_abort (vmcall id a) b = if id == user_abort then false else b
stops_abort (call name args) b = b
stops_abort (target p) b = b

-- The surroundings made to stop at an abort: a proof that computes needs no hypothesis there.
abbrev pub abort_final : Env → Env
abort_final env = record env { resumes = λ h e. stops_abort e (env.resumes h e) }

stops_abort_lem :
    (env : Env)
    → AbortStops env
    → (h : History) (e : Event) → stops_abort e (env.resumes h e) ≡ env.resumes h e
stops_abort_lem env aborts h (vmcall id a) = ground (arith, aborts h a)
stops_abort_lem env aborts h (call name args) = refl
stops_abort_lem env aborts h (target p) = refl

abort_final_lem : (env : Env) → AbortStops env → abort_final env ≡ env
abort_final_lem env aborts = λ i. record env { resumes = λ h e. stops_abort_lem env aborts h e i }

pub under_final_abort :
    (P : Env → Type 0) (env : Env) → AbortStops env → P (abort_final env) → P env
under_final_abort P env aborts p = subst P (abort_final_lem env aborts) p

-- What one round needs and keeps, every number of rounds keeps.
pub After-repeat :
    (Q S : History → Type 0) (m : M ⊤) (env : Env)
    → ((h : History) → Q h → After (λ _. Q) S (m env h))
    → (n : ℕ) (h : History) → Q h
    → After (λ _. Q) S (repeat n m env h)
unfolding repeat
After-repeat Q S m env round zero h q = q
After-repeat Q S m env round (suc n) h q =
    After-bind (λ _. Q) (λ _. Q) S m (λ _. repeat n m) env h (round h q)
      (λ _ h' q'. After-repeat Q S m env round n h' q')

pub After-then :
    {A B : Type 0} (Q : History → Type 0) (R : B → History → Type 0) (S : History → Type 0)
    (m : M A) (k : M B) (env : Env) (h : History)
    → After (λ _. Q) S (m env h)
    → ((h' : History) → Q h' → After R S (k env h'))
    → After R S ((m >> k) env h)
After-then Q R S m k env h first next =
    After-bind (λ _. Q) R S m (λ _. k) env h first (λ _ h' q. next h' q)

pub Ends-then :
    {A B : Type 0} (P : History → Type 0) (m : M A) (k : M B) (env : Env) (h : History)
    → Ends P (m env h)
    → ((h' : History) → P h' → Ends P (k env h'))
    → Ends P ((m >> k) env h)
Ends-then P m k env h first next = Ends-bind P m (λ _. k) env h first (λ _ h' q. next h' q)

-- The surroundings made to come back from every call.
abbrev pub live : Env → Env
live env = record env { resumes = λ _ _. true }

-- The program comes back, with a result and a history that satisfy `Q`.
abbrev pub Returns : {A : Type 0} → (A → History → Type 0) → Outcome A → Type 0
Returns Q = After Q (λ _. ⊥)

-- A property of the number of rounds so far, step by step.
pub After-rounds :
    (Q : ℕ → History → Type 0) (S : History → Type 0) (m : M ⊤) (env : Env)
    → ((k : ℕ) (h : History) → Q k h → After (λ _. Q (suc k)) S (m env h))
    → (n k j : ℕ) (h : History) → k + n ≡ j
    → Q k h
    → After (λ _. Q j) S (repeat n m env h)
unfolding repeat
After-rounds Q S m env round zero k j h e q = subst (λ i. Q i h) (omega arith) q
After-rounds Q S m env round (suc n) k j h e q =
    After-then (Q (suc k)) (λ _. Q j) S m (repeat n m) env h (round k h q)
      (λ h' q'. After-rounds Q S m env round n (suc k) j h' (omega arith) q')

-- Any result will do.
pub After-any : {A : Type 0} (o : Outcome A) → After (λ _ _. Unit {0}) (λ _. Unit {0}) o
After-any (done a h) = tt
After-any (stopped s h) = tt

pub After-weaken :
    {A : Type 0} (Q R : A → History → Type 0) (S : History → Type 0) (o : Outcome A)
    → After Q S o
    → ((a : A) (h : History) → Q a h → R a h)
    → After R S o
After-weaken Q R S (done a h) q weaker = weaker a h q
After-weaken Q R S (stopped x h) q weaker = q

pub After-and :
    {A : Type 0} (Q : A → History → Type 0) (S P : History → Type 0) (o : Outcome A)
    → After Q S o
    → Ends P o
    → After (λ a h. Q a h × P h) S o
After-and Q S P (done a h) q p = (q, p)
After-and Q S P (stopped x h) q p = q

-- What is done with a result may be to return it.
pub bind-pure : {A : Type 0} (m : M A) (env : Env) (h : History) → (m >>= pure) env h ≡ m env h
bind-pure {A = A} m env h = go (m env h)
  where
    go :
        (o : Outcome A)
        → (elim o as (λ _. Outcome A) [ done a h' ↦ pure a env h' | stopped s h' ↦ stopped s h' ])
          ≡ o
    go (done a h') = refl
    go (stopped s h') = refl
