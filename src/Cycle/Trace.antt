-- ===== src/Cycle/Trace.antt =====
-- The fuzzing cycle as a transition system, its runs, and how the monitor of histories relates to them.
use mathlib.Core.Path.{subst}
use kafl_targets.Base.{
  ℕ, ◌≡◌, ◌≢◌, ◌==◌, Bool-cases, Option-cases, some, inl, inr, List, [], ◌∷◌, String, arith,
}
use kafl_targets.Nyx
use kafl_targets.Nyx.{Payload}
use kafl_targets.Machine.{
  Event, vmcall, call, target, History, Arg, Val, Outcome, done, stopped, After,
}
use kafl_targets.Cycle.{
  Phase, bare, greeting, idle, ready, running, phase, step, InOrder, AtIdle, on_acquire, on_release,
  on_buffer, on_next, on_fast_acquire,
}

-- The hypercalls that are not part of the cycle.
abbrev IsFree : ℕ → Type 0
IsFree id =
    (id ≢ Nyx.acquire)
    × (id ≢ Nyx.release)
    × (id ≢ Nyx.get_payload)
    × (id ≢ Nyx.next_payload)
    × (id ≢ Nyx.user_fast_acquire)

pub data Step : Phase → Event → Phase → Type 0 where
  hello : {a : Arg} → Step bare (vmcall Nyx.acquire a) greeting
  greeted : {a : Arg} → Step greeting (vmcall Nyx.release a) bare
  buffer : {a : Arg} → Step bare (vmcall Nyx.get_payload a) idle
  rebuffer : {a : Arg} → Step idle (vmcall Nyx.get_payload a) idle
  next : {a : Arg} → Step idle (vmcall Nyx.next_payload a) ready
  start : {a : Arg} → Step ready (vmcall Nyx.acquire a) running
  fast_start : {a : Arg} → Step idle (vmcall Nyx.user_fast_acquire a) running
  run : {x : Payload} → Step running (target x) running
  finish : {a : Arg} → Step running (vmcall Nyx.release a) idle
  library_call : {p : Phase} {name : String} {args : List Val} → Step p (call name args) p
  free_call : {p : Phase} {id : ℕ} {a : Arg} → IsFree id → Step p (vmcall id a) p

-- The run of the transition system from its start along a history, with the phase that it reaches.
pub data Trace : History → Phase → Type 0 where
  begin : Trace [] bare
  after : {h : History} {p q : Phase} {e : Event} → Trace h p → Step p e q → Trace (e ∷ h) q

acquire_step : (a : Arg) (p q : Phase) → on_acquire p ≡ some q → Step p (vmcall Nyx.acquire a) q
acquire_step a bare q e = subst (Step bare (vmcall Nyx.acquire a)) (ground arith) hello
acquire_step a ready q e = subst (Step ready (vmcall Nyx.acquire a)) (ground arith) start
acquire_step a greeting q e = absurd (ground arith)
acquire_step a idle q e = absurd (ground arith)
acquire_step a running q e = absurd (ground arith)

release_step : (a : Arg) (p q : Phase) → on_release p ≡ some q → Step p (vmcall Nyx.release a) q
release_step a greeting q e = subst (Step greeting (vmcall Nyx.release a)) (ground arith) greeted
release_step a running q e = subst (Step running (vmcall Nyx.release a)) (ground arith) finish
release_step a bare q e = absurd (ground arith)
release_step a idle q e = absurd (ground arith)
release_step a ready q e = absurd (ground arith)

buffer_step : (a : Arg) (p q : Phase) → on_buffer p ≡ some q → Step p (vmcall Nyx.get_payload a) q
buffer_step a bare q e = subst (Step bare (vmcall Nyx.get_payload a)) (ground arith) buffer
buffer_step a idle q e = subst (Step idle (vmcall Nyx.get_payload a)) (ground arith) rebuffer
buffer_step a greeting q e = absurd (ground arith)
buffer_step a ready q e = absurd (ground arith)
buffer_step a running q e = absurd (ground arith)

next_step : (a : Arg) (p q : Phase) → on_next p ≡ some q → Step p (vmcall Nyx.next_payload a) q
next_step a idle q e = subst (Step idle (vmcall Nyx.next_payload a)) (ground arith) next
next_step a bare q e = absurd (ground arith)
next_step a greeting q e = absurd (ground arith)
next_step a ready q e = absurd (ground arith)
next_step a running q e = absurd (ground arith)

fast_step :
    (a : Arg) (p q : Phase) → on_fast_acquire p ≡ some q → Step p (vmcall Nyx.user_fast_acquire a) q
fast_step a idle q e = subst (Step idle (vmcall Nyx.user_fast_acquire a)) (ground arith) fast_start
fast_step a bare q e = absurd (ground arith)
fast_step a greeting q e = absurd (ground arith)
fast_step a ready q e = absurd (ground arith)
fast_step a running q e = absurd (ground arith)

target_step : (x : Payload) (p q : Phase) → step (target x) p ≡ some q → Step p (target x) q
target_step x running q e = subst (Step running (target x)) (ground arith) run
target_step x bare q e = absurd (ground arith)
target_step x greeting q e = absurd (ground arith)
target_step x idle q e = absurd (ground arith)
target_step x ready q e = absurd (ground arith)

vmcall_step :
    (id : ℕ) (a : Arg) (p q : Phase) → step (vmcall id a) p ≡ some q → Step p (vmcall id a) q
vmcall_step id a p q e = elim (Bool-cases (id == Nyx.acquire)) [
  | inl eq ↦ at Nyx.acquire (ground arith) (acquire_step a p q (ground arith))
  | inr ne1 ↦ elim (Bool-cases (id == Nyx.release)) [
    | inl eq ↦ at Nyx.release (ground arith) (release_step a p q (ground arith))
    | inr ne2 ↦ elim (Bool-cases (id == Nyx.get_payload)) [
      | inl eq ↦ at Nyx.get_payload (ground arith) (buffer_step a p q (ground arith))
      | inr ne3 ↦ elim (Bool-cases (id == Nyx.next_payload)) [
        | inl eq ↦ at Nyx.next_payload (ground arith) (next_step a p q (ground arith))
        | inr ne4 ↦ elim (Bool-cases (id == Nyx.user_fast_acquire)) [
          | inl eq ↦ at Nyx.user_fast_acquire (ground arith) (fast_step a p q (ground arith))
          | inr ne5 ↦
              subst (Step p (vmcall id a)) (ground arith)
                (free_call (ground arith, ground arith, ground arith, ground arith, ground arith))
        ]
      ]
    ]
  ]
]
  where
    at : (c : ℕ) → c ≡ id → Step p (vmcall c a) q → Step p (vmcall id a) q
    at c same s = subst (λ i. Step p (vmcall i a) q) same s

event_step : (e : Event) (p q : Phase) → step e p ≡ some q → Step p e q
event_step (vmcall id a) p q s = vmcall_step id a p q s
event_step (call name args) p q s = subst (Step p (call name args)) (ground arith) library_call
event_step (target x) p q s = target_step x p q s

-- A history that reaches a phase of the monitor is a run of the transition system to this phase.
phase-Trace : (h : History) (q : Phase) → phase h ≡ some q → Trace h q
phase-Trace [] q e = subst (Trace []) (ground arith) begin
phase-Trace (x ∷ h) q e = elim (Option-cases (phase h)) [
  | inl nothing ↦ absurd (ground arith)
  | inr (p, reached) ↦ after (phase-Trace h p reached) (event_step x p q (ground arith))
]

-- The history is a run of the transition system.
abbrev pub IsRun : History → Type 0
IsRun h = (p : Phase) × Trace h p

InOrder-IsRun : (h : History) → InOrder h → IsRun h
InOrder-IsRun h ordered = elim (Option-cases (phase h)) [
  | inl nothing ↦ absurd (ordered nothing)
  | inr (p, reached) ↦ (p, phase-Trace h p reached)
]

-- A program whose calls are in order, and which ends in the idle phase, refines the transition system.
pub InOrder-refines :
    {A : Type 0} (o : Outcome A)
    → After (λ _. AtIdle) InOrder o
    → After (λ _ h. Trace h idle) IsRun o
InOrder-refines (done a h) reached = phase-Trace h idle reached
InOrder-refines (stopped s h) ordered = InOrder-IsRun h ordered
