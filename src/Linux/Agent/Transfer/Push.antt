-- ===== src/Linux/Agent/Transfer/Push.antt =====
-- Sending a file to the host: when it ends, and what has been sent then.
use kafl_targets.Base.{
  ℕ, zero, suc, ◌+◌, ◌≡◌, ◌≤◌, ◌<◌, inl, inr, refl, sym, Bool-cases, List, [], ◌∷◌, String, arith,
  ◌==◌, if◌then◌else◌,
}
use kafl_targets.Base.Int.{is_negative, ℤ, pos, pos_part}
use kafl_targets.Nyx
use kafl_targets.Nyx.{DumpFile}
use kafl_targets.Machine.{
  M, errno, ◌>>◌, hprintf, libcall, Env, History, call, vmcall, target, dump_file_ptr, After, Ends,
  Ends-bind, Ends-then, formatted, Val, num, int, str, OnFuel, Event, ◌>>=◌, Outcome, done, stopped,
}
use kafl_targets.Linux.Agent.Pages.{malloc_resident_pages, free_resident_pages}
use kafl_targets.Linux.Agent.Transfer.{
  push_out, num_pages, push_into, push_loop, hpush_file, scratch_size,
}

-- The chunks that were dumped, and the bytes in them.
abbrev pub chunks : History → ℕ
chunks [] = 0
chunks (vmcall id (dump_file_ptr d) ∷ h) = suc (chunks h)
chunks (_ ∷ h) = chunks h

abbrev dumped : History → ℕ
dumped [] = 0
dumped (vmcall id (dump_file_ptr d) ∷ h) = d.bytes + dumped h
dumped (_ ∷ h) = dumped h

-- The first chunk of the history carries the flag `append`, each later one appends.
abbrev AppendsAfter : ℕ → History → Type 0
AppendsAfter append [] = Unit
AppendsAfter append (vmcall id (dump_file_ptr d) ∷ h) =
    (d.append ≡ (if chunks h == 0 then append else 1)) × AppendsAfter append h
AppendsAfter append (_ ∷ h) = AppendsAfter append h

module _ (append : ℕ) (src dst : String) (fd : ℤ) (buf : ℕ) (env : Env) where
  -- If the chunks of the history keep to the caller's flag `append` (the first carries it, the
  -- later ones append), `total` is the number of bytes in them and the flag given is the one due
  -- next, then the loop of `hpush_file` keeps the chunks so, also if it is cut off, and returns the
  -- number of bytes dumped in all.
  push_loop_sends :
      (fuel flag total : ℕ) (h : History)
      → AppendsAfter append h
      → flag ≡ (if chunks h == 0 then append else 1)
      → total ≡ dumped h
      → After
          (λ sent h'. AppendsAfter append h' × (sent ≡ dumped h'))
          (AppendsAfter append)
          (push_loop fuel src dst fd buf flag total env h)
  unfolding push_loop
  push_loop_sends zero flag total h appends now sum = appends
  push_loop_sends (suc fuel) flag total h appends now sum = grind (arith, push_loop_sends fuel)

-- The guest's file fills at most `bound` chunks.
abbrev GuestFileEnds : Env → ℕ → Type 0
GuestFileEnds env bound =
    (h : History) (args : List Val)
    → bound ≤ chunks h
    → pos_part (env.result h (call "read" args)) ≡ 0

module _ (src dst : String) (env : Env) where
  abbrev read_event : ℤ → ℕ → Event
  read_event fd buf = call "read" (int fd ∷ num buf ∷ num scratch_size ∷ [])

  abbrev after_read : ℤ → ℕ → History → History
  after_read fd buf h =
      vmcall Nyx.printf (
        formatted "[hpush] %s => %s (%lu bytes)\n"
          (str src ∷ str dst ∷ int (env.result h (read_event fd buf)) ∷ []))
      ∷ read_event fd buf
      ∷ h

  -- If the guest's file is read to its end by `bound` chunks, then the loop of `hpush_file`, from a
  -- history with no more chunks, is not cut off by its fuel, provided that the fuel and the chunks
  -- already dumped are more than `bound` together.
  push_loop_ends :
      (bound : ℕ)
      → GuestFileEnds env bound
      → (fd : ℤ) (buf fuel flag total : ℕ) (h : History) → chunks h ≤ bound
      → bound < chunks h + fuel
      → OnFuel (λ _. ⊥) (push_loop fuel src dst fd buf flag total env h)
  unfolding push_loop
  push_loop_ends bound ends fd buf zero flag total h le lt = omega arith
  push_loop_ends bound ends fd buf (suc fuel) flag total h le lt =
      grind (arith, push_loop_ends bound ends fd buf fuel, ends h)

  push_out-keeps :
      (append buf : ℕ) (fd ret : ℤ) (h : History)
      → AppendsAfter append h
      → Ends (AppendsAfter append) (push_out buf fd ret env h)
  unfolding push_out free_resident_pages
  push_out-keeps append buf fd ret h ok = ground arith

-- Without a chunk there is no flag to check, and no byte to count.
chunks-none : (append : ℕ) (h : History) → chunks h ≡ 0 → AppendsAfter append h × (dumped h ≡ 0)
chunks-none append [] e = (tt, refl)
chunks-none append (vmcall id (dump_file_ptr d) ∷ h) e = ground arith
chunks-none append (call name args ∷ h) e = chunks-none append h e
chunks-none append (target p ∷ h) e = chunks-none append h e
chunks-none append (vmcall id a ∷ h) e = chunks-none append h e

malloc_resident_pages-chunks :
    (n : ℕ) (env : Env) (h : History)
    → chunks h ≡ 0
    → After (λ _ h'. chunks h' ≡ 0) (λ h'. chunks h' ≡ 0) (malloc_resident_pages n env h)
unfolding malloc_resident_pages
malloc_resident_pages-chunks n env h e = ground arith

hprintf-appends :
    (append : ℕ) (format : String) (args : List Val) (env : Env) (h : History)
    → AppendsAfter append h
    → Ends (AppendsAfter append) (hprintf format args env h)
unfolding hprintf
hprintf-appends append format args env h ok = ground arith

libcall-chunks :
    (name : String) (args : List Val) (env : Env) (h : History)
    → chunks h ≡ 0
    → After (λ _ h'. chunks h' ≡ 0) (λ h'. chunks h' ≡ 0) (libcall name args env h)
unfolding libcall
libcall-chunks name args env h e = ground arith

-- What keeps the history free of chunks may come before a part that sends them.
Ends-before :
    {A B : Type 0} (append : ℕ) (m : M A) (f : A → M B) (env : Env) (h : History)
    → After (λ _ h'. chunks h' ≡ 0) (λ h'. chunks h' ≡ 0) (m env h)
    → ((a : A) (h' : History) → chunks h' ≡ 0 → Ends (AppendsAfter append) (f a env h'))
    → Ends (AppendsAfter append) ((m >>= f) env h)
Ends-before {A = A} append m f env h first next = go (m env h) first
  where
    go :
        (o : Outcome A)
        → After (λ _ h'. chunks h' ≡ 0) (λ h'. chunks h' ≡ 0) o
        → Ends
            (AppendsAfter append)
            (elim o [ done a h' ↦ f a env h' | stopped s h' ↦ stopped s h' ])
    go (done a h') q = next a h' q
    go (stopped s h') q = (chunks-none append h' q).0

abbrev sent_format : String
sent_format = "[hpush] %s => %s (%lu bytes)\n"

-- `hpush_file` up to the memory allocated, from a history without chunks.
module _ (append fuel : ℕ) (src dst : String) (env : Env) where
  push_loop-appends :
      (buf : ℕ) (fd : ℤ) (h : History)
      → chunks h ≡ 0
      → Ends (AppendsAfter append) (push_loop fuel src dst fd buf append 0 env h)
  push_loop-appends buf fd h e = go (push_loop fuel src dst fd buf append 0 env h) (
      push_loop_sends append src dst fd buf env fuel append 0 h (chunks-none append h e).0
        (rw e refl) (sym (chunks-none append h e).1))
    where
      go :
          (o : Outcome ℕ)
          → After (λ sent h'. AppendsAfter append h' × (sent ≡ dumped h')) (AppendsAfter append) o
          → Ends (AppendsAfter append) o
      go (done a k) q = q.0
      go (stopped s k) q = q

  push_into-appends :
      (buf : ℕ) (fd : ℤ) (h : History)
      → chunks h ≡ 0
      → Ends (AppendsAfter append) (push_into fuel src dst append fd buf env h)
  unfolding push_into hprintf
  push_into-appends buf fd h e = elim (Bool-cases (buf == 0)) [
    | inl null ↦ rw null (push_out-keeps src dst env append buf fd _ h (chunks-none append h e).0)
    | inr ok ↦ rw ok (
        Ends-bind (AppendsAfter append) (push_loop fuel src dst fd buf append 0)
          (λ total. hprintf sent_format (args total) >> push_out buf fd (pos 0)) env h
          (push_loop-appends buf fd h e)
          (λ total h' appends.
            Ends-then (AppendsAfter append) (hprintf sent_format (args total))
              (push_out buf fd (pos 0)) env h'
              (hprintf-appends append sent_format (args total) env h' appends)
              (λ h'' ok. push_out-keeps src dst env append buf fd (pos 0) h'' ok)))
  ]
    where
      args : ℕ → List Val
      args total = str src ∷ str dst ∷ num total ∷ []

  -- From a history without chunks, and wherever `hpush_file` is cut off, the first chunk that it
  -- dumps carries the caller's flag `append`, and each later chunk appends.
  hpush_file-AppendsAfter :
      (h : History)
      → chunks h ≡ 0
      → Ends (AppendsAfter append) (hpush_file fuel src dst append env h)
  unfolding hpush_file
  hpush_file-AppendsAfter h e =
      Ends-before append (libcall "open" (str src ∷ num 0 ∷ []))
        (λ fd.
          if is_negative fd
          then (errno >>= λ e. push_out 0 fd (pos e))
          else malloc_resident_pages num_pages >>= λ buf. push_into fuel src dst append fd buf)
        env h (libcall-chunks "open" _ env h e)
        (λ fd h' e'. elim (Bool-cases (is_negative fd)) [
          | inl bad ↦
              rw bad (push_out-keeps src dst env append 0 fd _ h' (chunks-none append h' e').0)
          | inr ok ↦ rw ok (
              Ends-before append (malloc_resident_pages num_pages)
                (λ buf. push_into fuel src dst append fd buf) env h'
                (malloc_resident_pages-chunks num_pages env h' e')
                (λ buf h'' e''. push_into-appends buf fd h'' e''))
        ])
