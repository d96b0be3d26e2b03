-- ===== src/Linux/Agent/Pages/Laws.antt =====
-- The memory that malloc_resident_pages hands out, and what free_resident_pages leaves locked.
use package.text.Mathlib.Text.{◌==◌ as str_eq}
use kafl_targets.Base.{
  ℕ, ◌+◌, ◌-◌, ◌*◌, ◌/◌, ◌%◌, ◌^◌, ◌≡◌, ◌≢◌, false, List, ◌<◌, ◌⊎◌, [], ◌∷◌, arith, if◌then◌else◌,
}
use kafl_targets.Base.Int.{is_minus_one}
use kafl_targets.Machine.{Val, Event, done, Env, History, call, num, After, Returns, live}
use kafl_targets.Linux.Agent.Pages.{page_size, malloc_resident_pages, free_resident_pages}

-- For a size that does not wrap around: a pointer that `malloc_resident_pages` returns is NULL, or
-- a page-aligned buffer of the size asked for, which its calls have allocated, filled and locked,
-- in this order.
malloc_resident_pages_locks :
    (n : ℕ) (env : Env) (h : History)
    → n * page_size < 2 ^ 64
    → After
        (λ ptr h'.
          (ptr ≡ 0)
          ⊎ ((ptr % page_size ≡ 0)
              × (h'
                  ≡ call "mlock" (num ptr ∷ num (n * page_size) ∷ [])
                    ∷ call "memset" (num ptr ∷ num 0x42 ∷ num (n * page_size) ∷ [])
                    ∷ call "aligned_alloc" (num page_size ∷ num (n * page_size) ∷ [])
                    ∷ h)))
        (λ _. Unit {0})
        (malloc_resident_pages n env h)
unfolding malloc_resident_pages
malloc_resident_pages_locks n env h fits = ground arith

-- The pages that a lock or an unlock of `len` bytes from a page's start reaches.
abbrev pages_of : ℕ → ℕ
pages_of len = (len + page_size - 1) / page_size

-- The number of pages that stay locked behind the calls of mlock and munlock.
abbrev locked_pages : History → ℕ
locked_pages [] = 0
locked_pages (call name (num ptr ∷ num len ∷ []) ∷ h) =
    let rest = locked_pages h in
    if str_eq name "mlock"
    then rest + pages_of len
    else if str_eq name "munlock"
    then rest - pages_of len
    else rest
locked_pages (_ ∷ h) = locked_pages h

-- Where its calls come back, `free_resident_pages` on a buffer that is not NULL unlocks `num_pages`
-- bytes, not pages: of `n` pages that were locked at `buf` just before, it releases those that hold
-- the first `n` bytes, and leaves the others locked.
free_resident_pages_leaves :
    (n buf : ℕ) (env : Env) (h : History)
    → 0 < buf
    → let h0 = call "mlock" (num buf ∷ num (n * page_size) ∷ []) ∷ h in
      Returns
        (λ _ h'. locked_pages h' ≡ locked_pages h + (n - pages_of n))
        (free_resident_pages buf n (live env) h0)
unfolding free_resident_pages
free_resident_pages_leaves n buf env h some_buffer = ground arith

-- Memory is to be had, on whole pages, and to be locked.
pub record HasMemory (env : Env) : Type 0 where
  pub allocated : (h : History) (args : List Val) → env.rax h (call "aligned_alloc" args) ≢ 0
  pub aligned :
      (h : History) (args : List Val) → env.rax h (call "aligned_alloc" args) % page_size ≡ 0
  pub locked :
      (h : History) (args : List Val) → is_minus_one (env.result h (call "mlock" args)) ≡ false

abbrev alloc_event : ℕ → Event
alloc_event n = call "aligned_alloc" (num page_size ∷ num (page_size * n % 2 ^ 64) ∷ [])

abbrev pub locked_buffer : Env → ℕ → History → ℕ
locked_buffer env n h = env.rax h (alloc_event n)

abbrev pub after_locked : Env → ℕ → History → History
after_locked env n h =
    let size = page_size * n % 2 ^ 64 in
    let ptr = locked_buffer env n h in
    call "mlock" (num ptr ∷ num size ∷ [])
    ∷ call "memset" (num ptr ∷ num 0x42 ∷ num size ∷ [])
    ∷ alloc_event n
    ∷ h

-- With memory to be had, `malloc_resident_pages` comes back with a buffer that it has locked.
pub malloc-eq-locked :
    (env : Env)
    → HasMemory env
    → (n : ℕ) (h : History)
    → malloc_resident_pages n (live env) h ≡ done (locked_buffer env n h) (after_locked env n h)
unfolding malloc_resident_pages
malloc-eq-locked env memory n h =
    let size = page_size * n % 2 ^ 64 in
    let ptr = locked_buffer env n h in
    ground (
      arith,
      memory.allocated h (num page_size ∷ num size ∷ []),
      memory.aligned h (num page_size ∷ num size ∷ []),
      memory.locked (call "memset" (num ptr ∷ num 0x42 ∷ num size ∷ []) ∷ alloc_event n ∷ h)
          (num ptr ∷ num size ∷ []),
    )
