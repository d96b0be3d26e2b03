-- ===== src/Linux/Agent/Transfer/Fetched.antt =====
-- The bytes of a file that is fetched from the host.
use package.text.Mathlib.Text.{◌==◌ as str_eq}
use Prim.Native.String.{len}
use mathlib.Core.List.{append_assoc, append-nil}
use package.text.Mathlib.TextPositions.{eq_refl as str_eq_refl}
use kafl_targets.Base.{
  ◌==◌, Bool, ℕ, zero, suc, ◌+◌, ◌-◌, ◌≤◌, ◌<◌, ◌≡◌, refl, List, [], ◌∷◌, ◌++◌, String, length,
  arith, ltb, leb, if◌then◌else◌, true, false,
}
use kafl_targets.Base.Int.{ℤ, pos, pos_part, is_minus_one}
use kafl_targets.Base.Lists.{take, drop, take-append-drop, take-take, drop-drop, drop-eq_nil}
use kafl_targets.Nyx
use kafl_targets.Machine.{
  Env, History, Event, Val, call, vmcall, stream_ptr, num, int, str, Returns, live, After-bind,
  perform, pure, ◌>>=◌, ◌>>◌,
}
use kafl_targets.Linux.Agent.Cpu.{nyx_cpu_v1}
use kafl_targets.Linux.Agent.Pages.Laws.{HasMemory, locked_buffer, after_locked, malloc-eq-locked}
use kafl_targets.Linux.Agent.Transfer.{
  get_loop, hget_into, hget_file, page_addresses, num_pages, scratch_size,
}

abbrev eq_pages : List ℕ → List ℕ → Bool
eq_pages [] [] = true
eq_pages (p ∷ ps) (q ∷ qs) = let rest = eq_pages ps qs in if p == q then rest else false
eq_pages _ _ = false

eq_pages_refl : (ps : List ℕ) → eq_pages ps ps ≡ true
eq_pages_refl [] = refl
eq_pages_refl (p ∷ ps) = let same : p == p ≡ true = ground arith in rw (same, eq_pages_refl ps) refl

abbrev buffer_of : List Val → ℕ
buffer_of (fd ∷ num buf ∷ more) = buf
buffer_of _ = 0

abbrev name_of : List Val → String
name_of (str s ∷ more) = s
name_of _ = ""

-- `shared` are the files of the host's shared directory by their names.
module _ (env : Env) (shared : String → List ℕ) where
  -- How far the host has streamed the file of this name.
  abbrev pub got : String → History → ℕ
  got name [] = 0
  got name (vmcall id (stream_ptr asked pages) ∷ h) =
      let rest = got name h in
      let n = env.rax h (vmcall id (stream_ptr asked pages)) in
      if str_eq asked name then rest + n else rest
  got name (_ ∷ h) = got name h

  -- What the last request for the pages of the scratch buffer at this address has left there.
  abbrev pub arrived : ℕ → History → List ℕ
  arrived ptr [] = []
  arrived ptr (vmcall id (stream_ptr asked pages) ∷ h) =
      let rest = arrived ptr h in
      let n = env.rax h (vmcall id (stream_ptr asked pages)) in
      let chunk = take n (drop (got asked h) (shared asked)) in
      if id == Nyx.req_stream_data_bulk
      then (if eq_pages pages (page_addresses num_pages ptr) then chunk else rest)
      else rest
  arrived ptr (_ ∷ h) = arrived ptr h

  -- The guest's file of this name: `creat` makes it empty, and `write` takes its bytes from the buffer
  -- that it is given.
  abbrev pub guest_file : String → History → List ℕ
  guest_file out [] = []
  guest_file out (call name args ∷ h) =
      let rest = guest_file out h in
      let n = pos_part (env.result h (call name args)) in
      let written = take n (arrived (buffer_of args) h) in
      if str_eq name "creat"
      then (if str_eq (name_of args) out then [] else rest)
      else if str_eq name "write"
      then rest ++ written
      else rest
  guest_file out (_ ∷ h) = guest_file out h

  -- The host streams the file of this name in order: as much as the scratch buffer holds, or what is
  -- left.
  abbrev pub Streams : String → Type 0
  Streams name =
      (h : History) (pages : List ℕ)
      → let left = length (shared name) - got name h in
        env.rax h (vmcall Nyx.req_stream_data_bulk (stream_ptr name pages))
        ≡ (if leb scratch_size left then scratch_size else left)

  -- `write` takes all bytes.
  abbrev pub WritesAll : Type 0
  WritesAll =
      (h : History) (fd : ℤ) (buf n : ℕ)
      → env.result h (call "write" (int fd ∷ num buf ∷ num n ∷ [])) ≡ pos n

  module _ (writes : WritesAll) (depth : ℕ) (name : String) (streams : Streams name) (out : String)
      (buf : ℕ) where
    abbrev file : List ℕ
    file = shared name

    abbrev request : Event
    request = vmcall Nyx.req_stream_data_bulk (stream_ptr name (page_addresses num_pages buf))

    abbrev after_round : ℤ → History → History
    after_round fd h = call "write" (int fd ∷ num buf ∷ num (env.rax h request) ∷ []) ∷ request ∷ h

    -- A round adds the bytes streamed.
    round_fetched :
        (fd : ℤ) (h : History)
        → guest_file out (after_round fd h)
          ≡ guest_file out h ++ take (env.rax h request) (drop (got name h) file)
    round_fetched fd h = rw (
      writes (request ∷ h) fd buf (env.rax h request),
      eq_pages_refl (page_addresses num_pages buf),
      take-take,
    )

    round_got :
        (fd : ℤ) (h : History) → got name (after_round fd h) ≡ got name h + env.rax h request
    round_got fd h = rw (str_eq_refl name) refl

    rest_fetched :
        (fd : ℤ) (h : History)
        → guest_file out h ++ drop (got name h) file ≡ file
        → guest_file out (after_round fd h) ++ drop (got name (after_round fd h)) file ≡ file
    rest_fetched fd h so_far =
        let n = env.rax h request in
        ground (
          arith,
          round_fetched fd h,
          round_got fd h,
          append_assoc (guest_file out h) (take n (drop (got name h) file))
              (drop n (drop (got name h) file)),
          take-append-drop n (drop (got name h) file),
          drop-drop (got name h) n (got name h + n) file refl,
        )

    get_loop-fetched :
        (fuel : ℕ) (fd : ℤ) (h : History)
        → guest_file out h ++ drop (got name h) file ≡ file
        → got name h ≤ length file
        → length file < got name h + fuel
        → Returns
            (λ ret h'. (ret ≡ pos 0) × (guest_file out h' ≡ file))
            (get_loop depth nyx_cpu_v1 fuel name buf fd (live env) h)
    unfolding get_loop
    get_loop-fetched zero fd h so_far le lt = absurd (omega arith)
    get_loop-fetched (suc fuel) fd h so_far le lt =
        let n = env.rax h request in
        let r = streams h (page_addresses num_pages buf) in
        ground (
          arith,
          r,
          writes (request ∷ h) fd buf n,
          rest_fetched fd h so_far,
          round_got fd h,
          drop-eq_nil (got name h + n) file,
          append-nil (guest_file out (after_round fd h)),
          get_loop-fetched fuel fd (after_round fd h),
        )

    hget_into-fetched :
        (basename : String → String) (fuel flags : ℕ) (h : History)
        → basename name ≡ out
        → ltb (len name) 256 ≡ true
        → is_minus_one (env.result h (call "creat" (str out ∷ num flags ∷ []))) ≡ false
        → got name h ≡ 0
        → length file < fuel
        → Returns
            (λ ret h'. (ret ≡ pos 0) × (guest_file out h' ≡ file))
            (hget_into depth nyx_cpu_v1 basename fuel name flags buf (live env) h)
    unfolding hget_into
    hget_into-fetched basename fuel flags h based short created start lt =
        let creat = call "creat" (str out ∷ num flags ∷ []) in
        let fd = env.result h creat in
        let empty : guest_file out (creat ∷ h) ≡ [] = rw (str_eq_refl out) refl in
        rw (based, short, created)
          (After-bind (λ ret h'. (ret ≡ pos 0) × (guest_file out h' ≡ file))
            (λ ret h'. (ret ≡ pos 0) × (guest_file out h' ≡ file)) (λ _. ⊥)
            (get_loop depth nyx_cpu_v1 fuel name buf fd)
            (λ ret.
              perform (call "close" (int fd ∷ []))
              >> (perform (call "free" (num buf ∷ [])) >> pure ret))
            (live env) (creat ∷ h)
            (get_loop-fetched fuel fd (creat ∷ h) (rw (empty, start) refl) (omega arith)
              (omega arith))
            (λ ret h' q. q))

  -- Where every call comes back, on a version 1 CPU, with memory to be had, a host that streams its
  -- shared file `name` in order, a disk that takes all bytes, a name of fewer than 256 characters and
  -- a file that can be created, `hget_file` returns 0 and leaves the shared file in the guest's file
  -- `basename name`, if the fuel is more than the file's bytes and nothing of it was streamed before.
  pub hget_file-fetched :
      (depth : ℕ) (basename : String → String) (fuel flags : ℕ) (name : String) (h : History)
      → HasMemory env
      → WritesAll
      → Streams name
      → ltb (len name) 256 ≡ true
      → ((k : History)
          → is_minus_one (env.result k (call "creat" (str (basename name) ∷ num flags ∷ [])))
            ≡ false)
      → got name h ≡ 0
      → length (shared name) < fuel
      → Returns
          (λ ret h'. (ret ≡ pos 0) × (guest_file (basename name) h' ≡ shared name))
          (hget_file depth nyx_cpu_v1 basename fuel name flags (live env) h)
  unfolding hget_file
  hget_file-fetched depth basename fuel flags name h memory writes streams short created start lt =
      let ptr = locked_buffer env num_pages h in
      rw (malloc-eq-locked env memory num_pages h, ◌>>=◌)
        (hget_into-fetched writes depth name streams (basename name) ptr basename fuel flags
          (after_locked env num_pages h) refl short (created (after_locked env num_pages h)) start
          lt)
