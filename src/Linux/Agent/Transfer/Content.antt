-- ===== src/Linux/Agent/Transfer/Content.antt =====
-- The bytes of a file that is sent to the host: what the host has stored in the end.
use package.text.Mathlib.Text.{◌==◌ as str_eq}
use package.text.Mathlib.TextPositions.{eq_refl as str_eq_refl}
use mathlib.Core.List.{append_assoc, append-nil}
use mathlib.Core.Path.{subst}
use kafl_targets.Base.{
  ℕ, zero, suc, ◌+◌, ◌≤◌, ◌<◌, ◌≡◌, ◌≢◌, refl, ap, List, [], ◌∷◌, ◌++◌, String, length, arith, ◌==◌,
  if◌then◌else◌, true, false, Bool-cases, inl, inr,
}
use kafl_targets.Base.Int.{ℤ, pos, pos_part}
use kafl_targets.Base.Lists.{take, drop, take-append-drop, take-take, drop-drop, drop-eq_nil}
use kafl_targets.Nyx
use kafl_targets.Machine.{
  After-bind, ◌>>◌, hprintf, Env, History, Event, Val, call, vmcall, dump_file_ptr, formatted, num,
  int, str, Returns, live,
}
use kafl_targets.Linux.Agent.Transfer.{push_loop, push_into, push_out, scratch_size}

-- What the host should hold after a file was sent over `old`: an empty file sends no chunk.
abbrev pub received : List ℕ → List ℕ → ℕ → List ℕ
received old file append =
    if length file == 0 then old else if append == 0 then file else old ++ file

append-if_empty :
    (old file : List ℕ) → old ++ file ≡ (if length file == 0 then old else old ++ file)
append-if_empty old [] = append-nil old
append-if_empty old (x ∷ file) = ground arith

module _ (env : Env) (file : List ℕ) where
  -- How far the guest's file has been read.
  abbrev pub offset : History → ℕ
  offset [] = 0
  offset (call name args ∷ h) =
      let rest = offset h in
      if str_eq name "read" then rest + pos_part (env.result h (call name args)) else rest
  offset (_ ∷ h) = offset h

  -- What the last read into the buffer at this address has left there.
  abbrev pub scratch : ℕ → History → List ℕ
  scratch ptr [] = []
  scratch ptr (call name (fd ∷ num buf ∷ more) ∷ h) =
      let rest = scratch ptr h in
      let n = pos_part (env.result h (call name (fd ∷ num buf ∷ more))) in
      let read = take n (drop (offset h) file) in
      if str_eq name "read" then (if buf == ptr then read else rest) else rest
  scratch ptr (_ ∷ h) = scratch ptr h

  -- The file of this name in the host's dump directory, `old` at first: a chunk that is dumped under
  -- the name replaces it, or is appended.
  abbrev pub host_file : String → List ℕ → History → List ℕ
  host_file dst old [] = old
  host_file dst old (vmcall id (dump_file_ptr d) ∷ h) =
      let rest = host_file dst old h in
      let chunk = take d.bytes (scratch d.data_ptr h) in
      let stored = if d.append == 0 then chunk else rest ++ chunk in
      if id == Nyx.dump_file then (if str_eq d.file_name dst then stored else rest) else rest
  host_file dst old (_ ∷ h) = host_file dst old h

  -- `read` on a regular file: between one byte and all that is left and asked for, and none only
  -- at its end.
  abbrev pub ReadsFile : Type 0
  ReadsFile =
      (h : History) (fd : ℤ) (buf size : ℕ)
      → 0 < size
      → (n : ℕ) × (env.result h (call "read" (int fd ∷ num buf ∷ num size ∷ [])) ≡ pos n)
        × (n ≤ size)
        × (offset h + n ≤ length file)
        × (n ≡ 0 → length file ≤ offset h)

  module _ (reads : ReadsFile) (src dst : String) (fd : ℤ) (buf : ℕ) (old : List ℕ) where
    abbrev read_event : Event
    read_event = call "read" (int fd ∷ num buf ∷ num scratch_size ∷ [])

    abbrev after_chunk : ℕ → ℕ → History → History
    after_chunk flag n h =
        vmcall Nyx.dump_file
          (dump_file_ptr (record { file_name = dst; data_ptr = buf; bytes = n; append = flag }))
        ∷ vmcall Nyx.printf
            (formatted "[hpush] %s => %s (%lu bytes)\n" (str src ∷ str dst ∷ int (pos n) ∷ []))
        ∷ read_event
        ∷ h

    -- One chunk that is appended adds the bytes read; the others replace the file.
    chunk_stored :
        (flag n : ℕ) (h : History)
        → env.result h read_event ≡ pos n
        → host_file dst old (after_chunk flag n h) ≡ (
            if flag == 0
            then take n (drop (offset h) file)
            else host_file dst old h ++ take n (drop (offset h) file))
    chunk_stored flag n h e =
        let here : buf == buf ≡ true = ground arith in rw (str_eq_refl dst, here, e, take-take)

    rest_after :
        (flag n : ℕ) (h : History)
        → flag ≢ 0
        → env.result h read_event ≡ pos n
        → host_file dst old (after_chunk flag n h) ++ drop (offset (after_chunk flag n h)) file
          ≡ host_file dst old h ++ drop (offset h) file
    rest_after flag n h appends e = ground (
      arith,
      chunk_stored flag n h e,
      append_assoc (host_file dst old h) (take n (drop (offset h) file))
          (drop n (drop (offset h) file)),
      take-append-drop n (drop (offset h) file),
      drop-drop (offset h) n (offset h + n) file refl,
    )

    send_rest :
        (fuel flag total : ℕ) (h : History)
        → flag ≢ 0
        → offset h ≤ length file
        → length file < offset h + fuel
        → Returns
            (λ _ h'. host_file dst old h' ≡ host_file dst old h ++ drop (offset h) file)
            (push_loop fuel src dst fd buf flag total (live env) h)
    unfolding push_loop
    send_rest zero flag total h appends le lt = absurd (omega arith)
    send_rest (suc fuel) flag total h appends le lt =
        let r = reads h fd buf scratch_size (omega arith) in
        rw (r.1) (elim (Bool-cases (r.0 == 0)) [
          | inl at_end ↦ rw (at_end, drop-eq_nil (offset h) file (r.4 (ground arith)), append-nil)
          | inr more ↦ rw more (
              subst
                (λ l.
                  Returns (λ _ h'. host_file dst old h' ≡ l)
                    (push_loop fuel src dst fd buf 1 (total + r.0) (live env)
                      (after_chunk flag r.0 h)))
                (rest_after flag r.0 h appends r.1)
                (send_rest fuel 1 (total + r.0) (after_chunk flag r.0 h) (omega arith)
                  (ground arith) (ground arith)))
        ])

    whole_file :
        (append n : ℕ) (h : History)
        → append == 0 ≡ true
        → n == 0 ≡ false
        → offset h ≡ 0
        → env.result h read_event ≡ pos n
        → host_file dst old (after_chunk append n h) ++ drop (offset (after_chunk append n h)) file
          ≡ received old file append
    whole_file append n h replaces more first e =
        let r = reads h fd buf scratch_size (omega arith) in
        ground (
          arith,
          chunk_stored append n h e,
          take-append-drop n (drop (offset h) file),
          drop-drop (offset h) n (offset h + n) file refl,
          ap (λ k. drop k file) first,
        )

    send_first :
        (fuel append : ℕ) (h : History)
        → host_file dst old h ≡ old
        → offset h ≡ 0
        → length file < fuel
        → Returns
            (λ _ h'. host_file dst old h' ≡ received old file append)
            (push_loop fuel src dst fd buf append 0 (live env) h)
    unfolding push_loop
    send_first zero append h start first lt = absurd (omega arith)
    send_first (suc fuel) append h start first lt = elim (Bool-cases (append == 0)) [
      | inr appends ↦
          subst
            (λ l.
              Returns (λ _ h'. host_file dst old h' ≡ l)
                (push_loop (suc fuel) src dst fd buf append 0 (live env) h))
            (rw (start, first, appends) (append-if_empty old file))
            (send_rest (suc fuel) append 0 h (ground arith) (ground arith) (ground arith))
      | inl replaces ↦
          let r = reads h fd buf scratch_size (omega arith) in
          rw (r.1) (elim (Bool-cases (r.0 == 0)) [
            | inl at_end ↦ rw (at_end, start) (ground arith)
            | inr more ↦ rw more (
                subst
                  (λ l.
                    Returns (λ _ h'. host_file dst old h' ≡ l)
                      (push_loop fuel src dst fd buf 1 (0 + r.0) (live env)
                        (after_chunk append r.0 h)))
                  (whole_file append r.0 h replaces more first r.1)
                  (send_rest fuel 1 (0 + r.0) (after_chunk append r.0 h) (omega arith)
                    (ground arith) (ground arith)))
          ])
    ]

    finish :
        (l : List ℕ) (args : List Val) (h : History)
        → host_file dst old h ≡ l
        → Returns
            (λ ret h'. (ret ≡ pos 0) × (host_file dst old h' ≡ l))
            ((hprintf "[hpush] %s => %s (%lu bytes)\n" args >> push_out buf fd (pos 0))
              (live env)
              h)
    unfolding hprintf push_out
    finish l args h e = ground arith

    pub send_into :
        (fuel append : ℕ) (h : History)
        → buf ≢ 0
        → host_file dst old h ≡ old
        → offset h ≡ 0
        → length file < fuel
        → Returns
            (λ ret h'. (ret ≡ pos 0) × (host_file dst old h' ≡ received old file append))
            (push_into fuel src dst append fd buf (live env) h)
    unfolding push_into
    send_into fuel append h some_buffer start first lt =
        let allocated : buf == 0 ≡ false = ground arith in
        rw allocated (
          After-bind (λ _ h'. host_file dst old h' ≡ received old file append)
            (λ ret h'. (ret ≡ pos 0) × (host_file dst old h' ≡ received old file append)) (λ _. ⊥)
            (push_loop fuel src dst fd buf append 0)
            (λ total.
              hprintf "[hpush] %s => %s (%lu bytes)\n" (str src ∷ str dst ∷ num total ∷ [])
              >> push_out buf fd (pos 0))
            (live env) h (send_first fuel append h start first lt)
            (λ total h' q.
              finish (received old file append) (str src ∷ str dst ∷ num total ∷ []) h' q))
