-- ===== src/Uefi/Decompress/Laws.antt =====
-- What the decompression target keeps: the pool, the fuzzing cycle, and the bounds of its buffers.
use package.text.Mathlib.Text.{◌==◌ as str_eq}
use kafl_targets.Base.{
  ℕ, ◌≡◌, ◌<◌, ◌+◌, ◌^◌, some, none, [], ◌∷◌, List, Bool, true, false, ◌&&◌, ltb, ◌==◌, arith,
  if◌then◌else◌,
}
use kafl_targets.Machine.{skip, ◌>>◌, Env, History, Event, call, num, str, Ends, Returns, live}
use kafl_targets.Harness.{under_test-phase, under_test-runs, KeepsCycle, Completes, length_of}
use kafl_targets.Uefi.Pool.{Block, InUse, pool, free_pool}
use kafl_targets.Uefi.Decompress.{
  Decompressor, init_harness, decompress, body, run_harness, decompress_harness,
}

abbrev no_block : Block
no_block = record { base = 0; bytes = 0 }

-- The block that a call of `AllocateZeroPool` has handed out.
abbrev pub zero_pool : Env → History → Event → Block
zero_pool env h (call name (num n ∷ [])) =
    if str_eq name "AllocateZeroPool"
    then record { base = env.rax h (call name (num n ∷ [])); bytes = n }
    else no_block
zero_pool env h _ = no_block

-- The size of the block at an address, 0 if there is none.
abbrev size_at : ℕ → List Block → ℕ
size_at p [] = 0
size_at p (b ∷ bs) = let rest = size_at p bs in if b.base == p then b.bytes else rest

module _ (library : Decompressor) (env : Env) where
  pub decompress-KeepsCycle : KeepsCycle (decompress_harness library) env
  unfolding run_harness init_harness body decompress free_pool
  decompress-KeepsCycle = record {
    init_keeps = λ h start. ground arith;
    run_keeps = λ p.
        under_test-phase p (run_harness library (length_of 64 p) >> skip) env
          (λ h start. ground arith);
  }

  pub decompress-Completes : Completes (decompress_harness library) env
  unfolding run_harness init_harness body decompress free_pool
  decompress-Completes = record {
    init_returns = λ k h so_far. ground arith;
    run_returns = λ p k.
        under_test-runs p (run_harness library (length_of 64 p) >> skip) env k
          (λ h so_far. ground arith);
  }

  -- Where every call comes back, a run of the decompression target, on each of its error paths too,
  -- leaves the pool as it found it: it frees each block that it allocated, once, and no other.
  pub decompress-InUse :
      (n : ℕ) (bs : List Block) (h : History)
      → InUse (zero_pool (live env)) bs h
      → Returns (λ _. InUse (zero_pool (live env)) bs) (run_harness library n (live env) h)
  unfolding run_harness body decompress free_pool
  decompress-InUse n bs h before = ground arith

  -- The destination size that the last `UefiDecompressGetInfo` has announced.
  abbrev announced : History → ℕ
  announced [] = 0
  announced (call name args ∷ h) =
      let rest = announced h in
      if str_eq name "UefiDecompressGetInfo"
      then library.destination_size (call name args ∷ h)
      else rest
  announced (_ ∷ h) = announced h

  -- `UefiDecompress` was given only destinations of more bytes than were announced.
  abbrev pub backed : History → Bool
  backed [] = true
  backed (call name (num d ∷ num s ∷ []) ∷ h) =
      let large : Bool = elim (pool (zero_pool env) h) [
        | none ↦ false
        | some bs ↦ ltb (announced h) (size_at d bs)
      ] in
      (if str_eq name "UefiDecompress" then large else true) && backed h
  backed (_ ∷ h) = backed h

  -- If no destination size is the largest of 32 bits, then from a history with this property and
  -- known blocks in use, on every path and wherever it is cut off, the target decompresses only into
  -- blocks that have at least one byte more than the library asked for.
  pub decompress-backed :
      (n : ℕ) (bs : List Block) (h : History)
      → ((h' : History) → library.destination_size h' + 1 < 2 ^ 32)
      → InUse (zero_pool env) bs h
      → backed h ≡ true
      → Ends (λ h'. backed h' ≡ true) (run_harness library n env h)
  unfolding run_harness body decompress free_pool
  decompress-backed n bs h small before so_far =
      let asked =
        call "UefiDecompressGetInfo" (num n ∷ []) ∷ call "Print" (str "Start->" ∷ []) ∷ h in
      ground (arith, small asked)
