-- ===== src/Linux/Agent/Pages.antt =====
-- Page-aligned memory that is locked in place.

pub mod Laws
use kafl_targets.Base.{ℕ, ⊤, ◌*◌, ◌%◌, ◌^◌, not, [], ◌∷◌, ◌==◌, if◌then◌else◌}
use kafl_targets.Base.Int.{is_minus_one}
use kafl_targets.Machine.{
  M, pure, stop, when, ◌>>=◌, ◌>>◌, perform, libcall, libcall_word, call, num, assertion,
}

abbrev pub page_size : ℕ
page_size = 4096

-- `malloc_resident_pages`; the result is 0 for NULL.
unfoldable pub malloc_resident_pages : ℕ → M ℕ
unfolding perform libcall libcall_word
malloc_resident_pages num_pages = do
  let data_size = page_size * num_pages % 2 ^ 64
  ptr ← libcall_word "aligned_alloc" (num page_size ∷ num data_size ∷ [])
  if ptr == 0 then perform (call "free" (num ptr ∷ [])) >> pure 0 else do
    perform (call "memset" (num ptr ∷ num 0x42 ∷ num data_size ∷ []))
    locked ← libcall "mlock" (num ptr ∷ num data_size ∷ [])
    if is_minus_one locked
        then perform (call "free" (num ptr ∷ [])) >> pure 0
        else if ptr % page_size == 0
        then pure ptr
        else stop assertion

-- `free_resident_pages`
unfoldable pub free_resident_pages : ℕ → ℕ → M ⊤
unfolding perform
free_resident_pages buf num_pages = when (not (buf == 0)) (
    perform (call "munlock" (num buf ∷ num num_pages ∷ [])) >> perform (call "free" (num buf ∷ [])))
