-- ===== src/Zephyr/Directory.antt =====
-- The file system target (zephyr_x86_32/src/target_fs.c). Its console output is left out.
pub mod Laws
use kafl_targets.Base.{ℕ, zero, suc, ⊤, not, ◌||◌, String, [], ◌∷◌, if◌then◌else◌}
use kafl_targets.Base.Int.{ℤ, pos, is_zero}
use kafl_targets.Machine.{
  M, pure, skip, stop, when, ◌>>=◌, ◌>>◌, perform, libcall, call, str, out_of_fuel,
}

-- The loop of `lsdir`; the second call reads the first byte of the entry's name.
pub list_loop : ℕ → M ⊤
unfolding libcall
list_loop zero = stop out_of_fuel
list_loop (suc fuel) = do
  res ← libcall "fs_readdir" []
  name ← libcall "entry.name[0]" []
  if not (is_zero res) || is_zero name then skip else list_loop fuel

-- `lsdir`
pub lsdir : ℕ → String → M ℤ
unfolding libcall list_loop
lsdir fuel path = do
  res ← libcall "fs_opendir" (str path ∷ [])
  if not (is_zero res) then pure res else (do list_loop fuel; libcall "fs_closedir" [])

-- `target_entry`; what it mounts is the payload.
pub target_entry : ℕ → M ℤ
unfolding libcall lsdir perform
target_entry fuel = do
  res ← libcall "fs_mount" (str "/SD:" ∷ [])
  when (is_zero res) (lsdir fuel "/SD:" >> perform (call "fs_unmount" []))
  pure (pos 0)
