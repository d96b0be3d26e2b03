-- ===== src/Windows/Regions.antt =====
-- The walk over the address space of the gdiplus programs (windows_x86_64/src/userspace/gdiplus.cpp;
-- the same text is in gdiplus_loadfont.cpp).
pub mod Laws
use kafl_targets.Base.{
  ℕ, zero, suc, ⊤, ◌+◌, ◌%◌, ◌^◌, Bool, String, Option, none, some, [], ◌∷◌, ltb, ◌==◌,
  if◌then◌else◌,
}
use kafl_targets.Machine.{
  M, pure, skip, stop, ◌>>=◌, ◌>>◌, hprintf, perform, call, num, str, out_of_fuel, History,
}

-- `Protect` of a region.
pub data Protect : Type 0 where
  execute execute_read execute_readwrite readonly readwrite writecopy other : Protect

-- What `VirtualQuery` tells of a region; `is_image` is `State == MEM_COMMIT && Type == MEM_IMAGE`.
pub record Region : Type 0 where
  pub is_image : Bool
  pub region_size : ℕ
  pub protect : Protect

-- `MODULEINFO`, and the name of the module's file.
pub record ModuleInfo : Type 0 where
  pub base_of_dll : ℕ
  pub size_of_image : ℕ
  pub filename : String

-- The system: the bounds of the address space, what `VirtualQuery` answers for an address (`none` if
-- it fails), and what then lies in `module_info` and `filename`.
pub record System : Type 0 where
  pub minimum : ℕ
  pub maximum : ℕ
  pub query : History → ℕ → Option Region
  pub module_info : History → ModuleInfo

abbrev protection : Protect → M ⊤
protection execute = hprintf "\033[42C--X\n" []
protection execute_read = hprintf "\033[42CR-X\n" []
protection execute_readwrite = hprintf "\033[42CRWX\n" []
protection readonly = hprintf "\033[42CR--\n" []
protection readwrite = hprintf "\033[42CRW-\n" []
protection writecopy = hprintf "\033[42CRW- (cow)\n" []
protection other = skip

abbrev next : ℕ → ℕ → ℕ
next a n = (a + n) % 2 ^ 64

module _ (system : System) where
  abbrev virtual_query : ℕ → M (Option Region)
  virtual_query a env h = pure (system.query h a) env h

  abbrev module_information : M ModuleInfo
  module_information env h = pure (system.module_info h) env h

  -- The report on a region of an image.
  print_image : ℕ → Region → M ⊤
  unfolding perform hprintf
  print_image curr_addr mbi = do
    perform (call "GetModuleInformation" (num curr_addr ∷ []))
    perform (call "GetModuleFileNameA" (num curr_addr ∷ []))
    m ← module_information
    if curr_addr == m.base_of_dll
        then hprintf "[+] 0x%p-0x%p \"%s\"\n"
            (num curr_addr ∷ num (next curr_addr m.size_of_image) ∷ str m.filename ∷ [])
        else (hprintf "    0x%p-0x%p \033[1A"
              (num curr_addr ∷ num (next curr_addr mbi.region_size) ∷ [])
            >> protection mbi.protect)

  -- One round of the loop: the size of the region, 0 if the query failed.
  query_region : ℕ → M ℕ
  unfolding perform print_image
  query_region curr_addr = do
    perform (call "VirtualQuery" (num curr_addr ∷ []))
    found ← virtual_query curr_addr
    elim found [
      | none ↦ pure 0
      | some mbi ↦
          (if mbi.is_image then print_image curr_addr mbi else skip) >> pure mbi.region_size
    ]

  -- The loop of `drop_VA`.
  pub region_loop : ℕ → ℕ → M ⊤
  unfolding query_region
  region_loop zero curr_addr = stop out_of_fuel
  region_loop (suc fuel) curr_addr =
      if ltb curr_addr system.maximum
      then query_region curr_addr >>= (λ size. region_loop fuel (next curr_addr size))
      else skip

  -- `drop_VA`
  pub drop_va : ℕ → M ⊤
  unfolding region_loop perform
  drop_va fuel = perform (call "GetSystemInfo" []) >> region_loop fuel system.minimum
