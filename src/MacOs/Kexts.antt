-- ===== src/MacOs/Kexts.antt =====
-- The buffer of the program that informs the host, the commands that it starts, and the ranges of the
-- kernel's extensions (macOS_x86_64/info/info.c).
pub mod Laws
pub mod Bounds
use kafl_targets.Base.{
  ℕ, zero, suc, ⊤, String, ◌+◌, ◌%◌, ◌^◌, ◌<◌, ltb, Bool, true, false, Option, none, some, List, [],
  ◌∷◌, ◌==◌, if◌then◌else◌,
}
use kafl_targets.Machine.{
  M, Val, pure, skip, stop, ◌>>=◌, ◌>>◌, perform, call, num, str, bad_access,
}
use kafl_targets.Printed.{sprintf_at}

-- A token of `strtok`: its text, and its number in base 16.
pub record Token : Type 0 where
  pub text : String
  pub value : ℕ

-- A line that a command prints: its text, its tokens, and which words `strstr` finds in it.
pub record Line : Type 0 where
  pub line : String
  pub tokens : List Token
  pub contains : String → Bool

-- The variables `start`, `offset` and `*pos` of `get_xnu_kext_addresses`; `none` is a number that was
-- never written.
pub record Kext : Type 0 where
  pub start : Option ℕ
  pub offset : Option ℕ
  pub pos : ℕ

-- DELIMITER
abbrev pub delimiter : String
delimiter = "\n------------------------------------------------------------------"

-- `(*pos) += sprintf(buffer + (*pos), ..)` in a buffer of this size; the text ends in a terminator.
unfoldable pub append_text : ℕ → String → List Val → ℕ → M ℕ
unfolding sprintf_at
append_text info_size format args p = do q ← sprintf_at info_size format args p; pure (q % 2 ^ 32)

-- What a command prints, line by line; `none` if it cannot be started.
abbrev pub Commands : Type 0
Commands = String → Option (List Line)

-- `popen`, with all the lines that `fgets` will find.
unfoldable pub run_command : Commands → String → M (List Line)
unfolding perform
run_command output c = do
  perform (call "popen" (str c ∷ []))
  elim (output c) [ none ↦ stop bad_access | some ls ↦ pure ls ]

unfoldable pub pclose : M ⊤
unfolding perform
pclose = perform (call "pclose" [])

module _ (info_size : ℕ) where
  -- The line of the table for an extension; it needs both numbers.
  pub print_range : Kext → String → M Kext
  unfolding append_text
  print_range k name = elim k.start [
    | none ↦ stop bad_access
    | some a ↦ elim k.offset [
      | none ↦ stop bad_access
      | some n ↦ do
        p ←
            append_text info_size "0x%016llx\t0x%016llx\t%s\n"
              (num a ∷ num ((a + n) % 2 ^ 64) ∷ str name ∷ []) k.pos
        pure (record k { pos = p })
    ]
  ]

  -- The loop over the tokens of a line; `counter` has 8 bits.
  pub kext_tokens : List Token → ℕ → Kext → M Kext
  unfolding print_range
  kext_tokens [] counter k = pure k
  kext_tokens (t ∷ more) counter k =
      let counter' = (counter + 1) % 2 ^ 8 in
      if counter == 2
      then kext_tokens more counter' (record k { start = some t.value })
      else if counter == 3
      then kext_tokens more counter' (record k { offset = some t.value })
      else if counter == 5
      then print_range k t.text >>= kext_tokens more counter'
      else kext_tokens more counter' k

  -- The loop over the lines of `kextstat`.
  unfoldable pub kext_lines : List Line → Kext → M Kext
  unfolding kext_tokens
  kext_lines [] k = pure k
  kext_lines (l ∷ more) k = kext_tokens l.tokens 0 k >>= kext_lines more
