-- ===== src/MacOs/Kexts/Bounds.antt =====
-- How much the table of the kernel's extensions takes of the buffer.
use mathlib.Core.Path.{subst}
use kafl_targets.Base.{
  ℕ, ◌+◌, ◌*◌, ◌%◌, ◌^◌, ◌≤◌, ◌<◌, String, some, sym, List, [], ◌∷◌, length, arith,
}
use kafl_targets.Machine.{Env, History, Val, Safe, Safe-bind, pure}
use kafl_targets.Printed.{sprintf_at, TextsUpTo, sprintf_at-Safe}
use kafl_targets.MacOs.Kexts.{Token, Line, Kext, append_text, print_range, kext_tokens, kext_lines}
use kafl_targets.MacOs.Kexts.Laws.{kext_tokens-range}

-- The counter of 8 bits does not wrap around on any line.
abbrev pub CountsTokens : List Line → Type 0
CountsTokens [] = Unit
CountsTokens (l ∷ more) = (length l.tokens ≤ 256) × CountsTokens more

module _ (most info_size : ℕ) (env : Env) (short : TextsUpTo most env) where
  pub append_text-Safe :
      (limit : ℕ) (format : String) (args : List Val) (p : ℕ) (h : History)
      → p + most ≤ limit
      → limit < info_size
      → Safe (λ q _. q ≤ limit) (append_text info_size format args p env h)
  unfolding append_text
  append_text-Safe limit format args p h room inside =
      Safe-bind (λ q _. q ≤ limit) (λ q _. q ≤ limit) (sprintf_at info_size format args p)
        (λ q. pure (q % 2 ^ 32)) env h
        (sprintf_at-Safe most limit info_size format args p env h short room inside)
        (λ q h' q-le. omega arith)

  -- One range, of known numbers.
  print_range-Safe :
      (limit a n p : ℕ) (name : String) (h : History)
      → p + most ≤ limit
      → limit < info_size
      → Safe
          (λ (k : Kext) _. k.pos ≤ limit)
          (print_range info_size (record { start = some a; offset = some n; pos = p }) name env h)
  unfolding print_range
  print_range-Safe limit a n p name h room inside =
      Safe-bind (λ q _. q ≤ limit) (λ (k : Kext) _. k.pos ≤ limit) (append_text info_size _ _ p)
        (λ q. pure (record { start = some a; offset = some n; pos = q })) env h
        (append_text-Safe limit _ _ p h room inside) (λ q h' q-le. q-le)

  -- A line prints one text at most.
  kext_tokens-Safe :
      (limit : ℕ) (tokens : List Token) (k : Kext) (h : History)
      → length tokens ≤ 256
      → k.pos + most ≤ limit
      → limit < info_size
      → Safe (λ (k' : Kext) _. k'.pos ≤ limit) (kext_tokens info_size tokens 0 k env h)
  unfolding kext_tokens
  kext_tokens-Safe limit [] k h few room inside = omega arith
  kext_tokens-Safe limit (a ∷ []) k h few room inside = omega arith
  kext_tokens-Safe limit (a ∷ b ∷ []) k h few room inside = omega arith
  kext_tokens-Safe limit (a ∷ b ∷ c ∷ []) k h few room inside = omega arith
  kext_tokens-Safe limit (a ∷ b ∷ c ∷ d ∷ []) k h few room inside = omega arith
  kext_tokens-Safe limit (a ∷ b ∷ c ∷ d ∷ e ∷ []) k h few room inside = omega arith
  kext_tokens-Safe limit (a ∷ b ∷ c ∷ d ∷ e ∷ f ∷ more) k h few room inside =
      subst (Safe (λ (k' : Kext) _. k'.pos ≤ limit))
        (sym (kext_tokens-range info_size a b c d e f more k env h (omega arith)))
        (print_range-Safe limit c.value d.value k.pos f.text h room inside)

  pub kext_lines-Safe :
      (limit : ℕ) (lines : List Line) (k : Kext) (h : History)
      → CountsTokens lines
      → k.pos + length lines * most ≤ limit
      → limit < info_size
      → Safe (λ (k' : Kext) _. k'.pos ≤ limit) (kext_lines info_size lines k env h)
  unfolding kext_lines
  kext_lines-Safe limit [] k h counts room inside = omega arith
  kext_lines-Safe limit (l ∷ more) k h counts room inside =
      Safe-bind (λ (k' : Kext) _. k'.pos ≤ k.pos + most) (λ (k' : Kext) _. k'.pos ≤ limit)
        (kext_tokens info_size l.tokens 0 k) (kext_lines info_size more) env h
        (kext_tokens-Safe (k.pos + most) l.tokens k h counts.0 (omega arith) (grind arith))
        (λ k' h' k'-le. kext_lines-Safe limit more k' h' counts.1 (grind arith) inside)
