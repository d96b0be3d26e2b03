-- ===== src/Buffer.antt =====
-- Comparison of a buffer with a word, byte by byte: the targets of the fuzzer branch on it. A byte
-- that lies outside of the buffer, or was never written, is `none`.
pub mod Laws
use Prim.Native.Char.{code}
use Prim.Native.String.{String}
use kafl_targets.Base.{
  ℕ, ⊤, ◌+◌, Bool, true, false, Option, none, some, List, [], ◌∷◌, get_elem?, ◌==◌, if◌then◌else◌,
}
use kafl_targets.Machine.{M, pure, stop, when, ◌>>=◌, bad_access}

abbrev pub Memory : Type 0
Memory = ℕ → Option ℕ

-- The bytes of a word.
abbrev pub codes : String → List ℕ
codes String.[] = []
codes (String.◌∷◌ c s) = code c ∷ codes s

-- `buf[i] == w[0] && buf[i + 1] == w[1] && ..`, up to the first difference.
unfoldable pub chain : Memory → ℕ → List ℕ → Option Bool
chain mem i [] = some true
chain mem i (c ∷ w) = elim (mem i) [
  | none ↦ none
  | some b ↦ if b == c then chain mem (i + 1) w else some false
]

-- Nested `if`s over the bytes of a buffer.
unfoldable pub begins_with : Memory → String → M Bool
unfolding chain
begins_with mem w = elim (chain mem 0 (codes w)) [ none ↦ stop bad_access | some b ↦ pure b ]

-- A test of the buffer, with what happens if it begins with the word.
unfoldable pub probe : Memory → String → M ⊤ → M ⊤
probe mem w found = do b ← begins_with mem w; when b found

-- A buffer whose bytes are all there.
abbrev pub bytes_of : List ℕ → Memory
bytes_of = get_elem?
