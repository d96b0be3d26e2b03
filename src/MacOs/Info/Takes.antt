-- ===== src/MacOs/Info/Takes.antt =====
-- How many texts a part of the program prints at most, and how this goes through a program.
use kafl_targets.Base.{ℕ, suc, ◌+◌, ◌*◌, ◌≤◌, ◌<◌, ◌≡◌, String, some, List, arith}
use kafl_targets.Machine.{M, Env, History, Event, Val, perform, Safe, Safe-bind, ◌>>=◌, pure}
use kafl_targets.Printed.{TextsUpTo}
use kafl_targets.MacOs.Kexts.{Line, Commands, append_text, run_command, pclose}
use kafl_targets.MacOs.Kexts.Bounds.{append_text-Safe}

abbrev pub Any {ℓ} : {A : Type ℓ} → A → History → Type 0
Any _ _ = Unit

module _ (most info_size : ℕ) (env : Env) (short : TextsUpTo most env) where
  -- The program prints `n` texts at most.
  abbrev pub Takes : (ℕ → M ℕ) → ℕ → Type 0
  Takes f n =
      (p limit : ℕ) (h : History)
      → p + n * most ≤ limit
      → limit < info_size
      → Safe (λ q _. q ≤ limit) (f p env h)

  pub Takes-bind :
      (f g : ℕ → M ℕ) (m n : ℕ) → Takes f m → Takes g n → Takes (λ p. f p >>= g) (m + n)
  Takes-bind f g m n first second p limit h room inside =
      Safe-bind (λ q _. q ≤ p + m * most) (λ q _. q ≤ limit) (f p) g env h
        (first p (p + m * most) h (omega arith) (grind arith))
        (λ q h' q-le. second q limit h' (grind arith) inside)

  pub Takes-le : (f : ℕ → M ℕ) (m n : ℕ) → m ≤ n → Takes f m → Takes f n
  Takes-le f m n more takes p limit h room inside = takes p limit h (grind arith) inside

  pub Takes-more : (f g : ℕ → M ℕ) (n : ℕ) → Takes f 1 → Takes g n → Takes (λ p. f p >>= g) (suc n)
  Takes-more f g n first second p limit h room inside =
      Takes-bind f g 1 n first second p limit h (grind arith) inside

  pub Takes-pure : Takes pure 0
  Takes-pure p limit h room inside = omega arith

  pub append_text-Takes :
      (format : String) (args : List Val) → Takes (append_text info_size format args) 1
  append_text-Takes format args p limit h room inside =
      append_text-Safe most info_size env short limit format args p h (omega arith) inside

  -- What comes before a text and prints nothing.
  pub Takes-then :
      {A : Type 0} (Q : A → History → Type 0) (m : M A) (f : A → ℕ → M ℕ) (n : ℕ)
      → ((h : History) → Safe Q (m env h))
      → ((a : A) (h : History) → Q a h → Takes (f a) n)
      → Takes (λ p. m >>= λ a. f a p) n
  Takes-then Q m f n before next p limit h room inside =
      Safe-bind Q (λ q _. q ≤ limit) m (λ a. f a p) env h (before h)
        (λ a h' q. next a h' q p limit h' room inside)

  pub run_command-Safe :
      (output : Commands) (c : String) (ls : List Line)
      → output c ≡ some ls
      → (h : History) → Safe (λ r _. r ≡ ls) (run_command output c env h)
  unfolding run_command
  run_command-Safe output c ls e h = ground arith

  perform-Safe : (e : Event) (h : History) → Safe Any (perform e env h)
  unfolding perform
  perform-Safe e h = ground arith

  pclose-Safe : (h : History) → Safe Any (pclose env h)
  unfolding pclose
  pclose-Safe h = ground arith
