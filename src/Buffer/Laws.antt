-- ===== src/Buffer/Laws.antt =====
-- What the comparison of a buffer with a word finds, and when it stays inside the buffer.
use kafl_targets.Base.{
  ℕ, ⊤, suc, ◌+◌, ◌≤◌, ◌<◌, ◌≡◌, ◌≢◌, refl, ap, sym, ◌∙◌, Bool, true, false, Option, none, some,
  List, [], ◌∷◌, ◌++◌, length, get_elem?, ◌==◌, if◌then◌else◌, arith, String,
}
use kafl_targets.Machine.{
  Env, History, M, After, Outcome, no_return, exited, assertion, stack_overflow, out_of_fuel,
  NoBadAccess, done, stopped, bad_access, ◌>>=◌, ◌>>◌,
}
use kafl_targets.Buffer.{bytes_of, Memory, codes, chain, begins_with, probe}

-- The same comparison on the list of the bytes that are there.
pub prefix_of : List ℕ → List ℕ → Option Bool
prefix_of xs [] = some true
prefix_of [] (c ∷ w) = none
prefix_of (x ∷ xs) (c ∷ w) = let rest = prefix_of xs w in if x == c then rest else some false

tail :
    (mem : Memory) (i x : ℕ) (xs : List ℕ)
    → ((j : ℕ) → mem (i + j) ≡ get_elem? (x ∷ xs) j)
    → (j : ℕ) → mem (i + 1 + j) ≡ get_elem? xs j
tail mem i x xs same j = let e : i + 1 + j ≡ i + suc j = omega arith in ap mem e ∙ same (suc j)

pub chain-eq-prefix_of :
    (w : List ℕ) (mem : Memory) (i : ℕ) (xs : List ℕ)
    → ((j : ℕ) → mem (i + j) ≡ get_elem? xs j)
    → chain mem i w ≡ prefix_of xs w
unfolding chain prefix_of
chain-eq-prefix_of [] mem i xs same = refl
chain-eq-prefix_of (c ∷ w) mem i [] same =
    let e : i ≡ i + 0 = omega arith in rw (ap mem e ∙ same 0, chain)
chain-eq-prefix_of (c ∷ w) mem i (x ∷ xs) same =
    let e : i ≡ i + 0 = omega arith in
    let here : mem i ≡ some x = ap mem e ∙ same 0 in
    ground (arith, here, chain-eq-prefix_of w mem (i + 1) xs (tail mem i x xs same))

-- A comparison with a word that is no longer than the buffer stays inside it.
prefix_of-inside : (xs w : List ℕ) → length w ≤ length xs → prefix_of xs w ≢ none
unfolding prefix_of
prefix_of-inside xs [] le = ground arith
prefix_of-inside [] (c ∷ w) le = ground arith
prefix_of-inside (x ∷ xs) (c ∷ w) le = ground (arith, prefix_of-inside xs w)

abbrev pub NonZero : List ℕ → Type 0
NonZero [] = Unit
NonZero (c ∷ w) = (0 < c) × NonZero w

-- So does one that meets a terminator.
pub prefix_of-terminated : (xs w : List ℕ) → NonZero w → prefix_of (xs ++ (0 ∷ [])) w ≢ none
unfolding prefix_of
prefix_of-terminated xs [] nz = ground arith
prefix_of-terminated [] (c ∷ w) nz = ground arith
prefix_of-terminated (x ∷ xs) (c ∷ w) nz = ground (arith, prefix_of-terminated xs w nz.1)

-- It finds exactly the buffers that begin with the word.
prefix_of-true : (xs w : List ℕ) → prefix_of xs w ≡ some true → (rest : List ℕ) × (xs ≡ w ++ rest)
unfolding prefix_of
prefix_of-true xs [] e = (xs, refl)
prefix_of-true [] (c ∷ w) e = absurd (ground arith)
prefix_of-true (x ∷ xs) (c ∷ w) e =
    let (rest, p) = prefix_of-true xs w (ground arith) in (rest, ground arith)

prefix_of-append : (w rest : List ℕ) → prefix_of (w ++ rest) w ≡ some true
unfolding prefix_of
prefix_of-append [] rest = refl
prefix_of-append (c ∷ w) rest = ground (arith, prefix_of-append w rest)

-- A buffer that ends in the middle of the word is left.
pub prefix_of-outside : (xs : List ℕ) (c : ℕ) (w : List ℕ) → prefix_of xs (xs ++ (c ∷ w)) ≡ none
unfolding prefix_of
prefix_of-outside [] c w = refl
prefix_of-outside (x ∷ xs) c w = ground (arith, prefix_of-outside xs c w)

-- A buffer that is no shorter than the word.
pub bytes_of-inside : (buf w : List ℕ) → length w ≤ length buf → chain (bytes_of buf) 0 w ≢ none
bytes_of-inside buf w le e = prefix_of-inside buf w le (
    sym (
      chain-eq-prefix_of w (bytes_of buf) 0 buf
        (λ j. let z : 0 + j ≡ j = omega arith in ap (bytes_of buf) z))
    ∙ e)

pub NoBadAccess-then :
    {A B : Type 0} (m : M A) (k : M B) (env : Env) (h : History)
    → NoBadAccess (m env h)
    → ((h' : History) → NoBadAccess (k env h'))
    → NoBadAccess ((m >> k) env h)
NoBadAccess-then {A = A} {B = B} m k env h first next = go (m env h) first
  where
    go :
        (o : Outcome A)
        → NoBadAccess o
        → NoBadAccess {A = B} (elim o [ done a h' ↦ k env h' | stopped s h' ↦ stopped s h' ])
    go (done a h') q = next h'
    go (stopped no_return h') q = tt
    go (stopped (exited n) h') q = tt
    go (stopped assertion h') q = tt
    go (stopped stack_overflow h') q = tt
    go (stopped bad_access h') q = q
    go (stopped out_of_fuel h') q = tt

-- A test that stays inside the buffer is no access outside of it.
pub probe-NoBadAccess :
    (mem : Memory) (w : String) (found : M ⊤) (env : Env) (h : History)
    → chain mem 0 (codes w) ≢ none
    → NoBadAccess (found env h)
    → NoBadAccess (probe mem w found env h)
unfolding begins_with probe
probe-NoBadAccess mem w found env h inside next = ground arith

-- On a buffer that ends in the middle of the word, the test leaves it.
pub probe-bad_access :
    (mem : Memory) (w : String) (found : M ⊤) (env : Env) (h : History)
    → chain mem 0 (codes w) ≡ none
    → probe mem w found env h ≡ stopped bad_access h
unfolding begins_with probe
probe-bad_access mem w found env h outside = rw (outside, ◌>>=◌, begins_with)

-- A test of the buffer keeps what the program behind it keeps.
pub After-probe :
    (Q S : History → Type 0) (mem : Memory) (w : String) (found : M ⊤) (env : Env) (h : History)
    → Q h
    → S h
    → After (λ _. Q) S (found env h)
    → After (λ _. Q) S (probe mem w found env h)
unfolding begins_with probe
After-probe Q S mem w found env h q s next = ground arith

-- Whether a buffer begins with a word.
abbrev pub starts_with : List ℕ → List ℕ → Bool
starts_with xs w = elim (chain (bytes_of xs) 0 w) [ some b ↦ b | none ↦ false ]

chain-bytes_of : (xs w : List ℕ) → chain (bytes_of xs) 0 w ≡ prefix_of xs w
chain-bytes_of xs w =
    chain-eq-prefix_of w (bytes_of xs) 0 xs
      (λ j. let z : 0 + j ≡ j = omega arith in ap (bytes_of xs) z)

pub starts_with-false :
    (xs w : List ℕ) → ((rest : List ℕ) → xs ≢ w ++ rest) → starts_with xs w ≡ false
starts_with-false xs w other = rw (starts_with, chain-bytes_of xs w) (go (prefix_of xs w) refl)
  where
    go :
        (o : Option Bool)
        → prefix_of xs w ≡ o
        → (elim o as (λ _. Bool) [ some b ↦ b | none ↦ false ]) ≡ false
    go none e = refl
    go (some false) e = refl
    go (some true) e = let (rest, q) = prefix_of-true xs w e in elim (other rest q) [ ]
