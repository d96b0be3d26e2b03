-- ===== src/MacOs/Kexts/Laws.antt =====
-- The ranges of the kernel's extensions in the table.
use kafl_targets.Base.{ℕ, ◌+◌, ◌≤◌, ◌%◌, ◌^◌, ◌≡◌, ◌∙◌, refl, some, List, [], ◌∷◌, length, arith}
use kafl_targets.Machine.{pure, Env, History, ◌>>=◌, bind-pure}
use kafl_targets.MacOs.Kexts.{Token, Kext, print_range, kext_tokens}

module _ (info_size : ℕ) where
  -- The tokens behind the sixth print nothing, as long as the counter does not wrap round to it.
  kext_tokens-silent :
      (more : List Token) (c : ℕ) (k : Kext)
      → 6 ≤ c
      → c + length more ≤ 2 ^ 8
      → kext_tokens info_size more c k ≡ pure k
  unfolding kext_tokens
  kext_tokens-silent [] c k behind inside = refl
  kext_tokens-silent (t ∷ []) c k behind inside = ground arith
  kext_tokens-silent (t ∷ u ∷ more) c k behind inside =
      ground (arith, kext_tokens-silent (u ∷ more) ((c + 1) % 2 ^ 8) k (omega arith) (omega arith))

  -- A line of up to 256 tokens, six at least, prints one range: from the third token on, as long as the
  -- fourth one says, with the sixth one as its name.
  pub kext_tokens-range :
      (t0 t1 t2 t3 t4 t5 : Token) (more : List Token) (k : Kext) (env : Env) (h : History)
      → length more ≤ 250
      → kext_tokens info_size (t0 ∷ t1 ∷ t2 ∷ t3 ∷ t4 ∷ t5 ∷ more) 0 k env h
        ≡ print_range info_size
            (record { start = some t2.value; offset = some t3.value; pos = k.pos })
            t5.text
            env
            h
  unfolding kext_tokens print_range
  kext_tokens-range t0 t1 t2 t3 t4 t5 more k env h inside =
      let filled : Kext = record { start = some t2.value; offset = some t3.value; pos = k.pos } in
      let printed = print_range info_size filled t5.text in
      (λ i. (printed >>= λ k'. kext_tokens-silent more 6 k' (omega arith) (omega arith) i) env h)
      ∙ bind-pure printed env h
