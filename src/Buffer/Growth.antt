-- ===== src/Buffer/Growth.antt =====
-- ensure_capacity makes room and keeps the data, and the functions that use it append.
use as_smpp.Prelude.{ℕ, ◌+◌, ◌%◌, ◌≤◌, ◌<◌, ◌≡◌, refl, sym, ap, ◌∙◌, arith, inl, inr}
use as_smpp.Prelude.{List, ◌++◌, Run, ltb, Bool-cases}
use as_smpp.Prelude.{length, take, take-take}
use as_smpp.Memory.{Memory, IsSupplied, size_mod}
use as_smpp.Buffer.{Buffer, ensure_capacity}
use as_smpp.Buffer.Valid.{IsValid, contents, fill, fill-IsValid, contents-fill, Fills, Writes}

module _ (mem : Memory) (supply : IsSupplied mem) where
  -- Room for `n` bytes, and the same data.
  pub record HasRoom (n : ℕ) (b b' : Buffer) : Type 0 where
    pub valid : IsValid b'
    pub same : contents b' ≡ contents b
    pub room : b'.data_len + n ≤ b'.capacity
    pub cost : b'.capacity ≤ b.capacity + (n + 16)

  take-realloc :
      (b : Buffer) (c : ℕ)
      → IsValid b
      → c < size_mod
      → b.capacity ≤ c
      → take b.data_len (mem.realloc b.ptr c) ≡ contents b
  take-realloc b c v hc le =
      let whole = supply.realloc_keeps b.ptr c hc (omega (arith, v.sized)) in
      sym (
        take-take b.data_len (length b.ptr) (mem.realloc b.ptr c)
          (omega (arith, v.sized, v.filled)))
      ∙ ap (λ t. take b.data_len t) whole

  pub ensure_capacity-HasRoom :
      (b : Buffer) (n : ℕ)
      → IsValid b
      → b.capacity + (n + 16) < size_mod
      → HasRoom n b (ensure_capacity mem b n)
  unfolding ensure_capacity
  ensure_capacity-HasRoom b n v fits =
      let wanted : (b.data_len + n) % size_mod ≡ b.data_len + n = omega (arith, v.filled) in
      let grown : (b.capacity + n + 16) % size_mod ≡ b.capacity + n + 16 = omega arith in
      elim (Bool-cases (ltb b.capacity (b.data_len + n))) [
        | inl short ↦
            rw (wanted, grown, short)
              (record {
                valid = record {
                  sized = supply.length-realloc b.ptr (b.capacity + n + 16) (omega arith);
                  filled = omega (arith, v.filled);
                  bounded = omega arith;
                };
                same = take-realloc b (b.capacity + n + 16) v (omega arith) (omega arith);
                room = omega (arith, v.filled);
                cost = omega arith;
              })
        | inr fit ↦
            rw (wanted, grown, fit)
              (record { valid = v; same = refl; room = ground arith; cost = omega arith })
      ]

  -- A filler behind a call of ensure_capacity that asks for enough.
  pub Writes-grow :
      {xs : List ℕ} {f : Buffer → Run Buffer} (n : ℕ)
      → length xs ≤ n
      → Fills xs f
      → Writes (n + 16) xs (λ b. f (ensure_capacity mem b n))
  Writes-grow {xs} {f} n small hf = record {
    run = λ b v fits.
        let g = ensure_capacity-HasRoom b n v fits in
        let b₁ = ensure_capacity mem b n in
        (
          fill xs b₁,
          hf.run b₁ g.valid (omega (arith, g.room)),
          record {
            valid = fill-IsValid xs b₁ g.valid (omega (arith, g.room));
            holds = contents-fill xs b₁ g.valid ∙ ap (λ t. t ++ xs) g.same;
            growth = unfold fill in g.cost;
          },
        );
  }
