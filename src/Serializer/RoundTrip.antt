-- ===== src/Serializer/RoundTrip.antt =====
-- Writers and readers of src/as-smpp-core/src/serializer.c one after the other.
use as_smpp.Prelude.{ℕ, ◌+◌, ◌*◌, ◌%◌, ◌^◌, ◌≤◌, ◌<◌, ◌≡◌, sym, ap, ◌∙◌, arith}
use as_smpp.Prelude.{List, [], ◌∷◌, ◌++◌, append_assoc, Run, ret, some, take, drop}
use as_smpp.Prelude.{length, length-append, All, take-append-drop, drop-append}
use as_smpp.Memory.{Memory, IsSupplied, size_mod}
use as_smpp.Buffer.{Buffer, copy}
use as_smpp.Buffer.Valid.{IsValid, contents, length-contents, Writes}
use as_smpp.Buffer.Editing.{copy-Writes}
use as_smpp.Serializer.{
  serialize_integer, deserialize_integer, serialize_string, deserialize_string,
}
use as_smpp.Serializer.Spec.{Holds, Reads, big_endian}
use as_smpp.Serializer.Integer.{serialize_integer-Writes, big_endian-Reads}
use as_smpp.Serializer.Text.{IsChar, serialize_string-Writes, serialize_string-Writes_long}
use as_smpp.Serializer.Text.{deserialize_string-Reads}

-- The bytes that a writer appended stand where the data ended before.
pub Holds-appended :
    {b b' : Buffer} (xs : List ℕ)
    → IsValid b
    → IsValid b'
    → contents b' ≡ contents b ++ xs
    → Holds b' b.data_len xs (drop b'.data_len b'.ptr)
Holds-appended {b} {b'} xs v v' e =
    let size = length-contents b v in
    let total = length-append (contents b) xs in
    record {
      valid = v';
      inside = omega (arith, ap length e, length-contents b' v', v'.filled);
      cells =
          ap (λ t. drop b.data_len t)
            (sym (take-append-drop b'.data_len b'.ptr)
              ∙ ap (λ t. t ++ drop b'.data_len b'.ptr) e
              ∙ append_assoc (contents b) xs _)
          ∙ drop-append (contents b) (xs ++ drop b'.data_len b'.ptr) b.data_len (sym size);
    }

write_read :
    {A : Type 0} {cost : ℕ} {xs : List ℕ} {a : A} {f : Buffer → Run Buffer}
    {g : Buffer → ℕ → Run (A × ℕ)} (b : Buffer)
    → Writes cost xs f
    → Reads xs a g
    → IsValid b
    → b.capacity + cost < size_mod
    → (b' : Buffer) × (f b ≡ ret b')
      × IsValid b'
      × (contents b' ≡ contents b ++ xs)
      × (g b' b.data_len ≡ ret (a, b'.data_len))
write_read {xs = xs} {a = a} b w r v room =
    let (b', done, out) = w.run b v room in
    let end : b.data_len + length xs ≡ b'.data_len = omega (
      arith,
      ap length out.holds,
      length-append (contents b) xs,
      length-contents b v,
      length-contents b' out.valid,
    ) in
    (
      b',
      done,
      out.valid,
      out.holds,
      r.run b' b.data_len _ (Holds-appended xs v out.valid out.holds) ∙ ap (λ k. ret (a, k)) end,
    )

module _ (mem : Memory) (supply : IsSupplied mem) where
  -- With a well-formed buffer that size_t leaves room to grow, and allocations that succeed: an integer
  -- of up to four bytes is appended in big-endian order, the buffer stays well formed, and reading from
  -- where the data ended before gives the integer back, cut to its width, and stops at the new end.
  pub deserialize-serialize_integer :
      (b : Buffer) (v n : ℕ)
      → n ≤ 4
      → IsValid b
      → b.capacity + (n + 16) < size_mod
      → (b' : Buffer) × (serialize_integer mem b v n ≡ ret b')
        × IsValid b'
        × (contents b' ≡ contents b ++ big_endian n v)
        × (deserialize_integer b' b.data_len n ≡ ret (v % 2 ^ (n * 8), b'.data_len))
  deserialize-serialize_integer b v n h ok room =
      write_read b (serialize_integer-Writes mem supply n v h) (big_endian-Reads n v h) ok room

  -- With a well-formed buffer that size_t leaves room to grow, and allocations that succeed: a text that
  -- is shorter than its field and than the target is appended with its terminator, the buffer stays well
  -- formed, and reading from where the data ended before copies the text to the front of the target and
  -- stops at the new end.
  pub deserialize-serialize_string :
      (b : Buffer) (t after target : List ℕ) (max_len size : ℕ)
      → All IsChar t
      → length t < max_len
      → length t < length target
      → IsValid b
      → b.capacity + (max_len + 16) < size_mod
      → (b' : Buffer) × (serialize_string mem b (some (t ++ (0 ∷ after))) max_len ≡ ret b')
        × IsValid b'
        × (contents b' ≡ contents b ++ (t ++ (0 ∷ [])))
        × (deserialize_string (some target) b' b.data_len size
            ≡ ret (some (t ++ (0 ∷ drop (length t + 1) target)), b'.data_len))
  deserialize-serialize_string b t after target max_len size ok short fits v room =
      write_read b (serialize_string-Writes mem supply t after max_len ok short)
        (deserialize_string-Reads t target size ok fits) v room

  -- With a well-formed buffer that size_t leaves room to grow, and allocations that succeed: a text that
  -- is not shorter than its field is cut to the size of the field, and no terminator follows it.
  pub serialize_string_cut :
      (b : Buffer) (t after : List ℕ) (max_len : ℕ)
      → All IsChar t
      → max_len ≤ length t
      → IsValid b
      → b.capacity + (max_len + 16) < size_mod
      → (b' : Buffer) × (serialize_string mem b (some (t ++ (0 ∷ after))) max_len ≡ ret b')
        × (contents b' ≡ contents b ++ take max_len t)
  serialize_string_cut b t after max_len ok long v room =
      let (b', r, a) =
        (serialize_string-Writes_long mem supply t after max_len ok long).run b v room in
      (b', r, a.holds)

  -- With a well-formed buffer that size_t leaves room to grow, and allocations that succeed: the buffer
  -- takes over `len` bytes of a block that has them behind its data, stays well formed, and grows by at
  -- most `len + 16` bytes.
  pub copy_lem :
      (b : Buffer) (source : List ℕ) (len : ℕ)
      → len ≤ length source
      → IsValid b
      → b.capacity + (len + 16) < size_mod
      → (b' : Buffer) × (copy mem b source len ≡ ret b')
        × IsValid b'
        × (contents b' ≡ contents b ++ take len source)
        × (b'.capacity ≤ b.capacity + (len + 16))
  copy_lem b source len h v room =
      let (b', r, a) = (copy-Writes mem supply source len h).run b v room in
      (b', r, a.valid, a.holds, a.growth)
