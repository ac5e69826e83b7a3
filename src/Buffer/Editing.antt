-- ===== src/Buffer/Editing.antt =====
-- What the functions on buffers do to the data: core.c from as_smpp_buffer_init on.
use as_smpp.Prelude.{ℕ, ◌+◌, ◌-◌, ◌%◌, ◌≤◌, ◌<◌, ◌≡◌, refl, sym, ◌∙◌, arith, inl, inr}
use as_smpp.Prelude.{List, [], ◌∷◌, ◌++◌, append-nil, ret, leb, Bool-cases}
use as_smpp.Prelude.{length, take, drop, take-take, take-append, length-take, length-drop}
use as_smpp.Prelude.{append_assoc, length-append, drop-all, drop-take}
use mathlib.Core.Path.{ap₂}
use as_smpp.Memory.{Memory, IsSupplied, size_mod}
use as_smpp.Buffer.{Buffer, init, push, add, push_block, copy, remove}
use as_smpp.Buffer.Cells.{store_lem, copy_in_lem, load_block_lem, move_down_lem}
use as_smpp.Buffer.Valid.{IsValid, contents, fill, Fills, Writes, length-contents}
use as_smpp.Buffer.Growth.{Writes-grow}

pub push-Fills : (byte : ℕ) → Fills (byte ∷ []) (push byte)
unfolding push fill
push-Fills byte = record {
  run = λ b v room.
      let next : (b.data_len + 1) % size_mod ≡ b.data_len + 1 = omega (arith, v.bounded) in
      rw (store_lem b.ptr b.data_len byte (omega (arith, v.sized)), next) refl;
}

pub push_block-Fills :
    (source : List ℕ) (len : ℕ)
    → len ≤ length source
    → Fills (take len source) (push_block source len)
unfolding push_block fill
push_block-Fills source len h = record {
  run = λ b v room.
      let size : length (take len source) ≡ len = omega (arith, length-take len source) in
      let next : (b.data_len + len) % size_mod ≡ b.data_len + len = omega (arith, v.bounded) in
      rw
        (
          load_block_lem source 0 len (omega arith),
          copy_in_lem b.ptr b.data_len (take len source) (omega (arith, v.sized)),
          next,
          size,
        )
        refl;
}

module _ (mem : Memory) (supply : IsSupplied mem) where
  pub add-Writes : (byte : ℕ) → Writes 17 (byte ∷ []) (λ b. add mem b byte)
  unfolding add
  add-Writes byte = Writes-grow mem supply 1 (omega arith) (push-Fills byte)

  pub copy-Writes :
      (source : List ℕ) (len : ℕ)
      → len ≤ length source
      → Writes (len + 16) (take len source) (λ b. copy mem b source len)
  unfolding copy
  copy-Writes source len h =
      Writes-grow mem supply len (omega (arith, length-take len source))
        (push_block-Fills source len h)

  pub init-IsValid : (n : ℕ) → n < size_mod → IsValid (init mem n) × (contents (init mem n) ≡ [])
  unfolding init
  init-IsValid n h =
      (record { sized = supply.length-malloc n h; filled = omega arith; bounded = h }, refl)

-- In a well-formed buffer and for `index` up to `len` and up to the end of the data: removing leaves
-- the data before `index` and those from `len` on, with no access out of bounds, and the buffer stays
-- well formed with its capacity.
pub remove_lem :
    (b : Buffer) (index len : ℕ)
    → IsValid b
    → index ≤ len
    → index ≤ b.data_len
    → (b' : Buffer) × (remove b index len ≡ ret b')
      × IsValid b'
      × (contents b' ≡ take index (contents b) ++ drop len (contents b))
      × (b'.capacity ≡ b.capacity)
unfolding remove
remove_lem b index len v h k = elim (Bool-cases (leb b.data_len len)) [
  | inl all ↦
      let none_left : drop len (contents b) ≡ [] =
        drop-all len (contents b) (ground (arith, length-contents b v)) in
      (
        record b { data_len = index },
        rw all refl,
        record { sized = v.sized; filled = omega (arith, v.filled); bounded = v.bounded },
        rw (none_left, append-nil) (sym (take-take index b.data_len b.ptr k)),
        refl,
      )
  | inr more ↦
      let rest = b.data_len - len in
      let lt : len < b.data_len = ground arith in
      let left : (b.data_len + size_mod - (len + size_mod - index) % size_mod) % size_mod
          ≡ index + rest =
        omega (arith, v.filled, v.bounded) in
      let moved = take rest (drop len b.ptr) in
      let tail = drop (index + rest) b.ptr in
      let front : length (take index b.ptr) ≡ index =
        omega (arith, length-take index b.ptr, v.sized, v.filled) in
      let back : length moved ≡ rest =
        omega
          (arith, length-take rest (drop len b.ptr), length-drop len b.ptr, v.sized, v.filled) in
      let kept = take index b.ptr ++ moved in
      let kept_size : length kept ≡ index + rest =
        omega (arith, length-append (take index b.ptr) moved) in
      (
        record b { ptr = take index b.ptr ++ (moved ++ tail); data_len = index + rest },
        rw (more, move_down_lem b.ptr index len rest h (omega (arith, v.sized, v.filled)), left)
            refl,
        record {
          sized = rw (← append_assoc (take index b.ptr) moved tail) (
              omega (
                arith,
                length-append kept tail,
                length-drop (index + rest) b.ptr,
                v.sized,
                v.filled,
              ));
          filled = omega (arith, v.filled);
          bounded = v.bounded;
        },
        rw (← append_assoc (take index b.ptr) moved tail) (
            take-append kept tail (index + rest) (sym kept_size)
            ∙ ap₂ (λ s t. s ++ t) (sym (take-take index b.data_len b.ptr k))
                (sym (drop-take len rest b.data_len b.ptr (omega arith)))),
        refl,
      )
]
