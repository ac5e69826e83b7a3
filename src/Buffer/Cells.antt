-- ===== src/Buffer/Cells.antt =====
-- Reads and writes of the cells of a block, with the faults of the memory.
use as_smpp.Prelude.{ℕ, zero, suc, ◌+◌, ◌≤◌, ◌<◌, ◌≡◌, refl, ap, arith}
use as_smpp.Prelude.{
  List, [], ◌∷◌, ◌++◌, length, length-take, length-drop, take, drop, leb, if◌then◌else◌,
}
use as_smpp.Prelude.{Run, ret, fault, ◌>>=◌}

-- `block[i] = v`
unfoldable pub store : List ℕ → ℕ → ℕ → Run (List ℕ)
store [] i v = fault
store (x ∷ xs) zero v = ret (v ∷ xs)
store (x ∷ xs) (suc i) v = do ys ← store xs i v; ret (x ∷ ys)

-- The `len` cells from `offset` on, as the source of a memcpy.
unfoldable pub load_block : List ℕ → ℕ → ℕ → Run (List ℕ)
load_block cells offset len =
    if leb (offset + len) (length cells) then ret (take len (drop offset cells)) else fault

-- The target of a memcpy.
unfoldable pub copy_in : List ℕ → ℕ → List ℕ → Run (List ℕ)
copy_in cells offset bytes =
    if leb (offset + length bytes) (length cells)
    then ret (take offset cells ++ (bytes ++ drop (offset + length bytes) cells))
    else fault

-- memmove within one block
unfoldable pub move_down : List ℕ → ℕ → ℕ → ℕ → Run (List ℕ)
unfolding load_block copy_in
move_down cells to from len = do bytes ← load_block cells from len; copy_in cells to bytes

pub store_lem :
    (cells : List ℕ) (i v : ℕ)
    → i < length cells
    → store cells i v ≡ ret (take i cells ++ (v ∷ drop (i + 1) cells))
unfolding store
store_lem [] i v h = elim h [ ]
store_lem (x ∷ xs) zero v h = refl
store_lem (x ∷ xs) (suc i) v h =
    rw (store_lem xs i v (omega arith)) (ap (λ t. ret (x ∷ (take i xs ++ (v ∷ t)))) (step i))
  where
    step : (n : ℕ) → drop (n + 1) xs ≡ drop (suc n + 1) (x ∷ xs)
    step n = ap (λ t. drop t (x ∷ xs)) (let e : suc (n + 1) ≡ suc n + 1 = omega arith in e)

pub load_block_lem :
    (cells : List ℕ) (offset len : ℕ)
    → offset + len ≤ length cells
    → load_block cells offset len ≡ ret (take len (drop offset cells))
unfolding load_block
load_block_lem cells offset len h = ground arith

pub copy_in_lem :
    (cells : List ℕ) (offset : ℕ) (bytes : List ℕ)
    → offset + length bytes ≤ length cells
    → copy_in cells offset bytes
      ≡ ret (take offset cells ++ (bytes ++ drop (offset + length bytes) cells))
unfolding copy_in
copy_in_lem cells offset bytes h = ground arith

-- Both ranges lie in the block: the move is done, and the source is read before it is overwritten.
pub move_down_lem :
    (cells : List ℕ) (to from n : ℕ)
    → to ≤ from
    → from + n ≤ length cells
    → move_down cells to from n
      ≡ ret (take to cells ++ (take n (drop from cells) ++ drop (to + n) cells))
unfolding move_down
move_down_lem cells to from n h room =
    let moved = take n (drop from cells) in
    let size : length moved ≡ n =
      omega (arith, length-take n (drop from cells), length-drop from cells) in
    rw (load_block_lem cells from n room, copy_in_lem cells to moved (omega arith), size) refl

pub copy_in_fault :
    (cells : List ℕ) (offset : ℕ) (bytes : List ℕ)
    → length cells < offset + length bytes
    → copy_in cells offset bytes ≡ fault
unfolding copy_in
copy_in_fault cells offset bytes h = ground arith

pub load_block_fault :
    (cells : List ℕ) (offset len : ℕ)
    → length cells < offset + len
    → load_block cells offset len ≡ fault
unfolding load_block
load_block_fault cells offset len h = ground arith
