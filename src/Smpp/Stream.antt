-- ===== src/Smpp/Stream.antt =====
-- A stream of PDUs and the chunks that the network cuts it into.
use as_smpp.Prelude.{ℕ, ◌+◌, ◌≤◌, ◌<◌, ◌^◌, ◌≡◌, refl, sym, ap, ◌∙◌, arith, inl, inr}
use as_smpp.Prelude.{List, [], ◌∷◌, ◌++◌, append_assoc, length, length-append, ltb, All}
use as_smpp.Prelude.{
  take, drop, take-append, drop-append, take-append-drop, take-append_le, Bool-cases, length-drop,
}
use mathlib.Core.Path.{subst}
use as_smpp.Serializer.Spec.{big_endian}
use as_smpp.Serializer.Integer.{length-big_endian}
use as_smpp.Smpp.Receiving.{Incomplete, short, started}
use as_smpp.Smpp.Packets.{
  Packet, IsPacket, body_bytes, packet_bytes, stream, length-packet_bytes, packet_bytes-big_endian,
}

-- The bytes of some chunks.
unfoldable pub joined : List (List ℕ) → List ℕ
joined [] = []
joined (chunk ∷ chunks) = chunk ++ joined chunks

-- What one call of `recv` may return into the thread's array.
abbrev pub IsChunk : List ℕ → Type 0
IsChunk chunk = (0 < length chunk) × (length chunk ≤ 1024)

-- Less than the first of some PDUs.
abbrev pub IsShort : List ℕ → List Packet → Type 0
IsShort part [] = Unit
IsShort part (p ∷ ps) = length part < length (packet_bytes p)

-- A stream of PDUs, with `q` at its end, that is cut behind `x`: whole PDUs, and less than one.
pub record Partition (ps : List Packet) (q x y : List ℕ) : Type 0 where
  pub whole : List Packet
  pub todo : List Packet
  pub part : List ℕ
  pub split : ps ≡ whole ++ todo
  pub front : x ≡ stream whole ++ part
  pub behind : part ++ y ≡ stream todo ++ q
  pub less : IsShort part todo

pub cut_lem : (ps : List Packet) (q x y : List ℕ) → x ++ y ≡ stream ps ++ q → Partition ps q x y
unfolding stream
cut_lem [] q x y e = record {
  whole = [];
  todo = [];
  part = x;
  split = refl;
  front = refl;
  behind = e;
  less = tt;
}
cut_lem (p ∷ ps) q x y e = elim (Bool-cases (ltb (length x) (length (packet_bytes p)))) [
  | inl less ↦ record {
    whole = [];
    todo = p ∷ ps;
    part = x;
    split = refl;
    front = refl;
    behind = e;
    less = ground arith;
  }
  | inr enough ↦
      let f = packet_bytes p in
      let n = length f in
      let e' = e ∙ append_assoc f (stream ps) q in
      let begins : take n x ≡ f =
        sym (take-append_le n x y (ground arith))
        ∙ ap (λ t. take n t) e'
        ∙ take-append f (stream ps ++ q) n refl in
      let apart : x ≡ f ++ drop n x = sym (take-append-drop n x) ∙ ap (λ t. t ++ drop n x) begins in
      let later : drop n x ++ y ≡ stream ps ++ q =
        sym (drop-append f (drop n x ++ y) n refl)
        ∙ ap (λ t. drop n t) (sym (append_assoc f (drop n x) y) ∙ ap (λ t. t ++ y) (sym apart) ∙ e')
        ∙ drop-append f (stream ps ++ q) n refl in
      let next = cut_lem ps q (drop n x) y later in
      record {
        whole = p ∷ next.whole;
        todo = next.todo;
        part = next.part;
        split = ap (λ t. p ∷ t) next.split;
        front =
            apart
            ∙ ap (λ t. f ++ t) next.front
            ∙ sym (append_assoc f (stream next.whole) next.part);
        behind = next.behind;
        less = next.less;
      }
]

-- A part of what begins with a length, which is less than that length.
part_of_length :
    (len : ℕ) (part y rest : List ℕ)
    → len < 2 ^ 32
    → length part < len
    → part ++ y ≡ big_endian 4 len ++ rest
    → Incomplete part
part_of_length len part y rest small less e = elim (Bool-cases (ltb (length part) 4)) [
  | inl few ↦ short (ground arith)
  | inr enough ↦
      let begins : take 4 part ≡ big_endian 4 len =
        sym (take-append_le 4 part y (ground arith))
        ∙ ap (λ t. take 4 t) e
        ∙ take-append (big_endian 4 len) rest 4 (sym (length-big_endian 4 len)) in
      subst Incomplete (ap (λ t. t ++ drop 4 part) (sym begins) ∙ take-append-drop 4 part)
        (started len (drop 4 part) small (ground (arith, length-drop 4 part)))
]

prefix-Incomplete : (part y q : List ℕ) → part ++ y ≡ q → Incomplete q → Incomplete part
prefix-Incomplete part y q e (short h) = short (omega (arith, ap length e, length-append part y))
prefix-Incomplete part y _ e (started len rest small less) =
    part_of_length len part y rest small
      (omega (
        arith,
        ap length e,
        length-append part y,
        length-append (big_endian 4 len) rest,
        length-big_endian 4 len,
      ))
      e

-- What is left where a stream is cut is less than a whole PDU.
pub part-Incomplete :
    (todo : List Packet) (part y q : List ℕ)
    → All IsPacket todo
    → part ++ y ≡ stream todo ++ q
    → IsShort part todo
    → Incomplete q
    → Incomplete part
unfolding stream
part-Incomplete [] part y q ok e less last = prefix-Incomplete part y q e last
part-Incomplete (p ∷ ps) part y q ok e less last =
    let n = 16 + length (body_bytes p.body) in
    let rest = stream ps ++ q in
    let f = packet_bytes p in
    part_of_length n part y (drop 4 f ++ rest) ok.0.short (omega (arith, length-packet_bytes p)) (
      e
      ∙ append_assoc f (stream ps) q
      ∙ ap (λ t. t ++ rest) (packet_bytes-big_endian p)
      ∙ append_assoc (big_endian 4 n) (drop 4 f) rest)
