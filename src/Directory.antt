-- ===== src/Directory.antt =====
-- The directory of a store (src/directory.cpp): a binary description of the objects and their
-- names, that `find` walks through for a name, and `list` for all of them. The directory is the
-- memory from a pointer on.
pub mod ObjectType
pub mod Tree
pub mod Numbers
pub mod Refine
pub mod Listing
pub mod Complete
pub mod Matching
pub mod Sound
pub mod Tests
use libstored.Prelude.{
  ℕ, zero, suc, Bool, true, false, ◌&&◌, ◌||◌, List, [], ◌∷◌, ◌++◌, Option, none, some,
}
use libstored.Prelude.{
  ◌==◌, if◌then◌else◌, ◌+◌, ◌-◌, ◌*◌, ◌%◌, ◌^◌, ltb, leb, drop, is_empty, bit_xor, size_max,
}
use libstored.Protocol.{Bytes}
use libstored.Directory.ObjectType.{is_fixed, is_function}
use libstored.Directory.ObjectType

-- `Variant`: the type, the id or the offset in the buffer, and the size.
pub data Variant : Type 0 where
  function : ℕ → ℕ → ℕ → Variant
  variable : ℕ → ℕ → ℕ → Variant

-- What the directory has of an object.
pub record Object : Type 0 where
  pub type : ℕ
  pub offset : ℕ
  pub size : ℕ

-- `find` casts the id of a function to unsigned int.
unfoldable pub variant_of : Object → Variant
unfolding is_function
variant_of o =
    if is_function o.type
    then function o.type (o.offset % 2 ^ 32) o.size
    else variable o.type o.offset o.size

-- What `find` returns. It is `unfinished` where it is not done in the rounds it is given.
pub data Search : Type 0 where
  found : Variant → Search
  not_found : Search
  unfinished : Search

-- How a char of the name compares with the one of the directory.
pub data Comparison : Type 0 where
  less : Comparison
  equal : Comparison
  greater : Comparison

-- A name is the bytes before its terminator, and `len`.
unfoldable pub name_ends : Bytes → ℕ → Bool
name_ends name len = is_empty name || len == 0

-- `c` of `find`. `char` is signed, or it is not. At the end of the name it is 0.
unfoldable pub compare_char : Bool → Bytes → ℕ → ℕ → Comparison
compare_char signed [] len b = less
compare_char signed (c ∷ name) len b =
    if len == 0 || (signed && leb 128 c) || ltb c b then less else if c == b then equal else greater

-- The loop that skips `n` chars: what is left of the name.
unfoldable pub skip_chars : ℕ → Bytes → ℕ → Option (Bytes × ℕ)
skip_chars zero name len = some (name, len)
skip_chars (suc n) [] len = none
skip_chars (suc n) (c ∷ name) len =
    let rest = skip_chars n name (len - 1) in if len == 0 || c == 47 then none else rest

-- The loop that skips till behind the next '/'. `len--` wraps at 0, and ends the loop.
unfoldable pub skip_to_slash : Bytes → ℕ → Option (Bytes × ℕ)
skip_to_slash [] len = none
skip_to_slash (c ∷ name) len =
    let rest = skip_to_slash name (len - 1) in
    if len == 0 then some (c ∷ name, size_max) else if c == 47 then some (name, len - 1) else rest

-- Calls one after the other.
unfoldable pub join : {A : Type 0} → Option (List A) → Option (List A) → Option (List A)
join none ys = none
join (some xs) none = none
join (some xs) (some ys) = some (xs ++ ys)

-- `name.append(n, '?')`
unfoldable pub unknown : ℕ → Bytes
unknown zero = []
unknown (suc n) = 63 ∷ unknown n

module _ (byte : ℕ → ℕ) where
  -- The loop of `decodeInt`: the value, and the pointer behind it. The lower seven bits of `v` are
  -- 0, so that `|` is a sum.
  unfoldable pub decode_from : ℕ → ℕ → ℕ → Option (ℕ × ℕ)
  decode_from zero v p = none
  decode_from (suc fuel) v p =
      let rest = decode_from fuel ((v + byte p % 128) * 128 % 2 ^ 64) (p + 1) in
      if leb 128 (byte p) then rest else some (v + byte p, p + 1)

  -- A number of 64 bits takes ten bytes at most.
  unfoldable pub decode_int : ℕ → Option (ℕ × ℕ)
  unfolding decode_from
  decode_int p = decode_from 10 0 p

  unfoldable pub skip_from : ℕ → ℕ → Option ℕ
  skip_from zero p = none
  skip_from (suc fuel) p =
      let rest = skip_from fuel (p + 1) in if leb 128 (byte p) then rest else some (p + 1)

  unfoldable pub skip_offset : ℕ → Option ℕ
  unfolding skip_from
  skip_offset p = skip_from 10 p

  -- An object at a pointer.
  unfoldable pub read_object : ℕ → Option Object
  unfolding is_fixed ObjectType.size decode_int
  read_object p =
      let type = bit_xor (byte p) 128 in
      elim (if is_fixed type then some (ObjectType.size type, p + 1) else decode_int (p + 1)) [
        | none ↦ none
        | some (size, p1) ↦ elim (decode_int p1) [
          | none ↦ none
          | some (offset, p2) ↦ some (record { type = type; offset = offset; size = size })
        ]
      ]

  -- `p += decodeInt(p) - 1`. The pointer behind the number is not 0, and a jump of 0 goes one back.
  unfoldable pub jump : ℕ → Option ℕ
  unfolding decode_int
  jump p = elim (decode_int p) [ none ↦ none | some (v, p1) ↦ some (p1 + v - 1) ]

  -- The pointer for each way to go on from a char at `p`.
  unfoldable pub branch : Comparison → ℕ → Option ℕ
  unfolding jump skip_offset
  branch less p = jump (p + 1)
  branch greater p = elim (skip_offset (p + 1)) [ none ↦ none | some p1 ↦ jump p1 ]
  branch equal p = elim (skip_offset (p + 1)) [ none ↦ none | some p1 ↦ skip_offset p1 ]

  module _ (signed : Bool) where
    unfoldable pub find : ℕ → ℕ → Bytes → ℕ → Search
    unfolding read_object name_ends skip_chars skip_to_slash compare_char branch
    find zero p name len = unfinished
    find (suc fuel) p name len =
        let b = byte p in
        let ends = name_ends name len in
        if b == 0
        then not_found
        else if leb 128 b
        then (elim (read_object p) [ none ↦ unfinished | some o ↦ found (variant_of o) ])
        else if leb b 31
        then (if ends then not_found else (elim (skip_chars b name len) [
          | none ↦ not_found
          | some (name', len') ↦ find fuel (p + 1) name' len'
        ]))
        else if b == 47
        then (if ends then not_found else (elim (skip_to_slash name len) [
          | none ↦ not_found
          | some (name', len') ↦ find fuel (p + 1) name' len'
        ]))
        else (let way = compare_char signed name len b in
            elim (branch way p) [
              | none ↦ unfinished
              | some p' ↦ elim way [
                | equal ↦ find fuel p' (drop 1 name) (len - 1)
                | less ↦ find fuel p' name len
                | greater ↦ find fuel p' name len
              ]
            ])

  -- The two numbers behind a char, as the pointers to go to, and the pointer behind them.
  unfoldable pub pointers : ℕ → Option (ℕ × ℕ × ℕ)
  unfolding decode_int
  pointers p = elim (decode_int (p + 1)) [
    | none ↦ none
    | some (v, p1) ↦ elim (decode_int p1) [
      | none ↦ none
      | some (w, p2) ↦ some (p1 + v - 1, p2 + w - 1, p2)
    ]
  ]

  -- The calls of the callback by `list`, each with its name. What a call appends to the name is
  -- erased again.
  unfoldable pub list : ℕ → ℕ → Bytes → Option (List (Bytes × Object))
  unfolding read_object pointers unknown join
  list zero p name = none
  list (suc fuel) p name =
      let b = byte p in
      if b == 0
      then some []
      else if leb 128 b
      then (elim (read_object p) [ none ↦ none | some o ↦ some ((name, o) ∷ []) ])
      else if leb b 31
      then list fuel (p + 1) (name ++ unknown b)
      else if b == 47
      then list fuel (p + 1) (name ++ (47 ∷ []))
      else (elim (pointers p) [
        | none ↦ none
        | some (l, g, e) ↦
            join (list fuel l name) (join (list fuel g name) (list fuel e (name ++ (b ∷ []))))
      ])
