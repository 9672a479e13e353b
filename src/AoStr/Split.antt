-- ===== src/AoStr/Split.antt =====
-- aoStrSplit of aostr.c. The array of pointers is the strings that are stored and the bytes that its
-- block has.
pub mod First
mod Tests
use Prim.Native.Nat.{◌*◌}
use dictionary.AoStr.{AoStr, Libc, dup_raw}
use dictionary.Base.{
  ℕ, zero, suc, ◌+◌, Bool, true, false, Option, none, some, List, [], ◌∷◌, ◌++◌, Run, ok, fault,
  ◌>>=◌, length, ltb, leb, ◌==◌, if◌then◌else◌,
}

pub record PointerArray : Type 0 where
  pub stored : List AoStr
  pub bytes : ℕ

-- `outArr[arrsize] = s`, where a pointer has eight bytes
unfoldable pub store_next : PointerArray → AoStr → Run PointerArray
store_next arr s =
    if leb ((length arr.stored + 1) * 8) arr.bytes
    then ok (record arr { stored = arr.stored ++ s ∷ [] })
    else fault

-- A delimiter at the very start is passed over.
abbrev pub skip_first : ℕ → List ℕ → List ℕ
skip_first delimiter [] = []
skip_first delimiter (c ∷ cs) = if c == delimiter then cs else c ∷ cs

module _ (libc : Libc) where
  -- `memslot < arrsize + 5`, with the `realloc` behind it, of as many
  -- structures of 32 bytes: nothing where it fails. The allocator hands over bytes; what the array
  -- holds stands in `stored`.
  unfoldable pub grow : PointerArray → ℕ → Option (PointerArray × ℕ)
  grow arr memslot =
      if ltb memslot (length arr.stored + 5)
      then elim (libc.realloc [] (memslot * 5 * 32)) [
        | none ↦ none
        | some _ ↦ some (record arr { bytes = memslot * 5 * 32 }, memslot * 5)
      ]
      else some (arr, memslot)

  -- The loop, on what `ptr` points to; `token` is the bytes from `start` to `end`.
  unfoldable pub split_loop : ℕ → PointerArray → ℕ → List ℕ → List ℕ → Run (Option PointerArray)
  split_loop delimiter arr memslot token [] = fault
  split_loop delimiter arr memslot token (c ∷ cs) = elim (c == 0) [
    | true ↦
        dup_raw libc token (length token) >>= λ last. store_next arr last >>= λ arr'. ok (some arr')
    | false ↦ elim (grow arr memslot) [
      | none ↦ ok none
      | some (arr1, memslot') ↦ elim (c == delimiter) [
        | true ↦ dup_raw libc token (length token) >>= λ s.
            store_next arr1 s >>= λ arr2. split_loop delimiter arr2 memslot' [] cs
        | false ↦ split_loop delimiter arr1 memslot' (token ++ c ∷ []) cs
      ]
    ]
  ]

  -- `aoStrSplit`: the strings, or NULL. The first `malloc` is of `memslot` bytes, not pointers.
  unfoldable pub split : List ℕ → ℕ → Run (Option PointerArray)
  split to_split delimiter = elim (libc.malloc 5) [
    | none ↦ ok none
    | some _ ↦
        split_loop delimiter (record { stored = []; bytes = 5 }) 5 []
          (skip_first delimiter to_split)
  ]
