-- ===== src/Hmap.antt =====
-- The hash table of hmap.c and hmap.h, the daemon's cache. A bucket is the list of the entries that
-- hang on it by `next`, the head first. `HmapType` holds the callbacks that `hm->type` points at.
-- Whether `malloc` and `calloc` find memory is an argument, `Memory`. Words are 32 bits wide.
pub mod Bucket
pub mod Table
pub mod Hash
pub mod Flatten
pub mod Expand
pub mod Refines
pub mod Update
pub mod Lookup
pub mod Iterate
pub mod Fixed
pub mod Entries
mod Tests
use dictionary.Base.{
  ℕ, zero, suc, ◌+◌, ◌-◌, ◌*◌, ◌/◌, ◌%◌, ◌^◌, bit_and, Bool, false, not, ◌&&◌, Option, none, some,
  List, [], ◌∷◌, Run, ok, fault, ◌>>=◌, at, put, replicate, leb, ◌==◌, if◌then◌else◌,
}

-- `keycmp k1 h1 k2 h2` and `hashFn`
pub record HmapType {ℓ} (K : Type ℓ) : Type ℓ where
  pub keycmp : K → ℕ → K → ℕ → Bool
  pub hash_fn : K → ℕ

pub record Entry {ℓ} (K V : Type ℓ) : Type ℓ where
  pub key : K
  pub value : V
  pub hash : ℕ

abbrev pub Bucket {ℓ} : Type ℓ → Type ℓ → Type ℓ
Bucket K V = List (Entry K V)

pub record Hmap {ℓ} (K V : Type ℓ) : Type ℓ where
  pub size : ℕ
  pub capacity : ℕ
  pub mask : ℕ
  pub rebuild_threshold : ℕ
  pub fixed_size : Bool
  pub entries : List (Bucket K V)

-- HM_ERR, HM_OK, HM_FOUND and HM_NOT_FOUND
pub data Status : Type 0 where
  hm_err hm_ok hm_found hm_not_found : Status

-- Which allocations succeed: of a struct `hmap`, of an array of buckets, of an entry.
pub record Memory : Type 0 where
  pub struct : Bool
  pub table : Bool
  pub entry : Bool

abbrev pub u32 : ℕ
u32 = 2 ^ 32

abbrev pub min_capacity : ℕ
min_capacity = 2 ^ 16

-- `(unsigned int)(HM_LOAD * capacity)`. The double nearest to 0.67 is the numerator below over
-- 2 ^ 53, and its product with a power of two below 2 ^ 32 is exact.
unfoldable pub load_threshold : ℕ → ℕ
load_threshold capacity = 6034823500676465 * capacity / 2 ^ 53

-- `_hmapShouldRebuild`
unfoldable pub should_rebuild {ℓ} : {K V : Type ℓ} → Hmap K V → Bool
should_rebuild hm = leb hm.rebuild_threshold hm.size && not hm.fixed_size

module _ {ℓ} {K V : Type ℓ} where
  -- The fields that `_hmapCreate` sets. The array has HM_MIN_CAPACITY buckets whatever
  -- `start_capacity` is.
  unfoldable pub new : Bool → ℕ → Hmap K V
  new fixed start_capacity = record {
    size = 0;
    capacity = start_capacity;
    mask = (start_capacity + u32 - 1) % u32;
    rebuild_threshold = load_threshold start_capacity;
    fixed_size = fixed;
    entries = replicate min_capacity [];
  }

  -- `_hmapCreate`
  unfoldable pub create_with : Memory → Bool → ℕ → Option (Hmap K V)
  unfolding new
  create_with mem fixed start_capacity =
      if mem.struct && mem.table then some (new fixed start_capacity) else none

  -- `hmapCreate` and `hmapCreateWithType`
  unfoldable pub create : Memory → Option (Hmap K V)
  unfolding create_with
  create mem = create_with mem false min_capacity

  -- The inner loop of `_hmapExpand`: the entries of one bucket go to the heads of their new
  -- buckets, and `size` counts down.
  pub move_bucket : ℕ → Bucket K V → List (Bucket K V) → ℕ → Run (List (Bucket K V) × ℕ)
  move_bucket new_mask [] fresh size = ok (fresh, size)
  move_bucket new_mask (he ∷ rest) fresh size = do
    let idx = bit_and he.hash new_mask
    head ← at fresh idx
    fresh' ← put fresh idx (he ∷ head)
    move_bucket new_mask rest fresh' ((size + u32 - 1) % u32)

  -- Its outer loop, `for (i = 0; i < capacity && size > 0; ++i)`: `rounds` is `capacity - i`, and
  -- the old buckets from `i` on are left.
  pub move_all : ℕ → ℕ → List (Bucket K V) → List (Bucket K V) → ℕ → Run (List (Bucket K V))
  unfolding move_bucket
  move_all zero new_mask old fresh size = ok fresh
  move_all (suc rounds) new_mask old fresh size = if size == 0 then ok fresh else elim old [
    | [] ↦ fault
    | b ∷ bs ↦
        (move_bucket new_mask b fresh size >>= λ (fresh', size').
        move_all rounds new_mask bs fresh' size')
  ]

  -- `_hmapExpand`
  unfoldable pub expand : Memory → Hmap K V → Run (Status × Hmap K V)
  unfolding move_all load_threshold
  expand mem hm =
      let new_capacity = hm.capacity * 2 % u32 in
      let new_mask = (new_capacity + u32 - 1) % u32 in
      if mem.table
      then (move_all hm.capacity new_mask hm.entries (replicate new_capacity []) hm.size
          >>= λ fresh. ok (
            hm_ok,
            record hm {
              entries = fresh;
              mask = new_mask;
              capacity = new_capacity;
              rebuild_threshold = load_threshold new_capacity;
            },
          ))
      else ok (hm_err, hm)

  -- What `_hmapGetIndex` does first: a failed expansion is ignored.
  unfoldable pub rebuild : Memory → Hmap K V → Run (Hmap K V)
  unfolding should_rebuild expand
  rebuild mem hm = if should_rebuild hm then (expand mem hm >>= λ r. ok (r.1)) else ok hm

module _ {ℓ} {K V : Type ℓ} (type : HmapType K) where
  -- The walk `while (he)` that `_hmapGetIndex` and `hmapGetEntry` make.
  unfoldable pub find : K → ℕ → Bucket K V → Option (Entry K V)
  find key hash [] = none
  find key hash (he ∷ rest) =
      if type.keycmp key hash he.key he.hash then some he else find key hash rest

  -- The walk of `hmapDelete`, which links the entry before `he` to the one behind it.
  unfoldable pub unlink : K → ℕ → Bucket K V → Option (Entry K V × Bucket K V)
  unlink key hash [] = none
  unlink key hash (he ∷ rest) =
      if type.keycmp key hash he.key he.hash
      then some (he, rest)
      else elim (unlink key hash rest) [ none ↦ none | some (out, rest') ↦ some (out, he ∷ rest') ]

  -- `_hmapGetIndex`: HM_FOUND, or the index of the key's bucket; and the table, perhaps rebuilt.
  unfoldable pub get_index : Memory → Hmap K V → K → ℕ → Run (Option ℕ × Hmap K V)
  unfolding rebuild find
  get_index mem hm key hash = do
    hm' ← rebuild mem hm
    let idx = bit_and hash hm'.mask
    he ← at hm'.entries idx
    elim (find key hash he) [ none ↦ ok (some idx, hm') | some e ↦ ok (none, hm') ]

  -- `hmapGetEntry`
  unfoldable pub get_entry : Hmap K V → K → Run (Option (Entry K V))
  unfolding find
  get_entry hm key = do
    let hash = type.hash_fn key
    he ← at hm.entries (bit_and hash hm.mask)
    ok (find key hash he)

  -- `hmapGet`
  unfoldable pub get : Hmap K V → K → Run (Option V)
  unfolding get_entry
  get hm key = do he ← get_entry hm key; elim he [ none ↦ ok none | some e ↦ ok (some e.value) ]

  -- `hmapContains`
  unfoldable pub contains : Memory → Hmap K V → K → Run (Status × Hmap K V)
  unfolding get_index
  contains mem hm key = do
    (idx, hm') ← get_index mem hm key (type.hash_fn key)
    elim idx [ none ↦ ok (hm_found, hm') | some i ↦ ok (hm_not_found, hm') ]

  -- `hmapAdd`
  unfoldable pub add : Memory → Hmap K V → K → V → Run (Status × Hmap K V)
  unfolding get_index
  add mem hm key value = do
    let hash = type.hash_fn key
    (found, hm') ← get_index mem hm key hash
    elim found [
      | none ↦ ok (hm_found, hm')
      | some idx ↦
          if mem.entry
          then (do
            next ← at hm'.entries idx
            let new_he : Entry K V = record { key = key; value = value; hash = hash }
            entries' ← put hm'.entries idx (new_he ∷ next)
            ok (hm_ok, record hm' { entries = entries'; size = (hm'.size + 1) % u32 }))
          else ok (hm_err, hm')
    ]

  -- `hmapDelete`: the entry is handed to the caller to free.
  unfoldable pub delete : Hmap K V → K → Run (Option (Entry K V) × Hmap K V)
  unfolding unlink
  delete hm key = do
    let hash = type.hash_fn key
    let idx = bit_and hash hm.mask
    he ← at hm.entries idx
    elim (unlink key hash he) [
      | none ↦ ok (none, hm)
      | some (out, rest) ↦
          (put hm.entries idx rest >>= λ entries'.
          ok (some out, record hm { entries = entries'; size = (hm.size + u32 - 1) % u32 }))
    ]
