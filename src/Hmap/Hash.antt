-- ===== src/Hmap/Hash.antt =====
-- The default callbacks of hmap.c: `hashString` and `hmapStrCmp` on C strings. `char` is signed,
-- as it is on the platforms that the program's event loops name.
use dictionary.Base.Text.{bytes_eq, bytes_eq_iff, IsText}
use dictionary.Base.{
  ℕ, ◌+◌, ◌-◌, ◌*◌, ◌%◌, ◌^◌, ◌<◌, ◌≡◌, refl, ◌∙◌, ap, Bool, false, ◌&&◌, List, [], ◌∷◌, arith,
  length, ltb, ◌==◌, if◌then◌else◌,
}
use dictionary.Hmap.Bucket.{IsLawful}
use dictionary.Hmap.{HmapType, u32}
use native.Mathlib.Nat.{mod-add-div, pow-suc}

-- `(unsigned int)*s`: a byte from 128 on is a negative `char`, and wraps.
unfoldable pub sign_extend : ℕ → ℕ
sign_extend c = if ltb c 128 then c else c + (u32 - 256)

-- `for (++s; *s; ++s) h = (h << 5) - h + (unsigned int)*s`
unfoldable pub hash_loop : List ℕ → ℕ → ℕ
hash_loop [] h = h
hash_loop (c ∷ s) h = hash_loop s ((h * 32 % u32 + (u32 - h) + sign_extend c) % u32)

-- `hashString`
unfoldable pub hash_string : List ℕ → ℕ
unfolding hash_loop sign_extend
hash_string [] = 0
hash_string (c ∷ s) = let h = sign_extend c in if h == 0 then h else hash_loop s h

-- `hmapStrCmp`
unfoldable pub str_cmp : List ℕ → ℕ → List ℕ → ℕ → Bool
str_cmp k1 h1 k2 h2 = h1 == h2 && bytes_eq k1 k2

-- `defaultType`
abbrev pub default_type : HmapType (List ℕ)
default_type = record { keycmp = str_cmp; hash_fn = hash_string }

pub default_type-IsLawful : IsLawful default_type
unfolding str_cmp
default_type-IsLawful = record { keycmp_iff = λ a b. ground (arith, bytes_eq_iff a b) }

-- The bytes as the digits of a number to the base 31, the first the highest.
abbrev pub horner : List ℕ → ℕ
horner [] = 0
horner (c ∷ s) = sign_extend c * 31 ^ length s + horner s

mod_mul_add : (a p v : ℕ) → (a % u32 * p + v) % u32 ≡ (a * p + v) % u32
mod_mul_add a p v = omega (arith, ap (λ (t : ℕ). t * p) (mod-add-div a u32))

sign_extend-lt : (c : ℕ) → c < 256 → sign_extend c < u32
unfolding sign_extend
sign_extend-lt c h = ground arith

sign_extend_pos : (c : ℕ) → 0 < c → (sign_extend c == 0) ≡ false
unfolding sign_extend
sign_extend_pos c h = ground arith

hash_step : (h c : ℕ) → h < u32 → (h * 32 % u32 + (u32 - h) + c) % u32 ≡ (h * 31 + c) % u32
hash_step h c small = omega arith

hash_loop-horner :
    (s : List ℕ) (h : ℕ) → h < u32 → hash_loop s h ≡ (h * 31 ^ length s + horner s) % u32
unfolding hash_loop
hash_loop-horner [] h small = omega arith
hash_loop-horner (c ∷ s) h small =
    let x = sign_extend c in
    let p = 31 ^ length s in
    rw (hash_step h x small) (
      hash_loop-horner s ((h * 31 + x) % u32) (omega arith)
      ∙ mod_mul_add (h * 31 + x) p (horner s)
      ∙ ap (λ (t : ℕ). t % u32) (omega (arith, ap (λ (t : ℕ). h * t) (pow-suc 31 (length s)))))

-- The hash of a string is the number that its bytes write to the base 31, modulo 2 ^ 32.
pub hash_string-horner : (s : List ℕ) → IsText s → hash_string s ≡ horner s % u32
unfolding hash_string
hash_string-horner [] t = refl
hash_string-horner (c ∷ s) t =
    rw (sign_extend_pos c t.0.0) (hash_loop-horner s (sign_extend c) (sign_extend-lt c t.0.1))
