-- ===== src/Refiner/Wav.antt =====
-- The WAV file that Groq is sent can be read back.
use a_meet.Prelude.{
  ℕ, ◌+◌, ◌*◌, ◌/◌, ◌%◌, ◌<◌, ◌≡◌, refl, ap, Bool, false, ◌&&◌, Option, none, some, List, [], ◌∷◌,
  ◌++◌, arith, if◌then◌else◌, length, take, drop, nat_beq,
}
use a_meet.Refiner.{riff, wave, fmt_, data_, build_pcm16_wav}

-- A reader of canonical PCM files: the fields that a player goes by, and the samples.
pub record Wav : Type 0 where
  pub riff_size : ℕ
  pub encoding : ℕ
  pub channels : ℕ
  pub rate : ℕ
  pub byte_rate : ℕ
  pub block : ℕ
  pub bits : ℕ
  pub samples : List ℕ

infixl 5 ◌>>=◌
abbrev ◌>>=◌ : {A B : Type 0} → Option A → (A → Option B) → Option B
none >>= f = none
some a >>= f = f a

abbrev is_tag : List ℕ → ℕ → ℕ → ℕ → ℕ → Bool
is_tag (p ∷ q ∷ r ∷ s ∷ []) a b c d = nat_beq a p && nat_beq b q && nat_beq c r && nat_beq d s
is_tag tag a b c d = false

-- The bytes after a tag of four letters.
abbrev expect : List ℕ → List ℕ → Option (List ℕ)
expect tag (a ∷ b ∷ c ∷ d ∷ rest) = if is_tag tag a b c d then some rest else none
expect tag bytes = none

abbrev read_u16 : List ℕ → Option (ℕ × List ℕ)
read_u16 (a ∷ b ∷ rest) = some (a + 256 * b, rest)
read_u16 bytes = none

abbrev read_u32 : List ℕ → Option (ℕ × List ℕ)
read_u32 (a ∷ b ∷ c ∷ d ∷ rest) = some (a + 256 * b + 65536 * c + 16777216 * d, rest)
read_u32 bytes = none

-- With what follows the samples.
pub read_wav : List ℕ → Option (Wav × List ℕ)
read_wav bytes = do
  b ← expect riff bytes
  (riff_size, c) ← read_u32 b
  d ← expect wave c
  e ← expect fmt_ d
  (_, f) ← read_u32 e
  (encoding, g) ← read_u16 f
  (channels, h) ← read_u16 g
  (rate, i) ← read_u32 h
  (byte_rate, j) ← read_u32 i
  (block, k) ← read_u16 j
  (bits, l) ← read_u16 k
  m ← expect data_ l
  (size, n) ← read_u32 m
  some (
    record {
      riff_size = riff_size;
      encoding = encoding;
      channels = channels;
      rate = rate;
      byte_rate = byte_rate;
      block = block;
      bits = bits;
      samples = take size n;
    },
    drop size n,
  )

take-append : (xs ys : List ℕ) → take (length xs) (xs ++ ys) ≡ xs
take-append [] ys = refl
take-append (x ∷ xs) ys = ap (λ l. x ∷ l) (take-append xs ys)

drop-append : (xs ys : List ℕ) → drop (length xs) (xs ++ ys) ≡ ys
drop-append [] ys = refl
drop-append (x ∷ xs) ys = drop-append xs ys

u32_round :
    (n : ℕ)
    → n < 4294967296
    → n % 256 + 256 * (n / 256 % 256) + 65536 * (n / 65536 % 256) + 16777216 * (n / 16777216 % 256)
      ≡ n
u32_round n h = omega arith

-- A recording of fewer than 2 ^ 32 - 36 bytes is read back from its file, whatever follows: as mono
-- 16-bit PCM at 16 kHz, with the sizes right and the samples unchanged.
pub read_wav-build_pcm16_wav :
    (pcm rest : List ℕ)
    → length pcm < 4294967260
    → read_wav (build_pcm16_wav pcm ++ rest)
      ≡ some (
        record {
          riff_size = 36 + length pcm;
          encoding = 1;
          channels = 1;
          rate = 16000;
          byte_rate = 32000;
          block = 2;
          bits = 16;
          samples = pcm;
        },
        rest,
      )
unfolding read_wav build_pcm16_wav
read_wav-build_pcm16_wav pcm rest few =
    rw
      (
        u32_round (36 + length pcm) (omega (arith, few)),
        u32_round (length pcm) (omega (arith, few)),
        take-append pcm rest,
        drop-append pcm rest,
      )
      refl
