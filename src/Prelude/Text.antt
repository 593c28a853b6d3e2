-- ===== src/Prelude/Text.antt =====
-- What the program does to texts: `split(',').pop()`, `trim()` and concatenation.
use Prim.Native.Char.{code}
use Prim.Native.String.{◌++◌ as str_append}
use text.Mathlib.TextLemmas.{cons-append, nil-append}
use a_meet.Prelude.{
  ℕ, ◌≡◌, refl, Bool, true, false, ◌&&◌, ◌||◌, List, [], ◌∷◌, ◌+◌, arith, String, leb, nat_beq,
  if◌then◌else◌,
}

-- The white space and line ends of ECMAScript, which `trim` removes and `\s` matches.
unfoldable pub is_space : ℕ → Bool
is_space c =
    (leb 9 c && leb c 13)
    || nat_beq c 32
    || nat_beq c 160
    || nat_beq c 0x1680
    || (leb 0x2000 c && leb c 0x200a)
    || nat_beq c 0x2028
    || nat_beq c 0x2029
    || nat_beq c 0x202f
    || nat_beq c 0x205f
    || nat_beq c 0x3000
    || nat_beq c 0xfeff

unfoldable pub is_empty : String → Bool
is_empty String.[] = true
is_empty (String.◌∷◌ c s) = false

unfoldable pub trim_start : String → String
unfolding is_space
trim_start String.[] = String.[]
trim_start (String.◌∷◌ c s) = if is_space (code c) then trim_start s else String.◌∷◌ c s

unfoldable pub trim_end : String → String
unfolding is_space is_empty
trim_end String.[] = String.[]
trim_end (String.◌∷◌ c s) =
    let rest = trim_end s in
    if is_empty rest && is_space (code c) then String.[] else String.◌∷◌ c rest

unfoldable pub trim : String → String
unfolding trim_start trim_end
trim s = trim_end (trim_start s)

-- The UTF-16 units of a character, by its code, and `length`.
unfoldable pub units : ℕ → ℕ
units c = if leb 0x10000 c then 2 else 1

unfoldable pub utf16_length : String → ℕ
unfolding units
utf16_length String.[] = 0
utf16_length (String.◌∷◌ c s) = units (code c) + utf16_length s

unfoldable pub has_comma : String → Bool
has_comma String.[] = false
has_comma (String.◌∷◌ c s) = nat_beq (code c) b',' || has_comma s

-- `s.split(',').pop()`
unfoldable pub last_part : String → String
unfolding has_comma
last_part String.[] = String.[]
last_part (String.◌∷◌ c s) =
    let rest = last_part s in
    if has_comma s then rest else if nat_beq (code c) b',' then s else String.◌∷◌ c s

-- `xs.join(',')`
unfoldable pub join_comma : List String → String
join_comma [] = ""
join_comma (x ∷ []) = x
join_comma (x ∷ y ∷ xs) = str_append x (str_append "," (join_comma (y ∷ xs)))

last_part-eq_self : (s : String) → has_comma s ≡ false → last_part s ≡ s
unfolding last_part
last_part-eq_self String.[] h = refl
last_part-eq_self (String.◌∷◌ c s) h = ground arith

has_comma-append : (s t : String) → has_comma (str_append s t) ≡ (has_comma s || has_comma t)
unfolding has_comma
has_comma-append String.[] t = rw nil-append
has_comma-append (String.◌∷◌ c s) t = rw cons-append (ground (arith, has_comma-append s t))

has_comma-comma : (s h : String) → has_comma (str_append s (str_append "," h)) ≡ true
unfolding has_comma
has_comma-comma s h = ground (arith, has_comma-append s (str_append "," h), has_comma-append "," h)

-- Nothing that stands before a comma changes the last part.
pub last_part-append : (s h : String) → last_part (str_append s (str_append "," h)) ≡ last_part h
unfolding last_part has_comma
last_part-append String.[] h =
    rw nil-append (rw cons-append (rw nil-append (ground (arith, last_part-eq_self h))))
last_part-append (String.◌∷◌ c s) h =
    rw (cons-append c s _) (ground (arith, has_comma-comma s h, last_part-append s h))
