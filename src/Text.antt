-- ===== src/Text.antt =====
-- JavaScript strings as lists of UTF-16 code units, with the operations of theirs that the code
-- uses: `===`, `trim`, `length` (the lists' own) and an array's `includes`.
use Prim.Native.String.{String}
use Prim.Native.Char.{code}
use inveni_ops.Base.{
  ℕ, ◌≡◌, refl, Bool, true, false, ◌&&◌, ◌||◌, List, [], ◌∷◌, ◌==◌, leb, if◌then◌else◌, arith,
  length, ◌≤◌, ==_iff, and_parts,
}

abbrev pub Text : Type 0
Text = List ℕ

-- A literal of the source, whose characters are one code unit each.
abbrev pub units : String → Text
units String.[] = []
units (String.◌∷◌ c s) = code c ∷ units s

unfoldable pub same_text : Text → Text → Bool
same_text [] [] = true
same_text (x ∷ xs) (y ∷ ys) = x == y && same_text xs ys
same_text _ _ = false

-- WhiteSpace and LineTerminator of the language's definition, which `trim` strips.
unfoldable pub is_space : ℕ → Bool
is_space c =
    (leb 9 c && leb c 13)
    || c == 32
    || c == 160
    || c == 5760
    || (leb 8192 c && leb c 8202)
    || c == 8232
    || c == 8233
    || c == 8239
    || c == 8287
    || c == 12288
    || c == 65279

unfoldable pub trim_start : Text → Text
trim_start [] = []
trim_start (x ∷ xs) = let rest = trim_start xs in if is_space x then rest else x ∷ xs

abbrev pub is_empty : Text → Bool
is_empty [] = true
is_empty (x ∷ xs) = false

unfoldable pub trim_end : Text → Text
trim_end [] = []
trim_end (x ∷ xs) = let rest = trim_end xs in if is_space x && is_empty rest then [] else x ∷ rest

unfoldable pub trim : Text → Text
unfolding trim_start trim_end is_space
trim s = trim_end (trim_start s)

unfoldable pub includes : List Text → Text → Bool
unfolding same_text
includes [] s = false
includes (t ∷ ts) s = same_text t s || includes ts s

pub same_text_sound : (s t : Text) → same_text s t ≡ true → s ≡ t
unfolding same_text
same_text_sound [] [] h = refl
same_text_sound (x ∷ xs) (y ∷ ys) h =
    let (heads, tails) = and_parts (x == y) (same_text xs ys) h in
    ground (arith, (==_iff x y).0 heads, same_text_sound xs ys tails)
same_text_sound [] (y ∷ ys) h = cc
same_text_sound (x ∷ xs) [] h = cc

pub same_text_refl : (s : Text) → same_text s s ≡ true
unfolding same_text
same_text_refl [] = refl
same_text_refl (x ∷ xs) = ground (arith, same_text_refl xs)

-- Trimming never makes a text longer.
trim_start-le : (s : Text) → length (trim_start s) ≤ length s
unfolding trim_start
trim_start-le [] = omega arith
trim_start-le (x ∷ xs) = ground (arith, trim_start-le xs)

trim_end-le : (s : Text) → length (trim_end s) ≤ length s
unfolding trim_end
trim_end-le [] = omega arith
trim_end-le (x ∷ xs) = ground (arith, trim_end-le xs)

trimmed : trim (units "  ok go ") ≡ units "ok go"
unfolding trim
trimmed = refl
