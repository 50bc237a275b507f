-- ===== src/Prelude/Text.antt =====
-- Go strings as lists of code points, for valid UTF-8, and what the program uses of `strings` and
-- `unicode`. Case mapping beyond ASCII is a table that the definitions take.
use Prim.Native.Char.{code}
use Prim.Native.String.{String}
use erzhuang_project.Prelude.Map.{Eq}
use erzhuang_project.Prelude.Tests.{if◌then◌else◌, ◌==◌, leb, ltb}
use Prim.Native.Nat.{ℕ, ◌+◌, ◌-◌}
use mathlib.Core.Path.{◌≡◌, refl}
use mathlib.Core.Logic.{◌↔◌}
use mathlib.Core.Bool.{Bool, true, false, not, ◌&&◌, ◌||◌}
use mathlib.Core.List.{List, [], ◌∷◌, ◌++◌, map}
use native.Mathlib.Omega.{arith}

abbrev pub Text : Type 0
Text = List ℕ

-- The code points of a literal.
abbrev pub text : String → Text
text String.[] = []
text (String.◌∷◌ c s) = code c ∷ text s

unfoldable pub text_eq : Text → Text → Bool
text_eq [] [] = true
text_eq (c ∷ s) (d ∷ t) = c == d && text_eq s t
text_eq _ _ = false

pub text_eq_iff : (s t : Text) → (text_eq s t ≡ true) ↔ (s ≡ t)
unfolding text_eq
text_eq_iff (c ∷ s) (d ∷ t) = ground (arith, text_eq_iff s t)
text_eq_iff _ _ = ground arith

instance abbrev pub text_is_eq : Eq Text
text_is_eq = record { beq = text_eq; beq_iff = text_eq_iff }

abbrev pub is_empty : Text → Bool
is_empty [] = true
is_empty (c ∷ s) = false

-- `unicode.IsSpace`
unfoldable pub is_space : ℕ → Bool
is_space c =
    (leb 9 c && leb c 13)
    || c == 32
    || c == 133
    || c == 160
    || c == 5760
    || (leb 8192 c && leb c 8202)
    || c == 8232
    || c == 8233
    || c == 8239
    || c == 8287
    || c == 12288

unfoldable pub trim_left : Text → Text
trim_left [] = []
trim_left (c ∷ s) = if is_space c then trim_left s else c ∷ s

-- Drops the spaces at the end.
unfoldable pub trim_right : Text → Text
trim_right [] = []
trim_right (c ∷ s) = let rest = trim_right s in if is_empty rest && is_space c then [] else c ∷ rest

-- `strings.TrimSpace`
unfoldable pub trim_space : Text → Text
unfolding trim_left trim_right
trim_space s = trim_right (trim_left s)

-- Unicode's simple case mapping of the code points from 128 on.
pub record CaseTable : Type 0 where
  pub lower : ℕ → ℕ
  pub upper : ℕ → ℕ

unfoldable pub to_lower_rune : CaseTable → ℕ → ℕ
to_lower_rune t c = if ltb c 128 then (if leb 65 c && leb c 90 then c + 32 else c) else t.lower c

unfoldable pub to_upper_rune : CaseTable → ℕ → ℕ
to_upper_rune t c = if ltb c 128 then (if leb 97 c && leb c 122 then c - 32 else c) else t.upper c

-- `strings.ToLower`
abbrev pub to_lower : CaseTable → Text → Text
to_lower t s = map (to_lower_rune t) s

-- `strings.ToUpper`
abbrev pub to_upper : CaseTable → Text → Text
to_upper t s = map (to_upper_rune t) s

unfoldable pub has_prefix : Text → Text → Bool
has_prefix s [] = true
has_prefix [] (d ∷ p) = false
has_prefix (c ∷ s) (d ∷ p) = c == d && has_prefix s p

-- `strings.Contains`
unfoldable pub contains : Text → Text → Bool
unfolding has_prefix
contains [] p = has_prefix [] p
contains (c ∷ s) p = has_prefix (c ∷ s) p || contains s p

-- Nothing stands at either end that `trim_space` would take away.
pub is_trimmed_left : Text → Bool
is_trimmed_left [] = true
is_trimmed_left (c ∷ s) = not (is_space c)

pub trim_right_idem : (s : Text) → trim_right (trim_right s) ≡ trim_right s
unfolding trim_right
trim_right_idem [] = refl
trim_right_idem (c ∷ s) = ground (arith, trim_right_idem s)

trim_left-trimmed : (s : Text) → is_trimmed_left (trim_left s) ≡ true
unfolding trim_left is_trimmed_left
trim_left-trimmed [] = refl
trim_left-trimmed (c ∷ s) = ground (arith, trim_left-trimmed s)

trim_left_of_trimmed : (s : Text) → is_trimmed_left s ≡ true → trim_left s ≡ s
unfolding trim_left is_trimmed_left
trim_left_of_trimmed [] h = refl
trim_left_of_trimmed (c ∷ s) h = ground arith

trim_right-trimmed_left :
    (s : Text) → is_trimmed_left s ≡ true → is_trimmed_left (trim_right s) ≡ true
unfolding trim_right is_trimmed_left
trim_right-trimmed_left [] h = refl
trim_right-trimmed_left (c ∷ s) h = ground arith

-- Trimming twice is trimming once.
pub trim_space_idem : (s : Text) → trim_space (trim_space s) ≡ trim_space s
unfolding trim_space
trim_space_idem s =
    rw
      (trim_left_of_trimmed (trim_right (trim_left s))
        (trim_right-trimmed_left (trim_left s) (trim_left-trimmed s)))
      (trim_right_idem (trim_left s))

-- The order of Go strings: by bytes, which in UTF-8 is by code points.
unfoldable pub text_leb : Text → Text → Bool
text_leb [] t = true
text_leb (c ∷ s) [] = false
text_leb (c ∷ s) (d ∷ t) = ltb c d || (c == d && text_leb s t)

insert_text : Text → List Text → List Text
insert_text s [] = s ∷ []
insert_text s (t ∷ ts) =
    let rest = insert_text s ts in if text_leb s t then s ∷ t ∷ ts else t ∷ rest

-- `sort.Strings`
unfoldable pub sort_texts : List Text → List Text
unfolding insert_text text_leb
sort_texts [] = []
sort_texts (s ∷ ss) = insert_text s (sort_texts ss)

-- `strings.Join`
unfoldable pub join : Text → List Text → Text
join sep [] = []
join sep (s ∷ []) = s
join sep (s ∷ t ∷ ts) = s ++ (sep ++ join sep (t ∷ ts))
