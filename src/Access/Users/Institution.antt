-- ===== src/Access/Users/Institution.antt =====
-- Institution identifiers.
use erzhuang_project.Prelude.{ℕ, ◌≤◌, ◌<◌, ◌≡◌, ◌↔◌, Option, none, some, arith}
use erzhuang_project.Prelude.Int.{ℤ, pos, negsuc}
use erzhuang_project.Prelude.Text.{Text, text_eq_iff}
use erzhuang_project.Prelude.Decimal.{format_nat, parse_int, parse_int-format_nat}
use erzhuang_project.Access.Users.{canonical_institution_id, checked_id, max_institution_id}

checked_id-some :
    (key : Text) (o : Option ℤ) (id : ℕ)
    → checked_id key o ≡ some id
    → (0 < id) × (id ≤ max_institution_id) × (format_nat id ≡ key)
checked_id-some key none id h = absurd (cc h)
checked_id-some key (some (negsuc n)) id h = absurd (cc h)
checked_id-some key (some (pos n)) id h = ground (arith, text_eq_iff (format_nat n) key)

-- A key names an institution exactly when it is the plain decimal form of an integer from 1 to
-- 2^53 - 1; it then names that one.
pub canonical_institution_id_iff :
    (key : Text) (id : ℕ)
    → (canonical_institution_id key ≡ some id)
      ↔ ((0 < id) × (id ≤ 9007199254740991) × (format_nat id ≡ key))
unfolding canonical_institution_id
canonical_institution_id_iff key id = (checked_id-some key (parse_int key) id, back)
  where
    back :
        (0 < id) × (id ≤ 9007199254740991) × (format_nat id ≡ key)
        → checked_id key (parse_int key) ≡ some id
    back (positive, small, e) =
        rw (← e, parse_int-format_nat id (omega arith))
          (ground (arith, text_eq_iff (format_nat id) (format_nat id)))
