-- ===== src/Usernames/Accepted.antt =====
-- Which texts the checks of a handle let through.
use ziona_server.Base.{
  ◌<◌, ◌≡◌, ◌≢◌, refl, true, false, none, some, [], ◌∷◌, ◌++◌, arith, length, length-append, last?,
  Text, ◌↔◌,
}
use ziona_server.Usernames.Format.{
  is_handle, drop_newline, matches_pattern, has_double, validate_username_format,
}

drop_newline_plain : (t : Text) → last? t ≢ some 10 → drop_newline t ≡ t
unfolding drop_newline
drop_newline_plain [] h = refl
drop_newline_plain (x ∷ []) h = ground arith
drop_newline_plain (x ∷ y ∷ t) h = ground (arith, drop_newline_plain (y ∷ t))

-- A text that ends in no newline passes the check exactly if it is a handle of 3 to 30 letters,
-- digits and underscores, begins and ends with a letter or a digit, and has no two underscores in a
-- row.
pub validate_username_format_iff :
    (t : Text)
    → last? t ≢ some 10
    → (validate_username_format t ≡ none) ↔ ((is_handle t ≡ true) × (has_double t ≡ false))
unfolding validate_username_format matches_pattern
validate_username_format_iff t plain =
    let e = drop_newline_plain t plain in (λ h. ground arith, λ h. ground arith)

drop_newline-append : (t : Text) → drop_newline (t ++ 10 ∷ []) ≡ t
unfolding drop_newline
drop_newline-append [] = refl
drop_newline-append (x ∷ []) = refl
drop_newline-append (x ∷ y ∷ t) = ground (arith, drop_newline-append (y ∷ t))

has_double-append : (t : Text) → has_double t ≡ false → has_double (t ++ 10 ∷ []) ≡ false
unfolding has_double
has_double-append [] h = refl
has_double-append (x ∷ []) h = ground arith
has_double-append (x ∷ y ∷ t) h = ground (arith, has_double-append (y ∷ t))

-- The check also lets through a handle with a newline after it, which is no letter, digit or
-- underscore: `$` matches before a newline that ends the text.
pub validate_username_format_newline :
    (t : Text)
    → is_handle t ≡ true
    → length t < 30
    → has_double t ≡ false
    → validate_username_format (t ++ 10 ∷ []) ≡ none
unfolding validate_username_format matches_pattern
validate_username_format_newline t handle short single =
    ground (arith, drop_newline-append t, has_double-append t single, length-append t (10 ∷ []))
