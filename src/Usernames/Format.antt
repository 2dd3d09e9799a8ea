-- ===== src/Usernames/Format.antt =====
-- core/users/validators.py and `validate_username` of core/authentication/validators.py: the two
-- checks of a handle's form.
use ziona_server.Base.{
  ℕ, Bool, false, not, ◌&&◌, ◌||◌, Option, none, some, List, [], ◌∷◌, ◌==◌, leb, ltb, if◌then◌else◌,
  Text, codes, text_eq, lower, is_empty, length, all_of, last?,
}

abbrev pub is_alnum : ℕ → Bool
is_alnum c = (leb b'a' c && leb c b'z') || (leb b'A' c && leb c b'Z') || (leb b'0' c && leb c b'9')

abbrev pub is_word : ℕ → Bool
is_word c = is_alnum c || c == b'_'

abbrev pub starts_with : ℕ → Text → Bool
starts_with c [] = false
starts_with c (x ∷ t) = x == c

-- `"__" in username`
unfoldable pub has_double : Text → Bool
has_double [] = false
has_double (x ∷ t) = (x == b'_' && starts_with b'_' t) || has_double t

-- The end of a regular expression's `$`: also before a newline that ends the text.
unfoldable pub drop_newline : Text → Text
drop_newline [] = []
drop_newline (x ∷ []) = if x == 10 then [] else x ∷ []
drop_newline (x ∷ y ∷ t) = x ∷ drop_newline (y ∷ t)

abbrev pub ends_alnum : Option ℕ → Bool
ends_alnum none = false
ends_alnum (some c) = is_alnum c

abbrev pub begins_alnum : Text → Bool
begins_alnum [] = false
begins_alnum (c ∷ t) = is_alnum c

-- `[a-zA-Z0-9][a-zA-Z0-9_]{1,28}[a-zA-Z0-9]`, the whole text.
abbrev pub is_handle : Text → Bool
is_handle t =
    leb 3 (length t)
    && leb (length t) 30
    && begins_alnum t
    && all_of is_word t
    && ends_alnum (last? t)

-- `USERNAME_PATTERN.match`
unfoldable pub matches_pattern : Text → Bool
unfolding drop_newline
matches_pattern t = is_handle (drop_newline t) || is_handle t

pub data FormatError : Type 0 where
  username_too_short username_too_long username_invalid_format username_reserved : FormatError
  username_length_invalid username_invalid_chars : FormatError

-- `validate_username_format`
unfoldable pub validate_username_format : Text → Option FormatError
unfolding matches_pattern has_double
validate_username_format t =
    if ltb (length t) 3
    then some username_too_short
    else if ltb 30 (length t)
    then some username_too_long
    else if not (matches_pattern t)
    then some username_invalid_format
    else if has_double t
    then some username_invalid_format
    else none

-- `t in words`
unfoldable pub is_among : Text → List Text → Bool
is_among t [] = false
is_among t (w ∷ words) = text_eq t w || is_among t words

-- `RESERVED_USERNAMES`
unfoldable pub reserved_usernames : List Text
reserved_usernames =
    codes "admin"
    ∷ codes "administrator"
    ∷ codes "ziona"
    ∷ codes "support"
    ∷ codes "help"
    ∷ codes "info"
    ∷ codes "contact"
    ∷ codes "root"
    ∷ codes "system"
    ∷ codes "mod"
    ∷ codes "moderator"
    ∷ codes "official"
    ∷ codes "api"
    ∷ codes "graphql"
    ∷ codes "auth"
    ∷ codes "login"
    ∷ codes "register"
    ∷ codes "settings"
    ∷ codes "profile"
    ∷ codes "account"
    ∷ codes "null"
    ∷ codes "undefined"
    ∷ codes "test"
    ∷ codes "staff"
    ∷ []

-- `validate_username_not_reserved`
unfoldable pub validate_username_not_reserved : Text → Option FormatError
unfolding is_among reserved_usernames
validate_username_not_reserved t =
    if is_among (lower t) reserved_usernames then some username_reserved else none

-- The reserved words of `validate_username`.
unfoldable pub reserved_at_registration : List Text
reserved_at_registration =
    codes "admin"
    ∷ codes "root"
    ∷ codes "system"
    ∷ codes "ziona"
    ∷ codes "support"
    ∷ codes "help"
    ∷ codes "moderator"
    ∷ codes "mod"
    ∷ codes "official"
    ∷ codes "staff"
    ∷ codes "null"
    ∷ codes "undefined"
    ∷ []

-- `re.match(r"^[a-zA-Z0-9_]+$", username)`
abbrev pub is_word_text : Text → Bool
is_word_text t = not (is_empty t) && all_of is_word t

-- `validate_username`
unfoldable pub validate_username : Text → Option FormatError
unfolding drop_newline has_double is_among reserved_at_registration
validate_username t =
    if ltb (length t) 3 || ltb 30 (length t)
    then some username_length_invalid
    else if not (is_word_text (drop_newline t) || is_word_text t)
    then some username_invalid_chars
    else if starts_with b'_' t
    then some username_invalid_format
    else if has_double t
    then some username_invalid_format
    else if is_among (lower t) reserved_at_registration
    then some username_reserved
    else none
