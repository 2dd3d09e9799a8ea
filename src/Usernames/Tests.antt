-- ===== src/Usernames/Tests.antt =====
-- The theorems about handles at small inputs.
use ziona_server.Base.{
  ℕ, ◌≤◌, ◌≡◌, refl, true, false, none, List, [], ◌∷◌, ◌++◌, arith, Text, codes, text_eq, lower,
}
use ziona_server.Accounts.User.{get_any_by_id}
use ziona_server.Accounts.Store.{Reservation}
use ziona_server.Accounts.Table.{IsKeyed}
use ziona_server.Accounts.Samples.{ada, tables}
use ziona_server.Usernames.Format.{has_double, validate_username_format}
use ziona_server.Usernames.Policy.{normalized_username}
use ziona_server.Usernames.Change.{set_username}
use ziona_server.Usernames.Uniqueness.{AreUnique, set_username-AreUnique}
use ziona_server.Usernames.Accepted.{validate_username_format_newline}
use ziona_server.Usernames.Pace.{changes}
use ziona_server.Usernames.Grace.{changes-le_grace}

tables-IsKeyed : IsKeyed tables.world.users
tables-IsKeyed i = ground arith

ada_not_bob : (key : Text) → text_eq (codes "ada") key ≡ true → text_eq (codes "bob") key ≡ false
unfolding text_eq
ada_not_bob [] h = cc
ada_not_bob (c ∷ key) h = ground arith

tables_unique : AreUnique tables.world.users
unfolding normalized_username lower
tables_unique key = ground (arith, ada_not_bob key)

set_username-AreUnique_example :
    AreUnique ((set_username 1 (codes "lovelace") false 5 tables).1.world.users)
set_username-AreUnique_example =
    set_username-AreUnique 1 (codes "lovelace") false 5 tables tables-IsKeyed tables_unique

abbrev reservations : List Reservation
reservations = record { username = codes "old"; owner_id = 4; expires_at = 3 } ∷ []

validate_username_format_newline_example : validate_username_format (codes "ada" ++ 10 ∷ []) ≡ none
unfolding has_double
validate_username_format_newline_example =
    validate_username_format_newline (codes "ada") refl (omega arith) refl

abbrev calls : List (ℕ × Text)
calls = (5, codes "lovelace") ∷ (6, codes "byron") ∷ []

changes-le_grace_example : changes 1 calls tables ≤ 3
unfolding get_any_by_id
changes-le_grace_example =
    changes-le_grace 1 calls ada tables tables-IsKeyed refl refl (omega arith, (omega arith, tt))

abbrev late_calls : List (ℕ × Text)
late_calls = (300000, codes "lovelace") ∷ (300001, codes "byron") ∷ []
