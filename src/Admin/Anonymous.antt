-- ===== src/Admin/Anonymous.antt =====
-- The email of an anonymized account: short enough for its column, and told apart by its suffix.
use ziona_server.Base.{
  ends_with, ℕ, zero, suc, ◌+◌, ◌-◌, ◌/◌, ◌≤◌, ◌≡◌, refl, ap, true, [], ◌∷◌, ◌++◌, arith, Text,
  codes, text_eq_refl, length, length-append, take-all, drop-append,
}
use ziona_server.Admin.Rules.{anonymized_suffix}
use ziona_server.Admin.Erase.{hex_digits, id_token, anonymous_email}

length-hex_digits : (n i : ℕ) → length (hex_digits n i) ≡ n
unfolding hex_digits
length-hex_digits zero i = refl
length-hex_digits (suc n) i =
    rw (length-append (hex_digits n (i / 16)) _, length-hex_digits n (i / 16)) (omega arith)

minus : (m n : ℕ) → (m + n) - n ≡ m
minus m n = omega arith

ends_with-append : (t suffix : Text) → ends_with (t ++ suffix) suffix ≡ true
unfolding ends_with
ends_with-append t suffix =
    rw (length-append t suffix, minus (length t) (length suffix), drop-append t suffix)
      (ground (arith, text_eq_refl suffix))

is_short : (i : ℕ) → length (codes "deleted-" ++ (id_token i ++ anonymized_suffix)) ≤ 255
unfolding id_token anonymized_suffix
is_short i = omega (arith, length-append (id_token i) anonymized_suffix, length-hex_digits 32 i)

anonymous_email_lem :
    (i : ℕ) → anonymous_email i ≡ codes "deleted-" ++ (id_token i ++ anonymized_suffix)
unfolding anonymous_email
anonymous_email_lem i = take-all 255 _ (is_short i)

++-assoc : (xs ys zs : Text) → xs ++ (ys ++ zs) ≡ (xs ++ ys) ++ zs
++-assoc [] ys zs = refl
++-assoc (x ∷ xs) ys zs = ap (λ l. x ∷ l) (++-assoc xs ys zs)

pub ends_with-anonymous_email : (i : ℕ) → ends_with (anonymous_email i) anonymized_suffix ≡ true
ends_with-anonymous_email i =
    rw (anonymous_email_lem i, ++-assoc (codes "deleted-") (id_token i) anonymized_suffix)
      (ends_with-append (codes "deleted-" ++ id_token i) anonymized_suffix)
