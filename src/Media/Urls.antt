-- ===== src/Media/Urls.antt =====
-- core/shared/utils.py: normalize_url, which keeps the last of doubled URLs.
use Prim.Native.Nat.{zero, suc}
use ziona_server.Base.{
  ℕ, ◌≤◌, ◌≡◌, ◌⊎◌, refl, Bool, Option, none, some, [], ◌∷◌, ◌++◌, ltb, if◌then◌else◌, arith, inl,
  inr, Bool-cases, Option-cases, Text, codes, is_prefix, drop, subst, sym,
}

abbrev pub https : Text
https = codes "https://"

-- `url.count("https://")`; no two occurrences overlap.
unfoldable pub count_https : Text → ℕ
count_https [] = 0
count_https (c ∷ t) = let rest = count_https t in if is_prefix https (c ∷ t) then suc rest else rest

-- `url.split("https://")[-1]`, if there is more than one part.
unfoldable pub last_part : Text → Option Text
last_part [] = none
last_part (c ∷ t) =
    let rest = last_part t in
    elim rest [
      | some part ↦ some part
      | none ↦ if is_prefix https (c ∷ t) then some (drop 8 (c ∷ t)) else none
    ]

-- `normalize_url`
unfoldable pub normalize_url : Text → Text
unfolding count_https last_part
normalize_url url =
    if ltb 1 (count_https url)
    then elim (last_part url) [ none ↦ url | some part ↦ https ++ part ]
    else url

no_part : (t : Text) → last_part t ≡ none → count_https t ≡ 0
unfolding count_https last_part
no_part [] h = refl
no_part (c ∷ t) h = elim (Option-cases (last_part t)) [
  | inl absent ↦ ground (arith, no_part t absent)
  | inr (part, found) ↦ absurd (ground arith)
]

no_more : (b : Bool) (rest : ℕ) → (if b then suc rest else rest) ≡ 0 → rest ≡ 0
no_more b rest h = ground arith

count_https-drop : (n : ℕ) (t : Text) → count_https t ≡ 0 → count_https (drop n t) ≡ 0
unfolding count_https
count_https-drop zero t h = h
count_https-drop (suc n) [] h = refl
count_https-drop (suc n) (c ∷ t) h =
    count_https-drop n t (no_more (is_prefix https (c ∷ t)) (count_https t) h)

last_part_clean : (t part : Text) → last_part t ≡ some part → count_https part ≡ 0
unfolding last_part
last_part_clean [] part h = cc
last_part_clean (c ∷ t) part h = elim (Option-cases (last_part t)) [
  | inr (rest, found) ↦ last_part_clean t part (ground arith)
  | inl absent ↦ elim (Bool-cases (is_prefix https (c ∷ t))) [
    | inl first ↦ ground (arith, count_https-drop 7 t (no_part t absent))
    | inr other ↦ absurd (ground arith)
  ]
]

-- A scheme before a text without one counts once.
count_https-prefixed : (t : Text) → count_https (https ++ t) ≡ suc (count_https t)
unfolding count_https
count_https-prefixed t = refl

normalized_cases :
    (url : Text)
    → (normalize_url url ≡ url) × (count_https url ≤ 1)
      ⊎ ((part : Text) × (normalize_url url ≡ https ++ part) × (count_https part ≡ 0))
unfolding normalize_url
normalized_cases url = elim (Bool-cases (ltb 1 (count_https url))) [
  | inr once ↦ inl (ground arith, ground arith)
  | inl doubled ↦ elim (Option-cases (last_part url)) [
    | inl absent ↦ absurd (ground (arith, no_part url absent))
    | inr (part, found) ↦ inr (part, ground arith, last_part_clean url part found)
  ]
]

is_once : (url : Text) → count_https (normalize_url url) ≤ 1
is_once url = elim (normalized_cases url) [
  | inl (same, once) ↦ subst (λ t. count_https t ≤ 1) (sym same) once
  | inr (part, same, clean) ↦
      subst (λ t. count_https t ≤ 1) (sym same) (omega (arith, count_https-prefixed part, clean))
]

kept_once : (url : Text) → count_https url ≤ 1 → normalize_url url ≡ url
unfolding normalize_url
kept_once url once = ground arith

-- A normalized URL has the scheme at most once, and normalizing it again changes nothing.
pub normalize_url_once :
    (url : Text)
    → (count_https (normalize_url url) ≤ 1)
      × (normalize_url (normalize_url url) ≡ normalize_url url)
normalize_url_once url = (is_once url, kept_once (normalize_url url) (is_once url))
