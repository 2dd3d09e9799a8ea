-- ===== src/Circles/Comments/Pages.antt =====
-- The pages of the comments on a circle post: a client that turns pages while more are announced sees
-- every comment once, in order.
use ziona_server.Base.{
  ℕ, zero, suc, ◌+◌, ◌*◌, ◌-◌, ◌≤◌, ◌<◌, ◌≡◌, refl, Bool, true, Option, some, List, [], ◌∷◌, ◌++◌,
  ltb, if◌then◌else◌, arith, inl, inr, Bool-cases, take, drop, length, get_where, Result, ok, err,
  sym, ap, ◌∙◌,
}
use native.Mathlib.Nat.{suc-mul, zero-mul}
use ziona_server.Circles.Content.{CirclePost, CirclePostComment, post_key}
use ziona_server.Circles.State.{CircleStore, CircleEnv, CircleError}
use ziona_server.Circles.Members.{has_circle_membership}
use ziona_server.Circles.Engage.{live_post}
use ziona_server.Circles.Comments.{listed, get_circle_post_comments}

suc-add : (n m : ℕ) → suc (n + m) ≡ suc n + m
suc-add n m = omega arith

module _ {A : Type 0} where
  length-drop : (n : ℕ) (xs : List A) → length (drop n xs) ≡ length xs - n
  length-drop zero xs = omega arith
  length-drop (suc n) [] = omega arith
  length-drop (suc n) (x ∷ xs) = omega (arith, length-drop n xs)

  length-take : (n : ℕ) (xs : List A) → ltb n (length (take (suc n) xs)) ≡ ltb n (length xs)
  length-take zero [] = refl
  length-take zero (x ∷ xs) = ground arith
  length-take (suc n) [] = refl
  length-take (suc n) (x ∷ xs) = ground (arith, length-take n xs)

  take-take-suc : (n : ℕ) (xs : List A) → take n (take (suc n) xs) ≡ take n xs
  take-take-suc zero xs = refl
  take-take-suc (suc n) [] = refl
  take-take-suc (suc n) (x ∷ xs) = ap (λ ys. x ∷ ys) (take-take-suc n xs)

  take-append-drop : (n : ℕ) (xs : List A) → take n xs ++ drop n xs ≡ xs
  take-append-drop zero xs = refl
  take-append-drop (suc n) [] = refl
  take-append-drop (suc n) (x ∷ xs) = ap (λ ys. x ∷ ys) (take-append-drop n xs)

  drop_nil : (n : ℕ) → drop {A = A} n [] ≡ []
  drop_nil zero = refl
  drop_nil (suc n) = refl

  drop-drop : (m n : ℕ) (xs : List A) → drop m (drop n xs) ≡ drop (n + m) xs
  drop-drop m zero xs = ap (λ k. drop k xs) (omega arith)
  drop-drop m (suc n) [] = drop_nil m ∙ sym (drop_nil (suc n + m))
  drop-drop m (suc n) (x ∷ xs) = drop-drop m n xs ∙ ap (λ k. drop k (x ∷ xs)) (suc-add n m)

  take-short : (n : ℕ) (xs : List A) → length xs ≤ n → take n xs ≡ xs
  take-short zero [] h = refl
  take-short zero (x ∷ xs) h = absurd (ground arith)
  take-short (suc n) [] h = refl
  take-short (suc n) (x ∷ xs) h = ground (arith, take-short n xs)

abbrev pub turn :
    List CirclePostComment
    → Result CircleError (List CirclePostComment × Bool × ℕ)
    → List CirclePostComment
turn rest (err x) = []
turn rest (ok (shown, more, total)) = if more then shown ++ rest else shown

-- A client turns pages of one size, from one on, as long as an answer announces more. It makes at most
-- so many calls.
abbrev pub turn_pages : ℕ → CircleEnv → ℕ → Option ℕ → ℕ → ℕ → CircleStore → List CirclePostComment
turn_pages zero e post_id viewer_id page size s = []
turn_pages (suc calls) e post_id viewer_id page size s =
    let rest = turn_pages calls e post_id viewer_id (suc page) size s in
    turn rest (get_circle_post_comments e post_id viewer_id page size s).0

module _ (e : CircleEnv) (post_id size : ℕ) (viewer : Option ℕ) (s : CircleStore) (p : CirclePost)
    (found : get_where post_key (live_post e) post_id s.posts ≡ some p)
    (inside : has_circle_membership viewer p.circle_id s ≡ true) where
  -- A page, against an independent description: the rows of the page, whether rows follow it, and the
  -- number of rows.
  page_answer :
      (b : ℕ)
      → let rows = listed e viewer post_id s in
        get_circle_post_comments e post_id viewer (suc b) size s ≡ (
          ok (
            take size (drop (b * size) rows),
            ltb size (length (drop (b * size) rows)),
            length rows,
          ),
          s,
        )
  unfolding get_circle_post_comments
  page_answer b =
      let rows = listed e viewer post_id s in
      ground
        (arith, length-take size (drop (b * size) rows), take-take-suc size (drop (b * size) rows))

  next_page :
      (b : ℕ)
      → drop (suc b * size) (listed e viewer post_id s)
        ≡ drop size (drop (b * size) (listed e viewer post_id s))
  next_page b =
      ap (λ k. drop k (listed e viewer post_id s)) (suc-mul b size)
      ∙ sym (drop-drop size (b * size) (listed e viewer post_id s))

  turned :
      (calls b : ℕ)
      → let here = drop (b * size) (listed e viewer post_id s) in
        turn_pages (suc calls) e post_id viewer (suc b) size s ≡ (
          if ltb size (length here)
          then take size here ++ turn_pages calls e post_id viewer (suc (suc b)) size s
          else take size here)
  turned calls b =
      ap (λ x. turn (turn_pages calls e post_id viewer (suc (suc b)) size s) x.0) (page_answer b)

  pages_from :
      (calls b : ℕ)
      → 1 ≤ size
      → length (drop (b * size) (listed e viewer post_id s)) < calls
      → turn_pages calls e post_id viewer (suc b) size s
        ≡ drop (b * size) (listed e viewer post_id s)
  pages_from zero b one enough = absurd (ground arith)
  pages_from (suc calls) b one enough =
      let here = drop (b * size) (listed e viewer post_id s) in
      elim (Bool-cases (ltb size (length here))) [
        | inl more ↦ ground (
          arith,
          turned calls b,
          take-append-drop size here,
          next_page b,
          pages_from calls (suc b) one (ground (arith, next_page b, length-drop size here)),
        )
        | inr last ↦ ground (arith, turned calls b, take-short size here)
      ]

  first_page : drop (0 * size) (listed e viewer post_id s) ≡ listed e viewer post_id s
  first_page = ap (λ k. drop k (listed e viewer post_id s)) (zero-mul size)

  -- A client who may see a post turns pages while the answers announce more, and gets every comment
  -- that is listed once, in order. A page is not empty, and the calls are more than the comments.
  pub get_circle_post_comments-turn_pages :
      (calls : ℕ)
      → 1 ≤ size
      → length (listed e viewer post_id s) < calls
      → turn_pages calls e post_id viewer 1 size s ≡ listed e viewer post_id s
  get_circle_post_comments-turn_pages calls one enough =
      pages_from calls 0 one (ground (arith, first_page)) ∙ first_page
