-- ===== src/Circles/Responses/Threads.antt =====
-- Threads are two levels deep: what is answered by a reply is no reply.
use ziona_server.Base.{
  ℕ, ◌≡◌, ◌⊎◌, refl, true, Option, none, some, List, [], ◌∷◌, ◌==◌, arith, inl, inr, Bool-cases,
  Option-cases, count_if, Text, ok, lookup, HasKeys, has_key, get_where, lookup-get_where,
  lookup-key, subst, sym, is_some, fail_if, modify, ◌>>=◌, ◌>>◌,
}
use ziona_server.Circles.Content.{
  Anchor, AnchorResponse, ResponseType, reply, response_key, anchor_key, shows_response,
}
use ziona_server.Circles.State.{
  CircleStore, CircleEnv, not_circle_member, threading_depth_exceeded, anchor_expired,
}
use ziona_server.Circles.Members.Guarded.{guarded-cases}
use ziona_server.Circles.Engage.{require_anchor}
use ziona_server.Circles.Responses.{
  add_response, create_response, create_reply, require_response, live_response, require_media,
  require_response_type, is_expired, validate_response_media, read_response_type,
}
use ziona_server.Media.Trust.{WebEnv}

-- The parent of a reply is there, is no reply itself and stands under the same anchor.
abbrev pub IsThreaded : CircleStore → AnchorResponse → Type 0
IsThreaded s r =
    (j : ℕ)
    → r.parent_response ≡ some j
    → (q : AnchorResponse) × (lookup response_key j s.responses ≡ some q)
      × (q.parent_response ≡ none)
      × (q.anchor_id ≡ r.anchor_id)

pub record AreThreaded (s : CircleStore) : Type 0 where
  pub keyed : HasKeys response_key s.responses
  pub threaded :
      (i : ℕ) (r : AnchorResponse) → lookup response_key i s.responses ≡ some r → IsThreaded s r

-- The new id is not in use.
abbrev pub IsFreshResponse : CircleEnv → CircleStore → Type 0
IsFreshResponse e s = count_if (has_key response_key e.new_id) s.responses ≡ 0

no_such_row :
    (i : ℕ) (rs : List AnchorResponse)
    → count_if (has_key response_key i) rs ≡ 0
    → lookup response_key i rs ≡ none
no_such_row i [] h = refl
no_such_row i (r ∷ rs) h = ground (arith, no_such_row i rs)

module _ (e : CircleEnv) (u a : ℕ) (type : ResponseType) (content url media_type : Text)
    (s : CircleStore) (fresh : IsFreshResponse e s) (sound : AreThreaded s) where
  -- A row that was there is still the row of its key.
  still :
      (parent : Option ℕ) (j : ℕ) (q : AnchorResponse)
      → lookup response_key j s.responses ≡ some q
      → lookup response_key j (add_response e u a parent type content url media_type s).responses
        ≡ some q
  still parent j q h = ground (arith, no_such_row e.new_id s.responses fresh)

  add_response-IsThreaded :
      (parent : Option ℕ)
      → ((j : ℕ)
          → parent ≡ some j
          → (q : AnchorResponse) × (lookup response_key j s.responses ≡ some q)
            × (q.parent_response ≡ none)
            × (q.anchor_id ≡ a))
      → (i : ℕ) (r : AnchorResponse)
      → lookup response_key i (add_response e u a parent type content url media_type s).responses
        ≡ some r
      → IsThreaded (add_response e u a parent type content url media_type s) r
  add_response-IsThreaded parent top i r h j k = elim (Bool-cases (e.new_id == i)) [
    | inl new ↦
        let (q, row, none_above, same) = top j (ground arith) in
        (q, still parent j q row, none_above, ground arith)
    | inr old ↦
        let (q, row, none_above, same) = sound.threaded i r (ground arith) j k in
        (q, still parent j q row, none_above, same)
  ]

  add_response-AreThreaded :
      (parent : Option ℕ)
      → ((j : ℕ)
          → parent ≡ some j
          → (q : AnchorResponse) × (lookup response_key j s.responses ≡ some q)
            × (q.parent_response ≡ none)
            × (q.anchor_id ≡ a))
      → AreThreaded (add_response e u a parent type content url media_type s)
  add_response-AreThreaded parent top = record {
    keyed = λ i. ground (arith, fresh, sound.keyed i);
    threaded = add_response-IsThreaded parent top;
  }

pub require_response-reads :
    (e : CircleEnv) (i : ℕ) (s : CircleStore) → (require_response e i s).1 ≡ s
require_response-reads e i s = ground arith

require_anchor-reads : (e : CircleEnv) (i : ℕ) (s : CircleStore) → (require_anchor e i s).1 ≡ s
require_anchor-reads e i s = ground arith

-- A response that is found is the row of its key, and shows.
pub require_response-ok :
    (e : CircleEnv) (i : ℕ) (s : CircleStore) (r : AnchorResponse) (k : ℕ)
    → HasKeys response_key s.responses
    → require_response e i s ≡ (ok (r, k), s)
    → (lookup response_key r.id s.responses ≡ some r) × (shows_response e.active_user r ≡ true)
require_response-ok e i s r k keyed h =
    elim (Option-cases (get_where response_key (live_response e) i s.responses)) [
      | inl missing ↦ absurd (ground arith)
      | inr (q, found) ↦ elim (Option-cases (lookup anchor_key q.anchor_id s.anchors)) [
        | inl lost ↦ absurd (ground arith)
        | inr (a, anchor) ↦
            let (l, shown) =
              lookup-get_where response_key (live_response e) i s.responses q keyed found in
            let same = lookup-key response_key i s.responses q l in (ground arith, ground arith)
      ]
    ]

module _ (w : WebEnv) (e : CircleEnv) (u : ℕ) (s : CircleStore) where
  -- A reply is added under a response that is found and is no reply, or nothing is.
  replied :
      (i : ℕ) (content media_url media_type : Text)
      → ((create_reply e w u i content media_url media_type s).1 ≡ s)
        ⊎ ((r : AnchorResponse) × (k : ℕ) × (url : Text) × (require_response e i s ≡ (ok (r, k), s))
            × (r.parent_response ≡ none)
            × ((create_reply e w u i content media_url media_type s).1
                ≡ add_response e u r.anchor_id (some r.id) reply content url media_type s))
  unfolding create_reply
  replied i content media_url media_type =
      elim (guarded-cases (require_response e i) not_circle_member (some u) (λ f. f.1)
        (λ f.
          fail_if (is_some f.0.parent_response) threading_depth_exceeded
          >> (require_media w media_type media_url >>= λ url.
              modify (add_response e u f.0.anchor_id (some f.0.id) reply content url media_type)))
        s (require_response-reads e i s)) [
          | inl same ↦ inl same
          | inr ((r, k), found, m, same) ↦ elim (Option-cases r.parent_response) [
            | inr (j, deep) ↦ inl (ground arith)
            | inl top ↦ elim (Option-cases (validate_response_media w media_type media_url)) [
              | inl bad ↦ inl (ground arith)
              | inr (url, good) ↦ inr (r, k, url, found, top, ground arith)
            ]
          ]
        ]

  responded :
      (i : ℕ) (response_type content media_url media_type : Text)
      → ((create_response e w u i response_type content media_url media_type s).1 ≡ s)
        ⊎ ((a : Anchor) × (type : ResponseType) × (url : Text) × ((create_response e w u i
                response_type content media_url media_type s).1
              ≡ add_response e u a.id none type content url media_type s))
  unfolding create_response
  responded i response_type content media_url media_type =
      elim (guarded-cases (require_anchor e i) not_circle_member (some u) (λ a. a.circle_id)
        (λ a.
          fail_if (is_expired e a) anchor_expired
          >> (require_response_type e response_type >>= λ type.
              require_media w media_type media_url >>= λ url.
              modify (add_response e u a.id none type content url media_type)))
        s (require_anchor-reads e i s)) [
          | inl same ↦ inl same
          | inr (a, found, m, same) ↦ elim (Bool-cases (is_expired e a)) [
            | inl late ↦ inl (ground arith)
            | inr open_still ↦ elim (Option-cases (read_response_type response_type)) [
              | inl unknown ↦ inl (ground arith)
              | inr (type, known) ↦
                  elim (Option-cases (validate_response_media w media_type media_url)) [
                    | inl bad ↦ inl (ground arith)
                    | inr (url, good) ↦ inr (a, type, url, ground arith)
                  ]
            ]
          ]
        ]

  -- Responses and replies keep threads two levels deep: what a reply answers is a response under the
  -- same anchor and no reply. A new row draws a new id.
  pub create_reply-AreThreaded :
      (i : ℕ) (response_type content media_url media_type : Text)
      → IsFreshResponse e s
      → AreThreaded s
      → AreThreaded (create_response e w u i response_type content media_url media_type s).1
        × AreThreaded (create_reply e w u i content media_url media_type s).1
  create_reply-AreThreaded i response_type content media_url media_type fresh sound = (
    elim (responded i response_type content media_url media_type) [
      | inl same ↦ subst AreThreaded (sym same) sound
      | inr (a, type, url, same) ↦ subst AreThreaded (sym same) (
          add_response-AreThreaded e u a.id type content url media_type s fresh sound none
            (λ j h. absurd (ground arith)))
    ],
    elim (replied i content media_url media_type) [
      | inl same ↦ subst AreThreaded (sym same) sound
      | inr (r, k, url, found, top, same) ↦
          let (row, shown) = require_response-ok e i s r k sound.keyed found in
          subst AreThreaded (sym same) (
            add_response-AreThreaded e u r.anchor_id reply content url media_type s fresh sound
              (some r.id) (λ j h. (r, ground arith, top, refl)))
    ],
  )
