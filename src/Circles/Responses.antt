-- ===== src/Circles/Responses.antt =====
-- core/circles/response_services.py and validators.py: responses to anchors, replies and reactions.
-- The notifications are left out.
pub mod Threads
pub mod Reactions
use ziona_server.Base.{
  ℕ, zero, suc, Bool, true, false, not, ◌&&◌, Option, none, some, List, [], ◌∷◌, ◌==◌, leb,
  if◌then◌else◌, Text, codes, text_eq, is_empty, find_first, filter_out, get_where, lookup,
  update_where, update_at, Result, ok, err, fail, fail_if, gets, modify, pure, in_transaction,
  ◌>>=◌, ◌>>◌, is_some,
}
use ziona_server.Circles.Content.{
  Anchor, AnchorResponse, Reaction, ReactionType, amen, encouraged, thoughtful, ResponseType,
  reflection, prayer, question, reply, same_reaction, is_null, pos, suc_ℤ, pred_ℤ, shows_response,
  response_key, anchor_key,
}
use ziona_server.Circles.State.{
  CircleStore, CircleEnv, C, CircleError, not_circle_member, anchor_not_found, anchor_expired,
  invalid_reaction_type, response_not_found, invalid_response_type, threading_depth_exceeded,
  invalid_media,
}
use ziona_server.Circles.Members.{require_circle_membership}
use ziona_server.Circles.Engage.{require_anchor}
use ziona_server.Media.Trust.{WebEnv, validate_trusted_external_image_url}

-- `valid_types` of `toggle_reaction` and of `create_response`.
abbrev pub read_reaction : Text → Option ReactionType
read_reaction t =
    if text_eq t (codes "amen")
    then some amen
    else if text_eq t (codes "encouraged")
    then some encouraged
    else if text_eq t (codes "thoughtful")
    then some thoughtful
    else none

abbrev pub read_response_type : Text → Option ResponseType
read_response_type t =
    if text_eq t (codes "reflection")
    then some reflection
    else if text_eq t (codes "prayer")
    then some prayer
    else if text_eq t (codes "question")
    then some question
    else none

-- `validate_response_media`: the URL to store, or the refusal. Only an image that passes the checks
-- of external URLs is taken.
unfoldable pub validate_response_media : WebEnv → Text → Text → Option Text
unfolding validate_trusted_external_image_url
validate_response_media w media_type media_url =
    if is_empty media_type
    then some media_url
    else if is_empty media_url
    then some media_url
    else if text_eq media_type (codes "image")
    then elim (validate_trusted_external_image_url w media_url []).0 [
      | ok url ↦ some url
      | err x ↦ none
    ]
    else none

abbrev pub require_media : WebEnv → Text → Text → C Text
require_media w media_type media_url s = elim (validate_response_media w media_type media_url) [
  | none ↦ (err invalid_media, s)
  | some url ↦ (ok url, s)
]

abbrev pub reacted : ℕ → ℕ → Reaction → Bool
reacted response_id user_id r = r.response_id == response_id && r.user_id == user_id

abbrev pub reaction_up : AnchorResponse → AnchorResponse
reaction_up r = record r { reaction_count = suc_ℤ r.reaction_count }

abbrev pub reaction_down : AnchorResponse → AnchorResponse
reaction_down r = record r { reaction_count = pred_ℤ r.reaction_count }

module _ (e : CircleEnv) where
  abbrev pub live_response : AnchorResponse → Bool
  live_response r = shows_response e.active_user r && is_null r.deleted_at

  -- A response with the circle of its anchor, which the foreign key finds.
  abbrev pub require_response : ℕ → C (AnchorResponse × ℕ)
  require_response response_id s =
      elim (get_where response_key live_response response_id s.responses) [
        | none ↦ (err response_not_found, s)
        | some r ↦ elim (lookup anchor_key r.anchor_id s.anchors) [
          | none ↦ (err response_not_found, s)
          | some a ↦ (ok (r, a.circle_id), s)
        ]
      ]

  abbrev pub update_response : ℕ → (AnchorResponse → AnchorResponse) → CircleStore → CircleStore
  update_response response_id f s = record s {
    responses = update_at response_key (shows_response e.active_user) response_id f s.responses;
  }

  abbrev pub add_reaction : ReactionType → ℕ → ℕ → CircleStore → CircleStore
  add_reaction type user_id response_id s = update_response response_id reaction_up (record s {
    reactions =
        record { response_id = response_id; user_id = user_id; reaction_type = type } ∷ s.reactions;
  })

  abbrev pub drop_reaction : ℕ → ℕ → CircleStore → CircleStore
  drop_reaction user_id response_id s =
      update_response response_id reaction_down
        (record s { reactions = filter_out (reacted response_id user_id) s.reactions })

  abbrev pub change_reaction : ReactionType → ℕ → ℕ → CircleStore → CircleStore
  change_reaction type user_id response_id s = record s {
    reactions =
        update_where (reacted response_id user_id) (λ r. record r { reaction_type = type })
          s.reactions;
  }

  -- No reaction, the same one, or another one.
  abbrev pub switch_reaction : ReactionType → ℕ → ℕ → C (Option ReactionType)
  switch_reaction type user_id response_id s =
      elim (find_first (reacted response_id user_id) s.reactions) [
        | none ↦ (ok (some type), add_reaction type user_id response_id s)
        | some r ↦
            if same_reaction r.reaction_type type
            then (ok none, drop_reaction user_id response_id s)
            else (ok (some type), change_reaction type user_id response_id s)
      ]

  abbrev pub require_reaction : Text → C ReactionType
  require_reaction t s = elim (read_reaction t) [
    | none ↦ (err invalid_reaction_type, s)
    | some type ↦ (ok type, s)
  ]

  -- The answer is the reaction that the user has then.
  unfoldable pub toggle_reaction : ℕ → ℕ → Text → C (Option ReactionType)
  toggle_reaction user_id response_id reaction_type = in_transaction (do
    type ← require_reaction reaction_type
    found ← require_response response_id
    require_circle_membership not_circle_member (some user_id) found.1
    switch_reaction type user_id found.0.id)

  abbrev pub is_expired : Anchor → Bool
  is_expired a = leb a.expires_at e.now

  abbrev pub require_response_type : Text → C ResponseType
  require_response_type t s = elim (read_response_type t) [
    | none ↦ (err invalid_response_type, s)
    | some type ↦ (ok type, s)
  ]

  abbrev pub add_response :
      ℕ → ℕ → Option ℕ → ResponseType → Text → Text → Text → CircleStore → CircleStore
  add_response user_id anchor_id parent type content media_url media_type s = record s {
    responses =
        record {
          id = e.new_id;
          anchor_id = anchor_id;
          user_id = user_id;
          parent_response = parent;
          response_type = type;
          content = content;
          media_url = media_url;
          media_type = media_type;
          reaction_count = pos 0;
          deleted_at = none;
        }
        ∷ s.responses;
  }

  unfoldable pub create_response : WebEnv → ℕ → ℕ → Text → Text → Text → Text → C (Unit {0})
  create_response w user_id anchor_id response_type content media_url media_type =
      in_transaction (do
        a ← require_anchor e anchor_id
        require_circle_membership not_circle_member (some user_id) a.circle_id
        fail_if (is_expired a) anchor_expired
        type ← require_response_type response_type
        url ← require_media w media_type media_url
        modify (add_response user_id a.id none type content url media_type))

  unfoldable pub create_reply : WebEnv → ℕ → ℕ → Text → Text → Text → C (Unit {0})
  create_reply w user_id parent_response_id content media_url media_type = in_transaction (do
    parent ← require_response parent_response_id
    require_circle_membership not_circle_member (some user_id) parent.1
    fail_if (is_some parent.0.parent_response) threading_depth_exceeded
    url ← require_media w media_type media_url
    modify
        (add_response user_id parent.0.anchor_id (some parent.0.id) reply content url media_type))
