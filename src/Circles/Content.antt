-- ===== src/Circles/Content.antt =====
-- core/circles/models.py: the columns that the circle services read and write.
use ziona_server.Base.{
  ℕ, zero, suc, Bool, true, false, ◌&&◌, Option, none, some, is_some, not, Text,
}

pub data CircleRole : Type 0 where
  member moderator admin : CircleRole

pub record Circle : Type 0 where
  pub id : ℕ
  pub is_active : Bool
  pub created_by : Option ℕ
  pub deleted_at : Option ℕ

pub record Membership : Type 0 where
  pub circle_id : ℕ
  pub user_id : ℕ
  pub role : CircleRole

pub data AnchorType : Type 0 where
  bible_verse devotional text_anchor image video image_text : AnchorType

pub data AnchorStatus : Type 0 where
  draft scheduled posted expired cancelled : AnchorStatus

-- The columns of an anchor's presentation are left out.
pub record Anchor : Type 0 where
  pub id : ℕ
  pub circle_id : ℕ
  pub created_by : Option ℕ
  pub anchor_type : AnchorType
  pub anchor_status : AnchorStatus
  pub published_at : ℕ
  pub expires_at : ℕ
  pub scheduled_for : Option ℕ
  pub posted_at : Option ℕ
  pub prayed_count : ℕ
  pub anchor_liked_count : ℕ
  pub deleted_at : Option ℕ

pub data EngagementType : Type 0 where
  pray like : EngagementType

-- A row of AnchorEngagement or of CirclePostEngagement.
pub record Engagement : Type 0 where
  pub target_id : ℕ
  pub user_id : ℕ
  pub engagement_type : EngagementType

pub record CirclePost : Type 0 where
  pub id : ℕ
  pub circle_id : ℕ
  pub user_id : ℕ
  pub text : Text
  pub likes_count : ℕ
  pub comments_count : ℕ
  pub prayed_count : ℕ
  pub deleted_at : Option ℕ

pub record CirclePostComment : Type 0 where
  pub id : ℕ
  pub post_id : ℕ
  pub user_id : ℕ
  pub text : Text
  pub likes_count : ℕ
  pub deleted_at : Option ℕ

pub record CommentLike : Type 0 where
  pub comment_id : ℕ
  pub user_id : ℕ

-- The integers, for a column that may go below 0.
pub data ℤ : Type 0 where
  pos negsuc : ℕ → ℤ

abbrev pub suc_ℤ : ℤ → ℤ
suc_ℤ (pos n) = pos (suc n)
suc_ℤ (negsuc zero) = pos 0
suc_ℤ (negsuc (suc n)) = negsuc n

abbrev pub pred_ℤ : ℤ → ℤ
pred_ℤ (pos zero) = negsuc 0
pred_ℤ (pos (suc n)) = pos n
pred_ℤ (negsuc n) = negsuc (suc n)

pub data ResponseType : Type 0 where
  reflection prayer question reply : ResponseType

pub record AnchorResponse : Type 0 where
  pub id : ℕ
  pub anchor_id : ℕ
  pub user_id : ℕ
  pub parent_response : Option ℕ
  pub response_type : ResponseType
  pub content : Text
  pub media_url : Text
  pub media_type : Text
  pub reaction_count : ℤ
  pub deleted_at : Option ℕ

pub data ReactionType : Type 0 where
  amen encouraged thoughtful : ReactionType

pub record Reaction : Type 0 where
  pub response_id : ℕ
  pub user_id : ℕ
  pub reaction_type : ReactionType

pub data TargetType : Type 0 where
  anchor response circle post comment : TargetType

pub record CircleReport : Type 0 where
  pub reporter_id : ℕ
  pub circle_id : ℕ
  pub target_type : TargetType
  pub target_id : ℕ
  pub reason : Text

pub record HiddenContent : Type 0 where
  pub user_id : ℕ
  pub target_type : TargetType
  pub target_id : ℕ

-- The Boolean test `x is None`.
abbrev pub is_null : Option ℕ → Bool
is_null o = not (is_some o)

abbrev pub same_role : CircleRole → CircleRole → Bool
same_role member member = true
same_role moderator moderator = true
same_role admin admin = true
same_role a b = false

abbrev pub same_engagement : EngagementType → EngagementType → Bool
same_engagement pray pray = true
same_engagement like like = true
same_engagement a b = false

-- `anchor_status__in=["scheduled", "posted"]`
abbrev pub is_booked : AnchorStatus → Bool
is_booked scheduled = true
is_booked posted = true
is_booked a = false

abbrev pub is_posted : AnchorStatus → Bool
is_posted posted = true
is_posted a = false

abbrev pub same_reaction : ReactionType → ReactionType → Bool
same_reaction amen amen = true
same_reaction encouraged encouraged = true
same_reaction thoughtful thoughtful = true
same_reaction a b = false

abbrev pub same_target : TargetType → TargetType → Bool
same_target anchor anchor = true
same_target response response = true
same_target circle circle = true
same_target post post = true
same_target comment comment = true
same_target a b = false

-- The two managers of core/shared/models.py, over the users outside deletion and deactivation.
module _ (active_user : ℕ → Bool) where
  abbrev pub content_visible : Option ℕ → ℕ → Bool
  content_visible deleted_at user_id = is_null deleted_at && active_user user_id

  abbrev pub creator_visible : Option ℕ → Option ℕ → Bool
  creator_visible deleted_at none = is_null deleted_at
  creator_visible deleted_at (some u) = is_null deleted_at && active_user u

  abbrev pub shows_circle : Circle → Bool
  shows_circle c = creator_visible c.deleted_at c.created_by

  abbrev pub shows_anchor : Anchor → Bool
  shows_anchor a = creator_visible a.deleted_at a.created_by

  abbrev pub shows_post : CirclePost → Bool
  shows_post p = content_visible p.deleted_at p.user_id

  abbrev pub shows_comment : CirclePostComment → Bool
  shows_comment c = content_visible c.deleted_at c.user_id

  abbrev pub shows_response : AnchorResponse → Bool
  shows_response r = content_visible r.deleted_at r.user_id

-- Primary keys.
abbrev pub circle_key : Circle → ℕ
circle_key c = c.id

abbrev pub anchor_key : Anchor → ℕ
anchor_key a = a.id

abbrev pub post_key : CirclePost → ℕ
post_key p = p.id

abbrev pub comment_key : CirclePostComment → ℕ
comment_key c = c.id

abbrev pub response_key : AnchorResponse → ℕ
response_key r = r.id
