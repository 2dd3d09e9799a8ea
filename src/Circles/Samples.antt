-- ===== src/Circles/Samples.antt =====
-- A small circle: user 10 is its admin, users 11, 12 and 13 are members.
use ziona_server.Base.{ℕ, true, not, none, some, [], ◌∷◌, ◌==◌, codes, arith}
use ziona_server.Circles.Content.{
  member, admin, posted, like, pray, amen, reflection, post, bible_verse, CirclePost,
  CirclePostComment, Anchor, AnchorResponse, pos,
}
use ziona_server.Circles.State.{CircleStore, CircleEnv}
use ziona_server.Circles.Comments.Likes.{LikesTallied}
use ziona_server.Circles.Hidden.{IsTrimmed}
use ziona_server.Circles.Members.Roster.{HasUniqueMembers}
use ziona_server.Circles.Members.Governed.{IsGoverned}
use ziona_server.Circles.Engage.Counts.{PostsTallied}
use ziona_server.Circles.Comments.Counts.{CommentsCounted, AuthorsActive}
use ziona_server.Circles.Responses.Threads.{AreThreaded}
use ziona_server.Circles.Reports.Threshold.{HasUniqueReports}

-- Everybody is active but `away`; the time is 5 seconds.
abbrev pub without : ℕ → CircleEnv
without away = record {
  now = 5000000;
  new_id = 90;
  active_user = λ u. not (u == away);
  refuses_after_error = true;
}

abbrev pub env : CircleEnv
env = without 99

abbrev pub sample_post : CirclePost
sample_post = record {
  id = 20;
  circle_id = 1;
  user_id = 10;
  text = codes "hi";
  likes_count = 1;
  comments_count = 1;
  prayed_count = 0;
  deleted_at = none;
}

abbrev pub sample_comment : CirclePostComment
sample_comment = record {
  id = 30;
  post_id = 20;
  user_id = 11;
  text = codes "yes";
  likes_count = 1;
  deleted_at = none;
}

abbrev pub sample_anchor : Anchor
sample_anchor = record {
  id = 40;
  circle_id = 1;
  created_by = some 10;
  anchor_type = bible_verse;
  anchor_status = posted;
  published_at = 1000000;
  expires_at = 9000000;
  scheduled_for = none;
  posted_at = some 1000000;
  prayed_count = 1;
  anchor_liked_count = 0;
  deleted_at = none;
}

abbrev pub sample_response : AnchorResponse
sample_response = record {
  id = 50;
  anchor_id = 40;
  user_id = 11;
  parent_response = none;
  response_type = reflection;
  content = codes "so";
  media_url = [];
  media_type = [];
  reaction_count = pos 1;
  deleted_at = none;
}

abbrev pub sample : CircleStore
sample = record {
  circles = record { id = 1; is_active = true; created_by = some 10; deleted_at = none } ∷ [];
  memberships =
      record { circle_id = 1; user_id = 10; role = admin }
      ∷ record { circle_id = 1; user_id = 11; role = member }
      ∷ record { circle_id = 1; user_id = 12; role = member }
      ∷ record { circle_id = 1; user_id = 13; role = member }
      ∷ [];
  anchors = sample_anchor ∷ [];
  anchor_engagements = record { target_id = 40; user_id = 11; engagement_type = pray } ∷ [];
  posts = sample_post ∷ [];
  post_engagements = record { target_id = 20; user_id = 11; engagement_type = like } ∷ [];
  comments = sample_comment ∷ [];
  comment_likes = record { comment_id = 30; user_id = 12 } ∷ [];
  responses = sample_response ∷ [];
  reactions = record { response_id = 50; user_id = 12; reaction_type = amen } ∷ [];
  reports =
      record { reporter_id = 11; circle_id = 1; target_type = post; target_id = 20; reason = [] }
      ∷ record { reporter_id = 12; circle_id = 1; target_type = post; target_id = 20; reason = [] }
      ∷ [];
  hidden = [];
  active_anchor = λ c. none;
}

pub sample-HasUniqueMembers : HasUniqueMembers sample
sample-HasUniqueMembers c u = ground arith

pub sample-IsGoverned : IsGoverned sample
sample-IsGoverned = record { unique = sample-HasUniqueMembers; governed = λ i c h. ground arith }

pub sample-PostsTallied : PostsTallied sample
sample-PostsTallied = record {
  keyed = λ i. ground arith;
  once = λ i u t. ground arith;
  tallied = λ i t p h. ground arith;
}

pub sample-CommentsCounted : CommentsCounted sample
sample-CommentsCounted = record {
  posts_keyed = λ i. ground arith;
  comments_keyed = λ i. ground arith;
  counted = λ i p h live. ground arith;
}

pub sample-AuthorsActive : AuthorsActive env sample
sample-AuthorsActive i p h = ground arith

pub sample-AreThreaded : AreThreaded sample
sample-AreThreaded = record {
  keyed = λ i. ground arith;
  threaded = λ i r h j k. absurd (ground arith);
}

pub sample-HasUniqueReports : HasUniqueReports sample
sample-HasUniqueReports u type i = ground arith

pub sample-LikesTallied : LikesTallied sample
sample-LikesTallied = record {
  keyed = λ i. ground arith;
  once = λ i u. ground arith;
  tallied = λ i c h. ground arith;
}

pub sample-IsTrimmed : IsTrimmed sample
sample-IsTrimmed u = ground arith
