-- ===== src/Circles/Tests.antt =====
-- The theorems on circles at a small one.
use ziona_server.Base.{
  text_eq, strip, lower, ℕ, suc, ◌≤◌, ◌≡◌, refl, true, false, none, some, List, [], ◌∷◌, arith,
  codes, count_if, lookup, ok, err,
}
use ziona_server.Circles.Content.{post, TargetType, post_key}
use ziona_server.Circles.State.{CircleStore, transaction_broken}
use ziona_server.Circles.Members.{
  require_circle_membership, has_circle_membership, perform_call, run_calls, MemberCall, join,
  leave, create,
}
use ziona_server.Circles.Members.Refine.{perform_refines, IsStep}
use ziona_server.Circles.Members.Governed.{IsGoverned, run_calls-IsGoverned}
use ziona_server.Circles.Engage.{like_circle_post, pray_for_circle_post, ensure_circle_post_liked}
use ziona_server.Circles.Engage.Counts.{PostsTallied}
use ziona_server.Circles.Engage.Posts.{like_circle_post-PostsTallied}
use ziona_server.Circles.Comments.{
  create_circle_post_comment, delete_circle_post_comment, toggle_circle_post_comment_like, listed,
  is_hidden, switch_like,
}
use ziona_server.Circles.Comments.Stuck.{run_toggles, IsLiked, run_toggles-IsLiked}
use ziona_server.Circles.Comments.Counts.{CommentsCounted, live_on}
use ziona_server.Circles.Comments.Mutations.{
  create_circle_post_comment-CommentsCounted, delete_circle_post_comment_drifts,
}
use ziona_server.Circles.Comments.Pages.{turn_pages, get_circle_post_comments-turn_pages}
use ziona_server.Circles.Responses.{create_response, create_reply}
use ziona_server.Circles.Responses.Threads.{AreThreaded, create_reply-AreThreaded}
use ziona_server.Circles.Anchors.{create_anchor, is_active_in}
use ziona_server.Circles.Anchors.Windows.{AreApart, create_anchor-AreApart}
use ziona_server.Circles.Hidden.{
  hide_circle_content_for_user, IsTrimmed, hide_circle_content_for_user-IsTrimmed,
}
use ziona_server.Circles.Reports.{read_target_type, report_circle_content, has_target}
use ziona_server.Circles.Reports.Outcome.{Counts, report_circle_content_lem}
use ziona_server.Circles.Samples.{
  without, env, sample, sample_post, sample_comment, sample-HasUniqueMembers, sample-IsGoverned,
  sample-PostsTallied, sample-CommentsCounted, sample-AuthorsActive, sample-AreThreaded,
  sample-IsTrimmed, sample-HasUniqueReports,
}
use ziona_server.Media.Trust.{WebEnv}

-- The only admin cannot leave; with a second one the first can.
leave_only_admin : (perform_call (leave 10 1) sample).1 ≡ sample
unfolding perform_call
leave_only_admin = refl

perform_refines_example : IsStep sample (leave 10 1) (perform_call (leave 10 1) sample)
perform_refines_example = perform_refines (leave 10 1) sample sample-HasUniqueMembers

abbrev calls : List MemberCall
calls = join env 14 1 ∷ leave 11 1 ∷ create env 12 ∷ leave 12 90 ∷ []

run_calls-IsGoverned_example : IsGoverned (run_calls calls sample)
unfolding perform_call
run_calls-IsGoverned_example =
    run_calls-IsGoverned calls sample (tt, (tt, (refl, (tt, tt)))) sample-IsGoverned

like_circle_post-PostsTallied_example :
    PostsTallied (like_circle_post env 12 20 sample).1
    × PostsTallied (pray_for_circle_post env 12 20 sample).1
    × PostsTallied (ensure_circle_post_liked env 12 20 sample).1
like_circle_post-PostsTallied_example =
    like_circle_post-PostsTallied env 12 20 sample sample-PostsTallied

-- A second toggle raises the error of the broken transaction; without the refusal it would have taken
-- the like back.
stuck : toggle_circle_post_comment_like env 12 (some 30) sample ≡ (err transaction_broken, sample)
unfolding toggle_circle_post_comment_like switch_like require_circle_membership
stuck = refl

taken_back :
    (toggle_circle_post_comment_like
      (record env { refuses_after_error = false })
      12
      (some 30)
      sample).0
    ≡ ok (false, 0)
unfolding toggle_circle_post_comment_like switch_like require_circle_membership
taken_back = refl

run_toggles-IsLiked_example :
    IsLiked 30 12 (run_toggles env ((12, some 30) ∷ (13, some 30) ∷ (13, some 30) ∷ []) sample)
run_toggles-IsLiked_example =
    run_toggles-IsLiked env refl 30 12 ((12, some 30) ∷ (13, some 30) ∷ (13, some 30) ∷ []) sample
      refl

create_circle_post_comment-CommentsCounted_example :
    CommentsCounted (create_circle_post_comment env 11 20 (codes "ok") sample).1
    × CommentsCounted (delete_circle_post_comment env 11 (some 30) sample).1
create_circle_post_comment-CommentsCounted_example =
    create_circle_post_comment-CommentsCounted env 11 sample sample-CommentsCounted
      sample-AuthorsActive 20 (codes "ok") (some 30) refl

delete_circle_post_comment_drifts_example :
    (t : CircleStore) × (delete_circle_post_comment (without 10) 11 (some 30) sample ≡ (ok tt, t))
    × (lookup post_key 20 t.posts ≡ some sample_post)
    × (1 ≡ suc (count_if (live_on 20) t.comments))
unfolding has_circle_membership
delete_circle_post_comment_drifts_example =
    delete_circle_post_comment_drifts (without 10) (some 30) sample sample_comment sample_post
      sample-CommentsCounted refl refl refl refl refl

get_circle_post_comments-turn_pages_example :
    turn_pages 2 env 20 (some 11) 1 1 sample ≡ listed env (some 11) 20 sample
unfolding has_circle_membership
get_circle_post_comments-turn_pages_example =
    get_circle_post_comments-turn_pages env 20 1 (some 11) sample sample_post refl refl 2
      (omega arith) (omega arith)

-- No request is answered.
abbrev offline : WebEnv
offline = record {
  allowlist = [];
  urlparse = λ t. record { scheme = []; hostname = none };
  urljoin = λ t u. u;
  is_ip_literal = λ t. false;
  answer = λ log r. none;
}

create_reply-AreThreaded_example :
    AreThreaded (create_response env offline 12 50 (codes "prayer") (codes "so") [] [] sample).1
    × AreThreaded (create_reply env offline 12 50 (codes "so") [] [] sample).1
create_reply-AreThreaded_example =
    create_reply-AreThreaded offline env 12 sample 50 (codes "prayer") (codes "so") [] [] refl
      sample-AreThreaded

create_anchor-AreApart_example :
    AreApart (create_anchor env 10 1 (codes "text") [] (some 9000000) sample).1
    × ((k : ℕ)
        → count_if
            (is_active_in env k)
            (create_anchor env 10 1 (codes "text") [] (some 9000000) sample).1.anchors
          ≤ 1)
create_anchor-AreApart_example =
    create_anchor-AreApart env env 10 1 (codes "text") [] (some 9000000) sample refl refl

hide_circle_content_for_user-IsTrimmed_example :
    IsTrimmed (hide_circle_content_for_user 11 post 20 sample)
    × (is_hidden (some 11) post 20 (hide_circle_content_for_user 11 post 20 sample) ≡ true)
hide_circle_content_for_user-IsTrimmed_example =
    hide_circle_content_for_user-IsTrimmed 11 post 20 sample sample-IsTrimmed

abbrev third_report : CircleStore
third_report =
    (report_circle_content env 13 (codes "circle_post") (some 20) (codes "bad") (some 1) sample).1

report_circle_content_lem_example :
    (type : TargetType) × (c : ℕ) × (i : ℕ) × (read_target_type (codes "circle_post") ≡ some type)
    × (some 1 ≡ some c)
    × (some 20 ≡ some i)
    × (has_circle_membership (some 13) c sample ≡ true)
    × (has_target env type i c sample ≡ true)
    × Counts env 13 type i sample third_report
unfolding report_circle_content read_target_type text_eq lower strip require_circle_membership
report_circle_content_lem_example =
    report_circle_content_lem env 13 (codes "circle_post") (codes "bad") (some 20) (some 1) sample
      third_report sample-HasUniqueReports refl
