-- ===== src/Lib.antt =====
-- Ziona Server: what its core promises, as checked theorems.
--
-- The server is a Django application; its core logic stands in the service modules of core/. Modelled
-- here are the life of an account, circles, comments, the check of external images and the assembly of
-- feed pages:
--
-- * An account is a row of the user table (core/users/models.py). It may authenticate or not
--   (core/authentication/account_status.py); its owner deactivates it or schedules its deletion, and
--   comes back with a recovery token (core/authentication/account_actions.py); an administrator warns,
--   suspends, deletes, restores or erases it (core/admin_dashboard/user_services.py); a task erases
--   the accounts whose deletion is due (core/users/tasks.py). They share the tables of users and of
--   deletion requests.
-- * A session is a refresh token, whose state Redis keeps; it is rotated at each use and revoked with the
--   others of its user (core/authentication/tokens.py).
-- * Codes sent by mail prove that the owner acts (core/authentication/otp_service.py). They live in
--   Redis, as do the counters that limit guesses and sends.
-- * Handles are claimed, changed and reserved (core/users/services.py and username_policy.py).
-- * A circle has members with roles, anchors, posts with comments, and responses to its anchors. Members
--   join and leave, react and report (core/circles/, core/engagement/hidden_content.py).
-- * Posts have comments in threads, which users like (core/engagement/services/comments.py).
-- * A donation that succeeds may make its donor an early supporter, with a number
--   (core/donations/hosted_services.py).
-- * An external image URL is followed, with its redirects, to hosts of an allowlist only
--   (core/media/validators.py, core/shared/utils.py).
-- * A feed page is filled from ranked posts under rules of variety (core/feed/services/assembly.py).
--
-- Base: Booleans, lists, texts and the monad of methods with exceptions. `Method S E A` is a function
--   from a state to a result and the state after it; what was written stays written after a raise.
-- Feed/Assembly: assemble_page. `fits` is _fits, `step` one turn of the loop, `fill` the loop on fuel;
--   the fuel is one more than the limit and the fresh posts together, and is enough.
-- Accounts: User (the row, `get_by_email`, `save`), Status (ensure_account_can_authenticate), Store
--   (requests, devices, reservations, logs, `atomic`), Actions (deactivation, deletion) and Return
--   (reactivation, cancellation).
-- Otp: World (Redis, users, mail queue), Redis (the commands), Limits (_check_otp_attempts and the
--   other counters), Send (_send_otp), Verify (the check and the session), Service (the methods of
--   OTPService). The outage of Redis is part of the state: for each command to come, whether it fails.
-- Usernames: Format, Policy and Change (set_username).
-- Admin: Rules (_available_actions), Erase (the anonymization), Users (the six operations).
-- Purge: Task (purge_due_account_deletions, a loop on the number of attempts that are left).
-- Tokens: State (Redis, the cutoffs, the errors) and Service (the methods of TokenService on refresh
--   tokens, core/authentication/tokens.py), in microseconds.
-- Circles: Content (the rows of core/circles/models.py and the managers of core/shared/models.py), State
--   (the tables, the errors), Members (services/membership.py, access.py, permissions.py), Engage (the
--   toggles of services/circle_posts.py and anchor_engagement.py), Comments (comment_services.py),
--   Responses (response_services.py, validators.py), Anchors (anchor_services.py), Hidden
--   (hide_circle_content_for_user) and Reports (moderation_services.py). A service is a method on the
--   tables, in a transaction. The users outside deletion and deactivation are an argument, and so is
--   whether the database layer refuses queries after an error in the same transaction; Django does. The
--   block of toggle_circle_post_comment_like keeps whether an error happened in it.
-- Engagement: State (the rows of core/engagement/models.py and what the managers show of them) and
--   Comments (services/comments.py). The loop of _get_thread_depth makes three rounds at most, which the
--   greatest depth is. Whether the rate limiter refuses and what `\w` matches are arguments.
-- Donations: Supporters (_mark_succeeded and _assign_early_supporter of hosted_services.py). The supporter
--   that a caller holds is an argument, and so is the donation.
-- Media: Urls (normalize_url) and Trust (validate_trusted_external_image_url). The state is the list of
--   requests made; the URL parser, the address test and the answers of the network are arguments. The
--   loop makes four passes, as in the code.
-- Lifecycle: histories of account actions, operations of administrators and purges on one store.
--
-- Times are seconds and ids are numbers, which the code only compares. A text is a list of code
-- points; `lower` and `strip` are Python's on ASCII. The clock, the settings, the random draws, the
-- decoding of tokens and the password hasher are arguments. A transaction that fails is undone; two
-- transactions do not interleave, so that the constraint errors which only a race raises (set_username
-- maps one to USERNAME_TAKEN) do not occur. A purge fails before its transaction or not at all; what is
-- logged after the commit does not fail. Uploads, the content of posts and feeds, caches of the database,
-- notifications, logs and the delivery of mail are not modelled, as the components of the manifest
-- say.
pub mod Base
pub mod Circles
pub mod Engagement
pub mod Donations
pub mod Media
pub mod Feed
pub mod Accounts
pub mod Otp
pub mod Usernames
pub mod Admin
pub mod Purge
pub mod Tokens
pub mod Lifecycle
