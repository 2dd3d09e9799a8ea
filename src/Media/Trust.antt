-- ===== src/Media/Trust.antt =====
-- core/media/validators.py: which external image URLs are accepted, and which are requested at all.
pub mod Safe
use Prim.Native.Nat.{zero, suc}
use ziona_server.Base.{
  ℕ, ◌+◌, ◌≤◌, ◌≡◌, Bool, true, false, not, ◌&&◌, ◌||◌, Option, none, some, List, [], ◌∷◌, ◌++◌,
  ◌==◌, if◌then◌else◌, length, any_of, all_of, Text, codes, text_eq, lower, strip, is_empty,
  is_prefix, ends_with, Method, ok, err, fail, fail_if, pure, ◌>>=◌, ◌>>◌,
}
use ziona_server.Media.Urls.{normalize_url}

pub record Parsed : Type 0 where
  pub scheme : Text
  pub hostname : Option Text

-- A response of the HTTP library: whether it is a redirect, and the two headers that are read.
pub record Response : Type 0 where
  pub status_code : ℕ
  pub is_redirect : Bool
  pub location : Option Text
  pub content_type : Option Text

pub data Verb : Type 0 where
  head get : Verb

pub record Request : Type 0 where
  pub verb : Verb
  pub url : Text

-- The setting, the URL and address parsers, and the network: what a request is answered after the
-- requests before it, or `none` for a `RequestException`.
pub record WebEnv : Type 0 where
  pub allowlist : List Text
  pub urlparse : Text → Parsed
  pub urljoin : Text → Text → Text
  pub is_ip_literal : Text → Bool
  pub answer : List Request → Request → Option Response

pub data MediaError : Type 0 where
  not_https untrusted_host not_allowlisted unreachable no_target not_an_image : MediaError
  too_many_redirects : MediaError

-- The state is the list of requests made, newest first.
abbrev pub W : Type 0 → Type 0
W = Method (List Request) MediaError

abbrev pub or_empty : Option Text → Text
or_empty none = []
or_empty (some t) = t

-- `_host_is_allowed`
unfoldable pub host_is_allowed : List Text → Text → Bool
host_is_allowed [] host = false
host_is_allowed (entry ∷ allowlist) host =
    let allowed = lower (strip entry) in
    let rest = host_is_allowed allowlist host in
    if is_empty (strip entry)
    then rest
    else if text_eq host allowed || ends_with host (codes "." ++ allowed)
    then true
    else rest

module _ (w : WebEnv) where
  abbrev pub host_of : Text → Text
  host_of url = lower (or_empty (w.urlparse url).hostname)

  abbrev pub is_https : Text → Bool
  is_https url = text_eq (w.urlparse url).scheme (codes "https")

  abbrev pub is_public : Text → Bool
  is_public url = not (
      (is_empty (host_of url) || text_eq (host_of url) (codes "localhost"))
      || w.is_ip_literal (host_of url))

  -- `requests.head` or `requests.get`
  abbrev pub send : Request → W Response
  send r log = elim (w.answer log r) [
    | none ↦ (err unreachable, r ∷ log)
    | some a ↦ (ok a, r ∷ log)
  ]

  -- `_head_external_media_url`
  unfoldable pub head_external_media_url : Text → W Response
  head_external_media_url url = do
    a ← send (record { verb = head; url = url })
    (if a.status_code == 405 then send (record { verb = get; url = url }) else pure a)

  unfoldable pub require_trusted : Text → W (Unit {0})
  require_trusted url = do
    fail_if (not (is_https url)) not_https
    fail_if (not (is_public url)) untrusted_host
    fail_if (not (host_is_allowed w.allowlist (host_of url))) not_allowlisted

  -- `str.split(";", 1)[0]`
  abbrev pub before_semicolon : Text → Text
  before_semicolon [] = []
  before_semicolon (c ∷ t) = let rest = before_semicolon t in if c == b';' then [] else c ∷ rest

  abbrev pub is_image : Response → Bool
  is_image a =
      is_prefix (codes "image/") (lower (strip (before_semicolon (or_empty a.content_type))))

  -- The passes that are left of the loop, at a URL.
  unfoldable pub follow : ℕ → Text → W Text
  unfolding head_external_media_url require_trusted
  follow zero url log = (err too_many_redirects, log)
  follow (suc passes) url log =
      (do
        require_trusted url
        a ← head_external_media_url url
        (if a.is_redirect
            then (if is_empty (or_empty a.location)
                then fail no_target
                else follow passes (normalize_url (w.urljoin url (or_empty a.location))))
            else if is_image a
            then pure url
            else fail not_an_image))
        log

  unfoldable pub validate_trusted_external_image_url : Text → W Text
  unfolding follow
  validate_trusted_external_image_url url = follow 4 (normalize_url url)

  -- What a request may go to: HTTPS, a public host by name, and a host of the allowlist.
  unfoldable pub is_trusted : Text → Bool
  is_trusted url = is_https url && (is_public url && host_is_allowed w.allowlist (host_of url))

  abbrev pub to_trusted : Request → Bool
  to_trusted r = is_trusted r.url
