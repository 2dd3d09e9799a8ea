-- ===== src/Media/Tests.antt =====
-- External image URLs at small inputs.
use ziona_server.Base.{
  strip, lower, ◌+◌, ◌≤◌, ◌≡◌, refl, true, false, none, some, List, [], ◌∷◌, if◌then◌else◌, Text,
  codes, text_eq, all_of, length,
}
use ziona_server.Media.Urls.{normalize_url}
use ziona_server.Media.Trust.{
  host_is_allowed, Parsed, Response, Request, WebEnv, validate_trusted_external_image_url,
  to_trusted, is_trusted,
}
use ziona_server.Media.Trust.Safe.{validate_trusted_external_image_url-Safe}

abbrev at_cdn : Text
at_cdn = codes "https://cdn/a"

abbrev at_image : Text
at_image = codes "https://img.cdn/b"

-- A parser for the two URLs and for one inside the network.
abbrev parse : Text → Parsed
parse url =
    if text_eq url at_cdn
    then record { scheme = codes "https"; hostname = some (codes "cdn") }
    else if text_eq url at_image
    then record { scheme = codes "https"; hostname = some (codes "img.cdn") }
    else record { scheme = codes "http"; hostname = some (codes "10.0.0.1") }

-- The first URL redirects to where the argument says, the second is an image.
abbrev respond : Text → Request → Response
respond target r =
    if text_eq r.url at_cdn
    then record {
      status_code = 302;
      is_redirect = true;
      location = some target;
      content_type = none;
    }
    else record {
      status_code = 200;
      is_redirect = false;
      location = none;
      content_type = some (codes "image/png; q=1");
    }

abbrev web : Text → WebEnv
web target = record {
  allowlist = codes "cdn" ∷ [];
  urlparse = parse;
  urljoin = λ base t. t;
  is_ip_literal = λ host. text_eq host (codes "10.0.0.1");
  answer = λ log r. some (respond target r);
}

-- A redirect into the network is not followed.
not_followed :
    all_of
      (to_trusted (web (codes "http://10.0.0.1/")))
      (validate_trusted_external_image_url (web (codes "http://10.0.0.1/")) at_cdn []).1
    ≡ true
unfolding validate_trusted_external_image_url text_eq normalize_url lower host_is_allowed strip
    is_trusted
not_followed = refl

validate_trusted_external_image_url-Safe_example :
    (all_of (to_trusted (web at_image)) [] ≡ true
      → all_of
          (to_trusted (web at_image))
          (validate_trusted_external_image_url (web at_image) at_cdn []).1
        ≡ true)
    × (length (validate_trusted_external_image_url (web at_image) at_cdn []).1
        ≤ 8 + length {A = Request} [])
validate_trusted_external_image_url-Safe_example =
    validate_trusted_external_image_url-Safe (web at_image) at_cdn []

abbrev requests : List Request
requests = (validate_trusted_external_image_url (web at_image) at_cdn []).1
