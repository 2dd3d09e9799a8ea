-- ===== src/Media/Trust/Safe.antt =====
-- The server requests trusted URLs only, whatever a client sends and wherever redirects lead.
use Prim.Native.Nat.{zero, suc}
use ziona_server.Base.{
  ℕ, ◌+◌, ◌*◌, ◌≤◌, ◌≡◌, ◌⊎◌, true, some, List, ◌∷◌, ◌==◌, arith, inl, inr, Bool-cases,
  Option-cases, Result-cases, length, all_of, Text, ok, err, is_empty, subst,
}
use ziona_server.Media.Urls.{normalize_url}
use ziona_server.Media.Trust.{
  Response, Request, WebEnv, MediaError, head, get, Verb, no_target, not_an_image, or_empty,
  head_external_media_url, require_trusted, is_image, follow, validate_trusted_external_image_url,
  is_trusted, to_trusted,
}

module _ (w : WebEnv) where
  -- Every request was to a trusted URL, and there were at most `n` more than before.
  abbrev pub Safe : ℕ → List Request → List Request → Type 0
  Safe n before after =
      (all_of (to_trusted w) before ≡ true → all_of (to_trusted w) after ≡ true)
      × (length after ≤ n + length before)

  asked :
      (url : Text) (log : List Request)
      → is_trusted w url ≡ true
      → Safe 2 log (head_external_media_url w url log).1
  unfolding head_external_media_url
  asked url log t = (λ h. ground arith, ground arith)

  required :
      (url : Text) (log : List Request)
      → ((e : MediaError) × (require_trusted w url log ≡ (err e, log)))
        ⊎ ((is_trusted w url ≡ true) × (require_trusted w url log ≡ (ok tt, log)))
  unfolding require_trusted is_trusted
  required url log = elim (Result-cases (require_trusted w url log)) [
    | inl (x, after, passed) ↦ inr (ground arith, ground arith)
    | inr (e, after, failed) ↦ inl (e, ground arith)
  ]

  -- A response is the answer to a request, which is the last in the log.
  answered :
      (url : Text) (log after : List Request) (a : Response)
      → head_external_media_url w url log ≡ (ok a, after)
      → (before : List Request) × (v : Verb) × (w.answer before (record { verb = v; url = url })
          ≡ some a)
        × (after ≡ record { verb = v; url = url } ∷ before)
  unfolding head_external_media_url
  answered url log after a h =
      elim (Option-cases (w.answer log (record { verb = head; url = url }))) [
        | inl failed ↦ absurd (ground arith)
        | inr (b, first) ↦ elim (Bool-cases (b.status_code == 405)) [
          | inr fine ↦ (log, head, ground arith, ground arith)
          | inl refused ↦ (record { verb = head; url = url } ∷ log, get, ground arith, ground arith)
        ]
      ]

  -- The ways in which one pass of the loop ends.
  data Passed (n : ℕ) (url : Text) (log : List Request) : Type 0 where
    refused : (e : MediaError) → follow w (suc n) url log ≡ (err e, log) → Passed n url log
    failed :
        (e : MediaError) (after : List Request)
        → is_trusted w url ≡ true
        → (head_external_media_url w url log).1 ≡ after
        → follow w (suc n) url log ≡ (err e, after)
        → Passed n url log
    accepted :
        (a : Response) (after : List Request)
        → is_trusted w url ≡ true
        → head_external_media_url w url log ≡ (ok a, after)
        → is_image w a ≡ true
        → follow w (suc n) url log ≡ (ok url, after)
        → Passed n url log
    moved :
        (target : Text) (after : List Request)
        → is_trusted w url ≡ true
        → (head_external_media_url w url log).1 ≡ after
        → follow w (suc n) url log ≡ follow w n target after
        → Passed n url log

  passed : (n : ℕ) (url : Text) (log : List Request) → Passed n url log
  unfolding follow
  passed n url log = elim (required url log) [
    | inl (e, untrusted) ↦ refused e (ground arith)
    | inr (t, may) ↦ elim (Result-cases (head_external_media_url w url log)) [
      | inr (e, after, lost) ↦ failed e after t (ground arith) (ground arith)
      | inl (a, after, got) ↦ elim (Bool-cases a.is_redirect) [
        | inl redirect ↦ elim (Bool-cases (is_empty (or_empty a.location))) [
          | inl nowhere ↦ failed no_target after t (ground arith) (ground arith)
          | inr somewhere ↦
              moved (normalize_url (w.urljoin url (or_empty a.location))) after t (ground arith)
                (ground arith)
        ]
        | inr final ↦ elim (Bool-cases (is_image w a)) [
          | inl image ↦ accepted a after t got image (ground arith)
          | inr other ↦ failed not_an_image after t (ground arith) (ground arith)
        ]
      ]
    ]
  ]

  follow_safe : (n : ℕ) (url : Text) (log : List Request) → Safe (2 * n) log (follow w n url log).1
  unfolding follow
  follow_safe zero url log = (λ h. ground arith, ground arith)
  follow_safe (suc n) url log = elim (passed n url log) [
    | refused e same ↦ (λ h. ground arith, ground arith)
    | failed e after t sent same ↦
        let (safe, few) = asked url log t in (λ h. ground (arith, safe), ground arith)
    | accepted a after t sent image same ↦
        let (safe, few) = asked url log t in (λ h. ground (arith, safe), ground arith)
    | moved target after t sent same ↦
        let (safe, few) = asked url log t in
        let (safe', few') = follow_safe n target after in
        (λ h. ground (arith, safe, safe'), ground arith)
  ]

  -- An accepted URL, with the answer that it was accepted for.
  abbrev pub Accepted : Text → List Request → Type 0
  Accepted url after =
      (is_trusted w url ≡ true)
      × ((before : List Request) × (v : Verb) × (a : Response) × (w.answer before
              (record { verb = v; url = url })
            ≡ some a)
          × (is_image w a ≡ true)
          × (after ≡ record { verb = v; url = url } ∷ before))

  Accepted-transport :
      {url u : Text} {rest after : List Request}
      → url ≡ u
      → rest ≡ after
      → Accepted url rest
      → Accepted u after
  Accepted-transport {url} {u} {rest} same last a =
      subst (Accepted u) last (subst (λ x. Accepted x rest) same a)

  follow_sound :
      (n : ℕ) (url u : Text) (log after : List Request)
      → follow w n url log ≡ (ok u, after)
      → Accepted u after
  unfolding follow
  follow_sound zero url u log after h = absurd (ground arith)
  follow_sound (suc n) url u log after h = elim (passed n url log) [
    | refused e same ↦ absurd (ground arith)
    | failed e rest t sent same ↦ absurd (ground arith)
    | moved target rest t sent same ↦ follow_sound n target u rest after (ground arith)
    | accepted a rest t sent image same ↦
        let (before, v, asked, last) = answered url log rest a sent in
        Accepted-transport (ground arith) (ground arith) (t, (before, v, a, asked, image, last))
  ]

  -- Whatever URL is validated and whatever the network answers, every request goes to a trusted URL,
  -- redirects included, and at most eight are made.
  pub validate_trusted_external_image_url-Safe :
      (url : Text) (log : List Request)
      → (all_of (to_trusted w) log ≡ true
          → all_of (to_trusted w) (validate_trusted_external_image_url w url log).1 ≡ true)
        × (length (validate_trusted_external_image_url w url log).1 ≤ 8 + length log)
  unfolding validate_trusted_external_image_url
  validate_trusted_external_image_url-Safe url log = follow_safe 4 (normalize_url url) log

  -- A URL that is accepted is trusted, and the last request, which was to it, was answered as an
  -- image.
  pub validate_trusted_external_image_url_sound :
      (url u : Text) (log after : List Request)
      → validate_trusted_external_image_url w url log ≡ (ok u, after)
      → Accepted u after
  unfolding validate_trusted_external_image_url
  validate_trusted_external_image_url_sound url u log after h =
      follow_sound 4 (normalize_url url) u log after h
