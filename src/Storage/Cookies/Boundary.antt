-- ===== src/Storage/Cookies/Boundary.antt =====
-- What a document can do to the cookies: only to its own domains, and Secure only over https.
use malibu.Common.{
  All, All-imp, Bool, Bool-cases, List, Option, Option-cases, [], arith, exists, false, get_elem?,
  if◌then◌else◌, inl, inr, keep, none, not, refl, some, suc, true, ℕ, ◌&&◌, ◌∷◌, ◌≡◌, ◌⊎◌,
}
use malibu.Common.Bytes.{bytes_eq, bytes_eq_iff, codes}
use malibu.Security.Text.{lower}
use malibu.Storage.Cookies.{Cookie, Cookies, same_cookie, set_cookie, completed, replace_cookie}
use malibu.Storage.Cookies.Urls.{
  UrlParts, parse_url, domain_matches, split_first, before_or, behind_or, trim,
}
use malibu.Storage.Cookies.Document.{
  Draft, set_field, read_attribute, read_attributes, segments, first_draft, named_draft,
  parse_attributes, parse_assignment, set_cookie_from_document, with_age, with_domain, skip_dots,
  whole_number,
}

-- A cookie that a document may set: for a domain of its host, Secure only from https, never HttpOnly.
pub record IsAllowed (source : UrlParts) (c : Cookie) : Type 0 where
  pub own_domain : domain_matches source.host c.domain ≡ true
  pub secure_source : c.secure ≡ true → bytes_eq source.scheme (codes "https") ≡ true
  pub scriptable : c.http_only ≡ false

IsAllowed-with_age :
    (now : ℕ) (source : UrlParts) (d : Draft) (age : Option ℕ)
    → IsAllowed source d.cookie
    → IsAllowed source (with_age now d age).cookie
IsAllowed-with_age now source d none h = h
IsAllowed-with_age now source d (some n) h = ground arith

IsAllowed-with_domain :
    (source : UrlParts) (d e : Draft) (domain : List ℕ)
    → with_domain source d domain ≡ some e
    → IsAllowed source d.cookie
    → IsAllowed source e.cookie
IsAllowed-with_domain source d e domain h a = ground arith

IsAllowed-set_field :
    (now : ℕ) (source : UrlParts) (key value : List ℕ) (d e : Draft)
    → set_field now source key value d ≡ some e
    → IsAllowed source d.cookie
    → IsAllowed source e.cookie
unfolding set_field
IsAllowed-set_field now source key value d e h a = ground (
  arith,
  IsAllowed-with_age now source d (whole_number value) a,
  IsAllowed-with_domain source d e (skip_dots (lower value)),
)

IsAllowed-read_attributes :
    (now : ℕ) (source : UrlParts) (as_ : List (List ℕ)) (d e : Draft)
    → read_attributes now source as_ d ≡ some e
    → IsAllowed source d.cookie
    → IsAllowed source e.cookie
unfolding read_attributes
IsAllowed-read_attributes now source [] d e h a = ground arith
IsAllowed-read_attributes now source (s ∷ as_) d e h a =
    elim (Option-cases (read_attribute now source s d)) [
      | inl k ↦ absurd (ground arith)
      | inr (m, k) ↦
          let step : IsAllowed source m.cookie =
            IsAllowed-set_field now source
              (lower (trim (before_or (trim s) (split_first 61 (trim s)))))
              (trim (behind_or [] (split_first 61 (trim s)))) d m k a in
          let rest : read_attributes now source as_ m ≡ some e = rw (k, read_attributes) at h in
          IsAllowed-read_attributes now source as_ m e rest step
    ]

matches_self : (host : List ℕ) → domain_matches host host ≡ true
unfolding domain_matches
matches_self host = ground (arith, bytes_eq_iff host host)

IsAllowed-parse_assignment :
    (now : ℕ) (source : UrlParts) (assignment : List ℕ) (d : Draft)
    → parse_assignment now source assignment ≡ some d
    → IsAllowed source d.cookie
unfolding parse_assignment
IsAllowed-parse_assignment now source assignment d h =
    let pair = trim (before_or assignment (split_first 59 assignment)) in
    let parsed : parse_attributes now source (behind_or [] (split_first 59 assignment))
          (named_draft source (split_first 61 pair))
        ≡ some d =
      ground arith in
    from_draft (behind_or [] (split_first 59 assignment)) (split_first 61 pair) parsed
  where
    from_draft :
        (rest : List ℕ) (p : Option (List ℕ × List ℕ))
        → parse_attributes now source rest (named_draft source p) ≡ some d
        → IsAllowed source d.cookie
    from_draft rest none h = absurd (ground arith)
    from_draft rest (some p) h =
        IsAllowed-read_attributes now source (segments rest) (first_draft source p) d (ground arith)
          (record {
            own_domain = matches_self source.host;
            secure_source = λ e. absurd (ground arith);
            scriptable = refl;
          })

-- Every cookie of a list is one of an older list, or one that a document may set.
abbrev pub StandsIn : Cookies → Cookie → Type 0
StandsIn cookies c = (i : ℕ) × (get_elem? cookies i ≡ some c)

abbrev pub AreAllowed : UrlParts → Cookies → Cookies → Type 0
AreAllowed source old new = All (λ (c : Cookie). StandsIn old c ⊎ IsAllowed source c) new

later :
    (source : UrlParts) (o : Cookie) (old new : Cookies)
    → AreAllowed source old new
    → AreAllowed source (o ∷ old) new
later source o old new h =
    All-imp (λ (c : Cookie). StandsIn old c ⊎ IsAllowed source c)
      (λ (c : Cookie). StandsIn (o ∷ old) c ⊎ IsAllowed source c)
      (λ c k. elim k [ inl (i, e) ↦ inl (suc i, e) | inr a ↦ inr a ]) new h

all_old : (source : UrlParts) (old : Cookies) → AreAllowed source old old
all_old source [] = tt
all_old source (c ∷ old) = (inl (0, refl), later source c old old (all_old source old))

kept_old :
    (source : UrlParts) (f : Cookie → Bool) (old : Cookies) → AreAllowed source old (keep f old)
kept_old source f [] = tt
kept_old source f (c ∷ old) =
    let rest = later source c old (keep f old) (kept_old source f old) in
    elim (Bool-cases (f c)) [ inl e ↦ rw e (inl (0, refl), rest) | inr e ↦ rw e rest ]

replaced_old :
    (source : UrlParts) (new : Cookie) (old : Cookies)
    → IsAllowed source new
    → AreAllowed source old (replace_cookie new old)
replaced_old source new [] a = (inr a, tt)
replaced_old source new (c ∷ old) a = elim (Bool-cases (same_cookie c new)) [
  | inl e ↦ rw e (inr a, later source c old old (all_old source old))
  | inr e ↦
      rw e
        (inl (0, refl), later source c old (replace_cookie new old) (replaced_old source new old a))
]

IsAllowed-completed :
    (source : UrlParts) (c : Cookie) → IsAllowed source c → IsAllowed source (completed source c)
IsAllowed-completed source c a = ground (arith, matches_self source.host)

-- After any assignment to `document.cookie`, every cookie in the store was there before, or it is for
-- a domain that the document's host matches, is Secure only if the document came over https, and is
-- not HttpOnly.
pub set_cookie_from_document-AreAllowed :
    (now : ℕ) (url assignment : List ℕ) (cookies : Cookies)
    → AreAllowed (parse_url url) cookies (set_cookie_from_document now url assignment cookies).0
unfolding set_cookie_from_document set_cookie
set_cookie_from_document-AreAllowed now url assignment cookies =
    elim (Option-cases (parse_assignment now (parse_url url) assignment)) [
      | inl e ↦ rw (e, set_cookie_from_document) (all_old (parse_url url) cookies)
      | inr (d, e) ↦
          rw (e, set_cookie_from_document)
            (elim (Bool-cases d.delete_now) [
              | inl f ↦
                  rw f (
                    kept_old (parse_url url) (λ (c : Cookie). not (same_cookie c d.cookie)) cookies)
              | inr f ↦ rw f (
                  replaced_old (parse_url url) (completed (parse_url url) d.cookie) cookies (
                    IsAllowed-completed (parse_url url) d.cookie
                      (IsAllowed-parse_assignment now (parse_url url) assignment d e)))
            ])
    ]

-- The key and the value of an attribute, and the attributes that a document must not set.
abbrev pub attribute_key : List ℕ → List ℕ
attribute_key s = lower (trim (before_or (trim s) (split_first 61 (trim s))))

abbrev pub attribute_value : List ℕ → List ℕ
attribute_value s = trim (behind_or [] (split_first 61 (trim s)))

unfoldable pub violates : UrlParts → List ℕ → Bool
unfolding bytes_eq domain_matches
violates source s =
    if bytes_eq (attribute_key s) (codes "secure")
    then not (bytes_eq source.scheme (codes "https"))
    else bytes_eq (attribute_key s) (codes "domain")
      && not (domain_matches source.host (skip_dots (lower (attribute_value s))))

stops :
    (now : ℕ) (source : UrlParts) (s : List ℕ) (d : Draft)
    → violates source s ≡ true
    → read_attribute now source s d ≡ none
unfolding violates set_field
stops now source s d h = ground (
  arith,
  bytes_eq_iff (attribute_key s) (codes "secure"),
  bytes_eq_iff (attribute_key s) (codes "domain"),
)

read_attributes-violates :
    (now : ℕ) (source : UrlParts) (as_ : List (List ℕ)) (d : Draft)
    → exists (violates source) as_ ≡ true
    → read_attributes now source as_ d ≡ none
unfolding read_attributes
read_attributes-violates now source [] d h = absurd (ground arith)
read_attributes-violates now source (s ∷ as_) d h =
    elim (Option-cases (read_attribute now source s d)) [
      | inl k ↦ rw (k, read_attributes) refl
      | inr (m, k) ↦
          let fine : violates source s ≡ false = ground (arith, stops now source s d) in
          rw (k, read_attributes) (read_attributes-violates now source as_ m (ground arith))
    ]

-- An assignment that has a Secure attribute where the document did not come over https, or a domain
-- that the document's host does not match, is refused whatever else it says, and changes no cookie.
pub set_cookie_from_document-refused :
    (now : ℕ) (url assignment : List ℕ) (cookies : Cookies)
    → exists (violates (parse_url url)) (segments (behind_or [] (split_first 59 assignment))) ≡ true
    → set_cookie_from_document now url assignment cookies ≡ (cookies, false)
unfolding set_cookie_from_document parse_assignment
set_cookie_from_document-refused now url assignment cookies h =
    let none_left =
      refused_draft (split_first 61 (trim (before_or assignment (split_first 59 assignment)))) in
    ground arith
  where
    refused_draft :
        (p : Option (List ℕ × List ℕ))
        → parse_attributes now
            (parse_url url)
            (behind_or [] (split_first 59 assignment))
            (named_draft (parse_url url) p)
          ≡ none
    refused_draft none = refl
    refused_draft (some p) =
        let e =
          read_attributes-violates now (parse_url url)
            (segments (behind_or [] (split_first 59 assignment))) (first_draft (parse_url url) p)
            h in
        ground arith
