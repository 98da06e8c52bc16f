-- ===== src/Tests/Policies.antt =====
-- Runs of the origins and the content security policy.
use malibu.Common.{List, [], exists, false, refl, some, true, ℕ, ◌∷◌, ◌≡◌}
use malibu.Common.Bytes.{codes, bytes_eq}
use malibu.Security.Text.{stol}
use malibu.Security.Origin.{Origin, is_opaque, parse, serialize}
use malibu.Security.Csp.{CspEnforcer, Directive, set_policy, set_directive, effective_list, allows}
use malibu.Security.Csp.Laws.{allows-none, none_source}

abbrev site : Origin
site = record { scheme = codes "https"; host = codes "a.b"; port = 443 }

abbrev url : List ℕ
url = codes "HTTPS://u@A.b:443/x"

parses : parse 0 url ≡ some (site, 0)
unfolding parse stol bytes_eq
parses = refl

serializes : serialize site ≡ codes "https://a.b"
unfolding serialize is_opaque bytes_eq
serializes = refl

abbrev bare : CspEnforcer
bare = record {
  policy = record {
    default_src = [];
    script_src = [];
    style_src = [];
    img_src = [];
    connect_src = [];
    font_src = [];
    frame_src = [];
    media_src = [];
    object_src = [];
    child_src = [];
    worker_src = [];
    manifest_src = [];
    prefetch_src = [];
    form_action = [];
    frame_ancestors = [];
    navigate_to = [];
    report_uri = [];
    report_to = [];
  };
  document_origin = site;
  has_policy = false;
  violations = [];
}

abbrev strict : CspEnforcer
strict = record bare {
  has_policy = true;
  policy = record bare.policy { default_src = codes "'none'" ∷ [] };
}

sets_policy : set_policy bare (codes "Default-Src 'none'") ≡ strict
unfolding set_policy set_directive bytes_eq
sets_policy = refl

abbrev wild : List ℕ
wild = codes "*.b"

no_none : exists none_source (codes "*" ∷ []) ≡ false
unfolding bytes_eq
no_none = refl

has_none : exists none_source (effective_list strict.policy Directive.img_src) ≡ true
unfolding bytes_eq
has_none = refl

allows-none_example : allows 0 strict Directive.img_src url ≡ some (false, 0)
allows-none_example = allows-none 0 strict Directive.img_src url refl has_none
