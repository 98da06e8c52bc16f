-- ===== src/Dom/Content/Attribute.antt =====
-- Reading an attribute of a document after `setAttribute` of dom/document.cpp.
use malibu.Common.{
  List, arith, false, if◌then◌else◌, refl, some, subst, true, ℕ, ◌==◌, ◌∙◌, ◌≡◌, ◌≢◌,
}
use malibu.Common.Bytes.{bytes_eq}
use malibu.Dom.Handle.{NodeHandle}
use malibu.Dom.NodeTable.{NodeCore}
use malibu.Dom.Attributes.{set_attr}
use malibu.Dom.Attributes.Laws.{Sorted, get_attr-set_attr}
use malibu.Dom.Document.{Document, core, update_core}
use malibu.Dom.DomTree.{DomError}
use malibu.Dom.DomTree.Cores.{core-update_core}
use malibu.Dom.Content.{set_attribute, get_attribute}

-- A `setAttribute` that reports ok changes what `getAttribute` answers at the same node: the new
-- value under the name it wrote, and the old answer under every other name. The attributes of the
-- node are sorted by name, as in a `std::map`.
pub get_attribute-set_attribute :
    (d : Document) (node : NodeHandle) (name value j : List ℕ) (d' : Document) (p : ℕ)
    (c : NodeCore)
    → core d node ≡ some (p, c)
    → Sorted c.attributes
    → set_attribute d node name value ≡ (d', DomError.ok)
    → get_attribute d' node j ≡ (if bytes_eq name j then some value else get_attribute d node j)
unfolding set_attribute get_attribute
get_attribute-set_attribute d node name value j d' p c at_node sorted e =
    let f = λ (k : NodeCore). record k { attributes = set_attr name value k.attributes } in
    let written : update_core d p f ≡ d' = ground arith in
    let after = core-update_core d p f node p c at_node in
    let at_self : (p == p) ≡ true = ground arith in
    let here : core d' node ≡ some (p, f c) =
      subst (λ x. core x node ≡ some (p, f c)) written (after ∙ rw at_self refl) in
    rw (here, at_node, get_attribute) (get_attr-set_attr j name value c.attributes sorted)

-- It answers the same at every node that is another one.
pub get_attribute-set_attribute_frame :
    (d : Document) (node other : NodeHandle) (name value j : List ℕ) (d' : Document) (p q : ℕ)
    (c k : NodeCore)
    → core d node ≡ some (p, c)
    → core d other ≡ some (q, k)
    → p ≢ q
    → set_attribute d node name value ≡ (d', DomError.ok)
    → get_attribute d' other j ≡ get_attribute d other j
unfolding set_attribute get_attribute
get_attribute-set_attribute_frame d node other name value j d' p q c k at_node at_other ne e =
    let f = λ (k : NodeCore). record k { attributes = set_attr name value k.attributes } in
    let written : update_core d p f ≡ d' = ground arith in
    let after = core-update_core d p f other q k at_other in
    let apart : (p == q) ≡ false = ground arith in
    let here : core d' other ≡ some (q, k) =
      subst (λ x. core x other ≡ some (q, k)) written (after ∙ rw apart refl) in
    rw (here, at_other, get_attribute) refl
