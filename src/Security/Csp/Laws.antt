-- ===== src/Security/Csp/Laws.antt =====
-- What the lists of sources of security/csp_enforcer.cpp allow.
use malibu.Common.{Bool, List, List-cases, arith, exists, false, inl, inr, some, true, ℕ, ◌≡◌}
use malibu.Common.Bytes.{codes, bytes_eq}
use malibu.Security.Origin.{Origin}
use malibu.Security.Csp.{CspEnforcer, Directive, effective_list, allows, source_list_allows}

abbrev pub none_source : List ℕ → Bool
none_source s = bytes_eq s (codes "'none'")

-- Under a policy whose list for the directive, or whose `default-src` where that list is empty, has
-- the keyword `'none'`, no URL is allowed, whatever other sources the list has.
pub allows-none :
    (counter : ℕ) (e : CspEnforcer) (d : Directive) (url : List ℕ)
    → e.has_policy ≡ true
    → exists none_source (effective_list e.policy d) ≡ true
    → allows counter e d url ≡ some (false, counter)
unfolding allows source_list_allows
allows-none counter e d url p h = elim (List-cases (effective_list e.policy d)) [
  | inl n ↦ absurd (ground arith)
  | inr (s, ss, n) ↦ ground arith
]
