-- ===== src/Security/Origin/Laws.antt =====
-- What two origins of security/origin.cpp have in common when they pass for one.
use malibu.Common.{arith, false, true, ◌↔◌, ◌≡◌}
use malibu.Common.Bytes.{bytes_eq_iff}
use malibu.Security.Origin.{Origin, is_opaque, same_origin}

-- Two origins are the same exactly if they are equal in scheme, host and port, and not opaque.
pub same_origin_iff : (a b : Origin) → (same_origin a b ≡ true) ↔ ((a ≡ b) × (is_opaque a ≡ false))
unfolding same_origin is_opaque
same_origin_iff a b = ground (arith, bytes_eq_iff a.scheme b.scheme, bytes_eq_iff a.host b.host)
