-- ===== src/RecordType/Tests.antt =====
-- The theorems on record_type.rs at concrete inputs.
use ferrous_dns.Base.{◌≡◌, refl, none}
use ferrous_dns.RecordType.{to_u16, from_u16}

unknown_code : from_u16 3 ≡ none
unfolding from_u16 to_u16
unknown_code = refl
