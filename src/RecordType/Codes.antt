-- ===== src/RecordType/Codes.antt =====
-- The codes and names of record_type.rs determine the type, and the other way round.
use ferrous_dns.Base.{
  ℕ, ◌≡◌, refl, ◌∙◌, ◌↔◌, ◌==◌, some, List, [], ◌∷◌, map, arith, Bool-cases, inl, inr,
}
use ferrous_dns.Base.Ascii.{to_ascii_lowercase, eq_ignore_ascii_case}
use ferrous_dns.RecordType.{
  RecordType, as_str, to_u16, variants, first_code, from_u16, first_name, from_str,
}

first_code_sound :
    (c : ℕ) (t : RecordType) (ts : List RecordType) → first_code c ts ≡ some t → to_u16 t ≡ c
unfolding first_code
first_code_sound c t [] e = cc
first_code_sound c t (u ∷ ts) e = elim (Bool-cases (to_u16 u == c)) [
  | inl hit ↦ ground (arith, e, hit)
  | inr miss ↦ first_code_sound c t ts (rw miss at e)
]

from_u16-to_u16 : (t : RecordType) → from_u16 (to_u16 t) ≡ some t
unfolding from_u16 to_u16
from_u16-to_u16 RecordType.a = refl
from_u16-to_u16 RecordType.ns = refl
from_u16-to_u16 RecordType.cname = refl
from_u16-to_u16 RecordType.soa = refl
from_u16-to_u16 RecordType.null = refl
from_u16-to_u16 RecordType.wks = refl
from_u16-to_u16 RecordType.ptr = refl
from_u16-to_u16 RecordType.hinfo = refl
from_u16-to_u16 RecordType.mx = refl
from_u16-to_u16 RecordType.txt = refl
from_u16-to_u16 RecordType.aaaa = refl
from_u16-to_u16 RecordType.srv = refl
from_u16-to_u16 RecordType.naptr = refl
from_u16-to_u16 RecordType.dname = refl
from_u16-to_u16 RecordType.opt = refl
from_u16-to_u16 RecordType.ds = refl
from_u16-to_u16 RecordType.sshfp = refl
from_u16-to_u16 RecordType.ipseckey = refl
from_u16-to_u16 RecordType.rrsig = refl
from_u16-to_u16 RecordType.nsec = refl
from_u16-to_u16 RecordType.dnskey = refl
from_u16-to_u16 RecordType.nsec3 = refl
from_u16-to_u16 RecordType.nsec3param = refl
from_u16-to_u16 RecordType.tlsa = refl
from_u16-to_u16 RecordType.cds = refl
from_u16-to_u16 RecordType.cdnskey = refl
from_u16-to_u16 RecordType.openpgpkey = refl
from_u16-to_u16 RecordType.zonemd = refl
from_u16-to_u16 RecordType.svcb = refl
from_u16-to_u16 RecordType.https = refl
from_u16-to_u16 RecordType.caa = refl
from_u16-to_u16 RecordType.aname = refl

-- A code stands for a type exactly when it is the code of that type.
pub from_u16_iff : (c : ℕ) (t : RecordType) → (from_u16 c ≡ some t) ↔ (to_u16 t ≡ c)
unfolding from_u16
from_u16_iff c t = (first_code_sound c t variants, λ e. rw e at (from_u16-to_u16 t))

from_str-as_str : (t : RecordType) → from_str (as_str t) ≡ some t
unfolding from_str as_str eq_ignore_ascii_case
from_str-as_str RecordType.a = refl
from_str-as_str RecordType.ns = refl
from_str-as_str RecordType.cname = refl
from_str-as_str RecordType.soa = refl
from_str-as_str RecordType.null = refl
from_str-as_str RecordType.wks = refl
from_str-as_str RecordType.ptr = refl
from_str-as_str RecordType.hinfo = refl
from_str-as_str RecordType.mx = refl
from_str-as_str RecordType.txt = refl
from_str-as_str RecordType.aaaa = refl
from_str-as_str RecordType.srv = refl
from_str-as_str RecordType.naptr = refl
from_str-as_str RecordType.dname = refl
from_str-as_str RecordType.opt = refl
from_str-as_str RecordType.ds = refl
from_str-as_str RecordType.sshfp = refl
from_str-as_str RecordType.ipseckey = refl
from_str-as_str RecordType.rrsig = refl
from_str-as_str RecordType.nsec = refl
from_str-as_str RecordType.dnskey = refl
from_str-as_str RecordType.nsec3 = refl
from_str-as_str RecordType.nsec3param = refl
from_str-as_str RecordType.tlsa = refl
from_str-as_str RecordType.cds = refl
from_str-as_str RecordType.cdnskey = refl
from_str-as_str RecordType.openpgpkey = refl
from_str-as_str RecordType.zonemd = refl
from_str-as_str RecordType.svcb = refl
from_str-as_str RecordType.https = refl
from_str-as_str RecordType.caa = refl
from_str-as_str RecordType.aname = refl

lowercase_twice : (c : ℕ) → to_ascii_lowercase (to_ascii_lowercase c) ≡ to_ascii_lowercase c
unfolding to_ascii_lowercase
lowercase_twice c = ground arith

map_lowercase_twice :
    (s : List ℕ) → map to_ascii_lowercase (map to_ascii_lowercase s) ≡ map to_ascii_lowercase s
map_lowercase_twice [] = refl
map_lowercase_twice (c ∷ s) = rw (lowercase_twice c) (rw (map_lowercase_twice s) refl)

first_name_cases :
    (s t : List ℕ) (ts : List RecordType)
    → map to_ascii_lowercase s ≡ map to_ascii_lowercase t
    → first_name s ts ≡ first_name t ts
unfolding first_name eq_ignore_ascii_case
first_name_cases s t [] e = refl
first_name_cases s t (u ∷ ts) e = rw e (rw (first_name_cases s t ts e) refl)

-- A text that spells the name of a type, in whatever case, reads as that type.
pub from_str-as_str_cases :
    (s : List ℕ) (t : RecordType)
    → map to_ascii_lowercase s ≡ map to_ascii_lowercase (as_str t)
    → from_str s ≡ some t
unfolding from_str
from_str-as_str_cases s t e = first_name_cases s (as_str t) variants e ∙ from_str-as_str t
