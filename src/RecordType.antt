-- ===== src/RecordType.antt =====
-- The record types and their codes, crates/domain/src/dns_record/record_type.rs. The macro's list
-- of variants, names and codes is a table, and each `match` that it expands to is its first fit.
pub mod Codes
mod Tests
use ferrous_dns.Base.Ascii.{codes, eq_ignore_ascii_case}
use ferrous_dns.Base.{
  ℕ, ◌+◌, Bool, true, false, ◌&&◌, leb, ◌==◌, if◌then◌else◌, Option, none, some, List, [], ◌∷◌, map,
}

pub data RecordType : Type 0 where
  a aaaa cname mx txt ptr srv soa ns naptr ds dnskey svcb https caa tlsa sshfp dname rrsig nsec
        nsec3 nsec3param cds cdnskey opt null hinfo wks ipseckey openpgpkey zonemd aname :
      RecordType

unfoldable pub as_str : RecordType → List ℕ
as_str a = codes "A"
as_str ns = codes "NS"
as_str cname = codes "CNAME"
as_str soa = codes "SOA"
as_str null = codes "NULL"
as_str wks = codes "WKS"
as_str ptr = codes "PTR"
as_str hinfo = codes "HINFO"
as_str mx = codes "MX"
as_str txt = codes "TXT"
as_str aaaa = codes "AAAA"
as_str srv = codes "SRV"
as_str naptr = codes "NAPTR"
as_str dname = codes "DNAME"
as_str opt = codes "OPT"
as_str ds = codes "DS"
as_str sshfp = codes "SSHFP"
as_str ipseckey = codes "IPSECKEY"
as_str rrsig = codes "RRSIG"
as_str nsec = codes "NSEC"
as_str dnskey = codes "DNSKEY"
as_str nsec3 = codes "NSEC3"
as_str nsec3param = codes "NSEC3PARAM"
as_str tlsa = codes "TLSA"
as_str cds = codes "CDS"
as_str cdnskey = codes "CDNSKEY"
as_str openpgpkey = codes "OPENPGPKEY"
as_str zonemd = codes "ZONEMD"
as_str svcb = codes "SVCB"
as_str https = codes "HTTPS"
as_str caa = codes "CAA"
as_str aname = codes "ANAME"

unfoldable pub to_u16 : RecordType → ℕ
to_u16 a = 1
to_u16 ns = 2
to_u16 cname = 5
to_u16 soa = 6
to_u16 null = 10
to_u16 wks = 11
to_u16 ptr = 12
to_u16 hinfo = 13
to_u16 mx = 15
to_u16 txt = 16
to_u16 aaaa = 28
to_u16 srv = 33
to_u16 naptr = 35
to_u16 dname = 39
to_u16 opt = 41
to_u16 ds = 43
to_u16 sshfp = 44
to_u16 ipseckey = 45
to_u16 rrsig = 46
to_u16 nsec = 47
to_u16 dnskey = 48
to_u16 nsec3 = 50
to_u16 nsec3param = 51
to_u16 tlsa = 52
to_u16 cds = 59
to_u16 cdnskey = 60
to_u16 openpgpkey = 61
to_u16 zonemd = 63
to_u16 svcb = 64
to_u16 https = 65
to_u16 caa = 257
to_u16 aname = 65305

-- The variants in the order of the macro's list.
abbrev pub variants : List RecordType
variants =
    a ∷ ns ∷ cname ∷ soa ∷ null ∷ wks ∷ ptr ∷ hinfo ∷ mx ∷ txt ∷ aaaa ∷ srv ∷ naptr ∷ dname ∷ opt
    ∷ ds ∷ sshfp ∷ ipseckey ∷ rrsig ∷ nsec ∷ dnskey ∷ nsec3 ∷ nsec3param ∷ tlsa ∷ cds ∷ cdnskey
    ∷ openpgpkey ∷ zonemd ∷ svcb ∷ https ∷ caa ∷ aname ∷ []

unfoldable pub first_code : ℕ → List RecordType → Option RecordType
first_code c [] = none
first_code c (t ∷ ts) = if to_u16 t == c then some t else first_code c ts

unfoldable pub from_u16 : ℕ → Option RecordType
unfolding first_code
from_u16 c = first_code c variants

unfoldable pub first_name : List ℕ → List RecordType → Option RecordType
first_name s [] = none
first_name s (t ∷ ts) = if eq_ignore_ascii_case s (as_str t) then some t else first_name s ts

-- `FromStr`, with `none` for the error `unknown record type`.
unfoldable pub from_str : List ℕ → Option RecordType
unfolding first_name
from_str s = first_name s variants
