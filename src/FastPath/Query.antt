-- ===== src/FastPath/Query.antt =====
-- `parse_query` of fast_path.rs, and what is read from its result.
use ferrous_dns.Base.{
  ℕ, suc, ◌+◌, ◌-◌, Bool, true, false, not, ◌||◌, ltb, ◌==◌, if◌then◌else◌, Option, none, some,
  List, [], length, bit_and,
}
use ferrous_dns.RecordType.{RecordType}
use ferrous_dns.FastPath.Outcome.{Outcome, reject, ok, ◌>>=◌, ◌>>◌, reject_if, read_u16, slice}
use ferrous_dns.FastPath.Name.{read_name}
use ferrous_dns.FastPath.Options.{QueryOpt}
use ferrous_dns.FastPath.Additional.{additionals}

pub data FastPathKind : Type 0 where
  ip_address wire_data : FastPathKind

pub record FastPathQuery : Type 0 where
  pub id : ℕ
  pub record_type : RecordType
  pub kind : FastPathKind
  pub question_end : ℕ
  pub client_max_size : ℕ
  pub wants_dnssec : Bool
  pub recursion_desired : Bool
  pub checking_disabled : Bool
  pub opt : Option QueryOpt
  pub domain : List ℕ

unfoldable pub classify : ℕ → Outcome (RecordType × FastPathKind)
classify qtype =
    if qtype == 1
    then ok (RecordType.a, ip_address)
    else if qtype == 2
    then ok (RecordType.ns, wire_data)
    else if qtype == 5
    then ok (RecordType.cname, wire_data)
    else if qtype == 6
    then ok (RecordType.soa, wire_data)
    else if qtype == 12
    then ok (RecordType.ptr, wire_data)
    else if qtype == 15
    then ok (RecordType.mx, wire_data)
    else if qtype == 16
    then ok (RecordType.txt, wire_data)
    else if qtype == 28
    then ok (RecordType.aaaa, ip_address)
    else if qtype == 33
    then ok (RecordType.srv, wire_data)
    else if qtype == 64
    then ok (RecordType.svcb, wire_data)
    else if qtype == 65
    then ok (RecordType.https, wire_data)
    else reject

-- The part after the name: type, class and the additional section.
unfoldable pub parse_rest : List ℕ → ℕ → ℕ → ℕ → ℕ → List ℕ → Outcome FastPathQuery
parse_rest buf id flags arcount pos domain = do
  reject_if (ltb (length buf) (pos + 4))
  qtype ← read_u16 buf pos
  qclass ← read_u16 buf (pos + 2)
  reject_if (not (qclass == 1))
  (record_type, kind) ← classify qtype
  ar ←
      additionals arcount buf
        (record { ar_pos = pos + 4; client_max_size = 512; wants_dnssec = false; opt = none })
  ok (record {
    id = id;
    record_type = record_type;
    kind = kind;
    question_end = pos + 4;
    client_max_size = ar.client_max_size;
    wants_dnssec = ar.wants_dnssec;
    recursion_desired = not (bit_and flags 0x0100 == 0);
    checking_disabled = not (bit_and flags 0x0010 == 0);
    opt = ar.opt;
    domain = domain;
  })

-- Each label takes a byte at least, so one round more than the packet has bytes is enough.
unfoldable pub parse_query : List ℕ → Outcome FastPathQuery
parse_query buf = do
  reject_if (ltb (length buf) 17)
  id ← read_u16 buf 0
  flags ← read_u16 buf 2
  reject_if (not (bit_and flags 0xF800 == 0))
  qdcount ← read_u16 buf 4
  ancount ← read_u16 buf 6
  nscount ← read_u16 buf 8
  arcount ← read_u16 buf 10
  reject_if (not (qdcount == 1) || (not (ancount == 0) || not (nscount == 0)))
  (pos, domain) ← read_name (suc (length buf)) buf 12 [] true
  parse_rest buf id flags arcount pos domain

-- `FastPathQuery::question` and `question_name`.
unfoldable pub question : FastPathQuery → List ℕ → Outcome (List ℕ)
question q buf = slice buf 12 q.question_end

unfoldable pub question_name : FastPathQuery → List ℕ → Outcome (List ℕ)
question_name q buf = slice buf 12 (q.question_end - 4)

-- `edns_cookie`: `buf.get(..)` is `None` out of range.
unfoldable pub edns_cookie : FastPathQuery → List ℕ → Outcome (List ℕ)
edns_cookie q buf = elim q.opt [
  | none ↦ reject
  | some o ↦ elim o.cookie [
    | none ↦ reject
    | some (start, len) ↦ do
      reject_if (ltb (length buf) (start + len))
      slice buf start (start + len)
  ]
]
