-- ===== src/FastPath/Additional.antt =====
-- The additional section in `parse_query` of fast_path.rs.
use ferrous_dns.Base.{
  ℕ, zero, suc, ◌+◌, max, Bool, true, false, not, leb, ltb, ◌==◌, if◌then◌else◌, Option, some,
  is_some, List, length, bit_and,
}
use ferrous_dns.FastPath.Outcome.{Outcome, ok, ◌>>=◌, ◌>>◌, reject_if, index, read_u16}
use ferrous_dns.FastPath.Options.{QueryOpt, parse_opt_options}

pub record Additional : Type 0 where
  pub ar_pos : ℕ
  pub client_max_size : ℕ
  pub wants_dnssec : Bool
  pub opt : Option QueryOpt

abbrev pub is_valid_edns_version : ℕ → Bool
is_valid_edns_version version_byte = version_byte == 0

unfoldable pub opt_record : List ℕ → ℕ → Additional → Outcome Additional
opt_record buf pos s = do
  reject_if (is_some s.opt)
  udp_size ← read_u16 buf pos
  reject_if (ltb (length buf) (pos + 2 + 4))
  version ← index buf (pos + 2 + 1)
  reject_if (not (is_valid_edns_version version))
  do_flags ← read_u16 buf (pos + 2 + 2)
  reject_if (ltb (length buf) (pos + 6 + 2))
  rdlen ← read_u16 buf (pos + 6)
  opt ← parse_opt_options buf (pos + 6 + 2) rdlen
  ok (record {
    ar_pos = pos + 6 + 2 + rdlen;
    client_max_size = max udp_size 512;
    wants_dnssec = not (bit_and do_flags 0x8000 == 0);
    opt = some opt;
  })

unfoldable pub other_record : List ℕ → ℕ → Additional → Outcome Additional
other_record buf pos s = do
  reject_if (ltb (length buf) (pos + 6 + 2))
  rdlen ← read_u16 buf (pos + 6)
  ok (record s { ar_pos = pos + 6 + 2 + rdlen })

unfoldable pub additional_record : List ℕ → Additional → Outcome Additional
additional_record buf s = do
  root ← index buf s.ar_pos
  reject_if (not (root == 0))
  reject_if (ltb (length buf) (s.ar_pos + 1 + 9))
  rr_type ← read_u16 buf (s.ar_pos + 1)
  if rr_type == 41 then opt_record buf (s.ar_pos + 3) s else other_record buf (s.ar_pos + 3) s

-- The loop of `arcount` rounds; it breaks at the end of the packet.
unfoldable pub additionals : ℕ → List ℕ → Additional → Outcome Additional
additionals zero buf s = ok s
additionals (suc n) buf s = elim (leb (length buf) s.ar_pos) [
  | true ↦ ok s
  | false ↦ do s' ← additional_record buf s; additionals n buf s'
]
