-- ===== src/Upstreams/Errors.antt =====
-- The errors of crates/domain/src/errors/domain_error.rs that the load balancer tells apart, and
-- the response codes of crates/infrastructure/src/dns/forwarding/response_parser.rs. The variants
-- of `DomainError` that no code of the load balancer names are `other`, by their place in the enum;
-- the codes that the parser does not name are `other_code`.
use ferrous_dns.Base.{ℕ, Bool, true, false, List}
use ferrous_dns.Base.Ascii.{codes, same_text}

pub data ResponseCode : Type 0 where
  no_error nx_domain serv_fail refused not_imp form_err other_code : ResponseCode

pub record DnsResponse : Type 0 where
  pub rcode : ResponseCode
  pub raw_bytes : List ℕ

abbrev pub is_answer : DnsResponse → Bool
is_answer r = elim r.rcode [ no_error ↦ true | nx_domain ↦ true | _ ↦ false ]

abbrev pub rcode_to_status : ResponseCode → List ℕ
rcode_to_status no_error = codes "NOERROR"
rcode_to_status nx_domain = codes "NXDOMAIN"
rcode_to_status serv_fail = codes "SERVFAIL"
rcode_to_status refused = codes "REFUSED"
rcode_to_status not_imp = codes "NOTIMP"
rcode_to_status form_err = codes "FORMERR"
rcode_to_status other_code = codes "UNKNOWN"

pub data DomainError : Type 0 where
  invalid_dns_response io_error config_error : List ℕ → DomainError
  transport_timeout transport_connection_refused transport_connection_reset : List ℕ → DomainError
  transport_no_healthy_servers transport_all_servers_unreachable : DomainError
  all_upstreams_servfail : DomainError
  spoofed_response upstream_server_failure : List ℕ → List ℕ → DomainError
  other : ℕ → DomainError

unfoldable pub is_servfail : DomainError → Bool
unfolding same_text
is_servfail (upstream_server_failure server rcode) = same_text rcode (codes "SERVFAIL")
is_servfail all_upstreams_servfail = true
is_servfail _ = false

abbrev pub all_servers_failed : Bool → DomainError
all_servers_failed true = all_upstreams_servfail
all_servers_failed false = transport_all_servers_unreachable

-- `ResponseParser::is_transport_error`.
abbrev pub is_transport_error : DomainError → Bool
is_transport_error (transport_timeout _) = true
is_transport_error (transport_connection_refused _) = true
is_transport_error (transport_connection_reset _) = true
is_transport_error transport_no_healthy_servers = true
is_transport_error transport_all_servers_unreachable = true
is_transport_error (spoofed_response _ _) = true
is_transport_error (io_error _) = true
is_transport_error _ = false
