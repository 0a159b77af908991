-- ===== src/Upstreams/Query.antt =====
-- `query_server` of crates/infrastructure/src/dns/load_balancer/query.rs, and the types of strategy.rs
-- beside it.
use ferrous_dns.Base.{ℕ, Bool, false, if◌then◌else◌, none, some, List, ◌++◌}
use ferrous_dns.Base.Ascii.{codes}
use ferrous_dns.Base.Dict
use ferrous_dns.Upstreams.Errors.{
  DomainError, upstream_server_failure, DnsResponse, is_answer, rcode_to_status,
}

pub data Result (A : Type 0) : Type 0 where
  ok : A → Result A
  err : DomainError → Result A

pub record UpstreamResult : Type 0 where
  pub response : DnsResponse
  pub latency_ms : ℕ
  pub pool_name : List ℕ
  pub server_display : List ℕ
  pub internal : Bool

pub record QueryContext (K : Type 0) : Type 0 where
  pub servers : List K
  pub pool_name : List ℕ
  pub server_displays : List (K × List ℕ)

-- What the transport did with one attempt: `exchange_with_tc_retry` gave an error, or a response,
-- whether over the TCP retry, and the milliseconds passed.
pub data Exchange : Type 0 where
  failed : DomainError → Exchange
  replied : DnsResponse → Bool → ℕ → Exchange

-- The transport, given the servers asked before for the same query: what an attempt gives, and,
-- when servers are asked at once, those that settle before the timeout with what each gives, in the
-- order they settle. `to_string` and `decimal` are the formats of a server and of a number.
pub record World (K : Type 0) : Type 0 where
  pub exchange : List K → K → Exchange
  pub settled : List K → List K → List (K × Exchange)
  pub to_string : K → List ℕ
  pub decimal : ℕ → List ℕ

-- The servers asked for a query, in order, and what it returned.
abbrev pub Asked : Type 0 → Type 0 → Type 0
Asked K A = List K × Result A

module _ {K : Type 0} (same : Discrete K) (w : World K) where
  unfoldable pub get_display : K → List (K × List ℕ) → List ℕ
  get_display protocol cache = elim (Dict.get same protocol cache) [
    | none ↦ w.to_string protocol
    | some display ↦ display
  ]

  -- `query_server` with what the transport gives.
  unfoldable pub attempt : QueryContext K → K → Exchange → Result UpstreamResult
  attempt ctx protocol exchange = elim exchange [
    | failed e ↦ err e
    | replied response tcp_retry latency ↦
        let display = get_display protocol ctx.server_displays in
        if is_answer response
        then ok (record {
          response = response;
          latency_ms = latency;
          pool_name = ctx.pool_name;
          server_display = if tcp_retry then display ++ codes " (tcp retry)" else display;
          internal = false;
        })
        else err (upstream_server_failure display (rcode_to_status response.rcode))
  ]

  abbrev pub query_server : QueryContext K → List K → K → Result UpstreamResult
  query_server ctx asked protocol = attempt ctx protocol (w.exchange asked protocol)
