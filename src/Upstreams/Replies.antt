-- ===== src/Upstreams/Replies.antt =====
-- What the servers of a list reply when they are asked one after the other, and what that comes to:
-- the first answer, or the error for none.
use ferrous_dns.Base.{Bool, true, false, ◌&&◌, if◌then◌else◌, List, [], ◌∷◌, ◌++◌}
use ferrous_dns.Upstreams.Errors.{
  is_servfail, all_upstreams_servfail, transport_all_servers_unreachable,
}
use ferrous_dns.Upstreams.Query.{Result, ok, err, UpstreamResult, QueryContext, World, query_server}

module _ {K : Type 0} (same : Discrete K) (w : World K) where
  -- Each server with its reply, given that all those before it were asked.
  unfoldable pub replies : QueryContext K → List K → List K → List (K × Result UpstreamResult)
  replies ctx asked [] = []
  replies ctx asked (s ∷ servers) =
      (s, query_server same w ctx asked s) ∷ replies ctx (asked ++ s ∷ []) servers

module _ {K A : Type 0} where
  -- The servers up to the first that answers.
  abbrev pub until_ok : List (K × Result A) → List K
  until_ok [] = []
  until_ok ((s, ok r) ∷ rs) = s ∷ []
  until_ok ((s, err e) ∷ rs) = s ∷ until_ok rs

  abbrev pub every_servfail : List (K × Result A) → Bool
  every_servfail [] = true
  every_servfail ((s, ok r) ∷ rs) = false
  every_servfail ((s, err e) ∷ rs) = is_servfail e && every_servfail rs

  -- The first answer; without one, the error that says whether each server answered SERVFAIL.
  abbrev pub first_ok : Bool → List (K × Result A) → Result A
  first_ok flag [] =
      err (if flag then all_upstreams_servfail else transport_all_servers_unreachable)
  first_ok flag ((s, ok r) ∷ rs) = ok r
  first_ok flag ((s, err e) ∷ rs) = first_ok (flag && is_servfail e) rs
