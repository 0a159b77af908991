-- ===== src/ProxyProtocol/Tests.antt =====
-- The tests of proxy_protocol.rs, and its theorems at one header.
use ferrous_dns.Base.{ℕ, ◌≡◌, List, [], ◌∷◌, ◌++◌, arith}
use ferrous_dns.Ip.{IpAddr, to_canonical}
use ferrous_dns.ProxyProtocol.{client, read_proxy_v2_client_ip}
use ferrous_dns.ProxyProtocol.RoundTrip.{encode, read-encode}

abbrev peer : IpAddr
peer = IpAddr.v4 0x0a000001

abbrev ports : List ℕ
ports = 0x1f ∷ 0x90 ∷ 0 ∷ 53 ∷ []

read-encode_example :
    (read_proxy_v2_client_ip (encode (IpAddr.v4 0xc0a80102) ports ++ (7 ∷ 8 ∷ [])) peer
      ≡ client (IpAddr.v4 0xc0a80102) (7 ∷ 8 ∷ []))
unfolding to_canonical
read-encode_example =
    read-encode (IpAddr.v4 0xc0a80102) peer ports (7 ∷ 8 ∷ []) (omega arith) (omega arith)
