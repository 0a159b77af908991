-- ===== src/NegativeCache/Entry.antt =====
-- The packed entry of negative_cache.rs: the expiry and the source share one word.
use ferrous_dns.Base.{
  ℕ, ◌+◌, ◌-◌, ◌^◌, ◌≤◌, ◌<◌, ◌≡◌, ◌∙◌, bit_and, Bool, true, false, if◌then◌else◌, some, arith,
}
use ferrous_dns.Base.Bits.{bit_and-ones, bit_and-pow, bit_or-pow, bit_or-zero}
use ferrous_dns.NegativeCache.{
  entry, expires_at_secs, is_local_dns, local_dns_bit, negative_ttl, min_negative_ttl,
  max_negative_ttl,
}

word :
    (e : ℕ) (local_dns : Bool)
    → e < 2 ^ 63
    → (entry e local_dns).expiry_and_source ≡ e + (if local_dns then local_dns_bit else 0)
unfolding entry
word e false h = bit_or-zero _ ∙ bit_and-ones 63 e ∙ omega arith
word e true h =
    let low : bit_and e (2 ^ 64 - 1 - local_dns_bit) ≡ e = bit_and-ones 63 e ∙ omega arith in
    rw low (bit_or-pow 63 e h)

-- An expiry below 2^63 is read back, and so is the source.
pub entry-fields :
    (e : ℕ) (local_dns : Bool)
    → e < 2 ^ 63
    → (expires_at_secs (entry e local_dns) ≡ e) × (is_local_dns (entry e local_dns) ≡ local_dns)
unfolding expires_at_secs is_local_dns
entry-fields e false h =
    rw (word e false h)
      (bit_and-ones 63 (e + 0) ∙ omega arith, (let b = bit_and-pow 63 (e + 0) in ground (arith, b)))
entry-fields e true h = rw (word e true h) (
  bit_and-ones 63 (e + local_dns_bit) ∙ omega arith,
  (let b = bit_and-pow 63 (e + local_dns_bit) in ground (arith, b)),
)

-- A negative answer is kept from five minutes to an hour, and for its own time between.
pub negative_ttl-range :
    (soa_ttl : ℕ)
    → (min_negative_ttl ≤ negative_ttl (some soa_ttl))
      × (negative_ttl (some soa_ttl) ≤ max_negative_ttl)
unfolding negative_ttl
negative_ttl-range soa_ttl = (omega arith, omega arith)
