-- ===== src/RateLimit/Whitelist.antt =====
-- The networks that the limiter never limits, whitelist_set.rs. A text is the list of its bytes;
-- the standard library's parsers of numbers and addresses are the parameters of a section.
pub mod Covers
use ferrous_dns.Base.{
  ℕ, ◌-◌, ◌*◌, ◌%◌, ◌^◌, bit_and, Bool, true, false, ltb, ◌==◌, if◌then◌else◌, Option, none, some,
  List, [], ◌∷◌, ◌++◌, any,
}
use mathlib.Core.List.{foldl}
use ferrous_dns.Ip.{IpAddr}

abbrev pub Str : Type 0
Str = List ℕ

pub record WhitelistSet : Type 0 where
  pub v4_entries : List (ℕ × ℕ)
  pub v6_entries : List (ℕ × ℕ)

abbrev pub empty : WhitelistSet
empty = record { v4_entries = []; v6_entries = [] }

-- `str::split_once('/')`: the texts before and after the first slash.
unfoldable pub split_once : Str → Option (Str × Str)
split_once [] = none
split_once (c ∷ text) =
    if c == b'/'
    then some ([], text)
    else elim (split_once text) [ none ↦ none | some (a, b) ↦ some (c ∷ a, b) ]

-- `MAX.checked_shl(width.saturating_sub(prefix_len)).unwrap_or(0)` at a width of bits.
unfoldable pub mask : ℕ → ℕ → ℕ
mask width prefix_len =
    let shift = width - prefix_len in
    if ltb shift width then (2 ^ width - 1) * 2 ^ shift % 2 ^ width else 0

unfoldable pub push_network : WhitelistSet → IpAddr → ℕ → WhitelistSet
unfolding mask
push_network w (IpAddr.v4 bits) prefix_len = record w {
  v4_entries = w.v4_entries ++ ((bit_and bits (mask 32 prefix_len), mask 32 prefix_len) ∷ []);
}
push_network w (IpAddr.v6 bits) prefix_len = record w {
  v6_entries = w.v6_entries ++ ((bit_and bits (mask 128 prefix_len), mask 128 prefix_len) ∷ []);
}

unfoldable pub push_address : WhitelistSet → IpAddr → WhitelistSet
push_address w (IpAddr.v4 bits) = record w {
  v4_entries = w.v4_entries ++ ((bits, 2 ^ 32 - 1) ∷ []);
}
push_address w (IpAddr.v6 bits) = record w {
  v6_entries = w.v6_entries ++ ((bits, 2 ^ 128 - 1) ∷ []);
}

module _ (parse_prefix : Str → Option ℕ) (parse_ip : Str → Option IpAddr) where
  -- One round of the loop over the configured texts.
  unfoldable pub push_cidr : WhitelistSet → Str → WhitelistSet
  unfolding push_network push_address split_once
  push_cidr w cidr = elim (split_once cidr) [
    | none ↦ elim (parse_ip cidr) [ none ↦ w | some addr ↦ push_address w addr ]
    | some (addr_str, prefix_str) ↦ elim (parse_prefix prefix_str) [
      | none ↦ w
      | some prefix_len ↦ elim (parse_ip addr_str) [
        | none ↦ w
        | some addr ↦ push_network w addr prefix_len
      ]
    ]
  ]

  unfoldable pub from_cidrs : List Str → WhitelistSet
  unfolding push_cidr
  from_cidrs = foldl push_cidr empty

unfoldable pub contains : WhitelistSet → IpAddr → Bool
contains w (IpAddr.v4 bits) = any (λ e. bit_and bits e.1 == e.0) w.v4_entries
contains w (IpAddr.v6 bits) = any (λ e. bit_and bits e.1 == e.0) w.v6_entries
