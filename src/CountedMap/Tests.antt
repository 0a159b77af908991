-- ===== src/CountedMap/Tests.antt =====
-- The tests of counted_map.rs, and its theorems at small maps.
use ferrous_dns.Base.{ℕ, ◌<◌, ◌≡◌, refl, false, leb, List, [], ◌∷◌, arith, ℕ_discrete}
use ferrous_dns.Base.Dict
use ferrous_dns.CountedMap
use ferrous_dns.CountedMap.{CountedDashMap, fetch_add, fetch_sub}
use ferrous_dns.CountedMap.Count.{IsExact, Call, inserts, removes, evicts, run, run-IsExact}
use ferrous_dns.CountedMap.Eviction.{evict_if_full-lt}

abbrev calls : List (Call ℕ ℕ)
calls = inserts 1 10 ∷ inserts 2 20 ∷ inserts 1 11 ∷ evicts 4 2 (λ v. leb v 10) ∷ removes 7 ∷ []

empty-IsExact : IsExact ℕ_discrete (CountedMap.new {K = ℕ} {V = ℕ})
empty-IsExact = record { distinct = tt; exact = refl; usize = omega arith }

run-IsExact_example : IsExact ℕ_discrete (run ℕ_discrete CountedMap.new calls)
run-IsExact_example = run-IsExact ℕ_discrete calls CountedMap.new empty-IsExact (omega arith)

abbrev two : CountedDashMap ℕ ℕ
two = record { map = (1, 10) ∷ (2, 20) ∷ []; len = 2 }

two-IsExact : IsExact ℕ_discrete two
unfolding Dict.get ℕ_discrete
two-IsExact = record { distinct = (refl, (refl, tt)); exact = refl; usize = omega arith }

-- None of the entries expired, so the first of them goes.
evicts_one :
    CountedMap.evict_if_full ℕ_discrete 4 two 2 (λ v. false)
    ≡ record { map = (2, 20) ∷ []; len = 1 }
unfolding CountedMap.evict_if_full CountedMap.remove Dict.get Dict.remove fetch_sub ℕ_discrete
evicts_one = refl

evict_if_full-lt_example : (CountedMap.evict_if_full ℕ_discrete 4 two 2 (λ v. false)).len < 2
evict_if_full-lt_example =
    evict_if_full-lt ℕ_discrete 4 two 2 (λ v. false) two-IsExact (omega arith) (omega arith)
