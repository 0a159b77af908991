-- ===== src/Upstreams/Rotation.antt =====
-- The round-robin asks what failover would ask of the list turned to its starting position.
use ferrous_dns.Base.{
  ℕ, zero, suc, ◌+◌, ◌-◌, ◌*◌, ◌%◌, ◌<◌, Bool, true, ◌&&◌, inl, inr, some, List, [], ◌∷◌, ◌++◌,
  length, get_elem?, take, drop, ◌≡◌, refl, sym, ap, ◌∙◌, arith, dec_lt, length-take, length-drop,
  length-append,
}
use ferrous_dns.Base.Bits.{mod-mul_add}
use native.Mathlib.Nat.{mod-eq_of_lt, mod-lt}
use ferrous_dns.Upstreams.Errors.{is_servfail}
use ferrous_dns.Upstreams.Query.{QueryContext, World, query_server}
use ferrous_dns.Upstreams.Failover
use ferrous_dns.Upstreams.Balanced
use ferrous_dns.Upstreams.Sequence.{Result-cases, try_next-servers, try_next-replies}
use ferrous_dns.Upstreams.Sequence
use ferrous_dns.Upstreams.Replies.{replies, until_ok, first_ok}

module _ {ℓ} {A : Type ℓ} where
  get_elem?-append_left :
      (xs ys : List A) (i : ℕ) → i < length xs → get_elem? (xs ++ ys) i ≡ get_elem? xs i
  get_elem?-append_left [] ys i h = absurd (omega arith)
  get_elem?-append_left (x ∷ xs) ys zero h = refl
  get_elem?-append_left (x ∷ xs) ys (suc i) h = get_elem?-append_left xs ys i (omega arith)

  get_elem?-append_right :
      (xs ys : List A) (i : ℕ) → get_elem? (xs ++ ys) (length xs + i) ≡ get_elem? ys i
  get_elem?-append_right [] ys i = let e : 0 + i ≡ i = omega arith in rw e refl
  get_elem?-append_right (x ∷ xs) ys i =
      let e : suc (length xs) + i ≡ suc (length xs + i) = omega arith in
      rw e (get_elem?-append_right xs ys i)

  get_elem?-drop : (n i : ℕ) (xs : List A) → get_elem? (drop n xs) i ≡ get_elem? xs (n + i)
  get_elem?-drop zero i xs = let e : 0 + i ≡ i = omega arith in rw e refl
  get_elem?-drop (suc n) i [] = refl
  get_elem?-drop (suc n) i (x ∷ xs) =
      let e : suc n + i ≡ suc (n + i) = omega arith in rw e (get_elem?-drop n i xs)

  get_elem?-take : (n i : ℕ) (xs : List A) → i < n → get_elem? (take n xs) i ≡ get_elem? xs i
  get_elem?-take zero i xs h = absurd (omega arith)
  get_elem?-take (suc n) i [] h = refl
  get_elem?-take (suc n) zero (x ∷ xs) h = refl
  get_elem?-take (suc n) (suc i) (x ∷ xs) h = get_elem?-take n i xs (omega arith)

  -- The list from a position on, then the part before it.
  abbrev pub turned : ℕ → List A → List A
  turned n xs = drop n xs ++ take n xs

  length-turned : (n : ℕ) (xs : List A) → n < length xs → length (turned n xs) ≡ length xs
  length-turned n xs h =
      omega (arith, length-append (drop n xs) (take n xs), length-drop n xs, length-take n xs)

  get_elem?-turned :
      (n i : ℕ) (xs : List A)
      → n < length xs
      → i < length xs
      → get_elem? xs ((n + i) % length xs) ≡ get_elem? (turned n xs) i
  get_elem?-turned n i xs h k = elim (dec_lt (n + i) (length xs)) [
    | yes p ↦
        rw
          (
            mod-eq_of_lt p,
            get_elem?-append_left (drop n xs) (take n xs) i (omega (arith, length-drop n xs)),
          )
          (sym (get_elem?-drop n i xs))
    | no p ↦
        let j : ℕ = n + i - length xs in
        let wraps : n + i ≡ 1 * length xs + j = omega arith in
        let place : i ≡ length (drop n xs) + j = omega (arith, length-drop n xs) in
        ap (λ (t : ℕ). get_elem? xs (t % length xs)) wraps
        ∙ ap (get_elem? xs) (mod-mul_add 1 j (length xs) (omega arith))
        ∙ sym (get_elem?-take n j xs (omega arith))
        ∙ sym (get_elem?-append_right (drop n xs) (take n xs) j)
        ∙ ap (get_elem? (turned n xs)) (sym place)
  ]

module _ {K : Type 0} (same : Discrete K) (w : World K) where
  -- The rounds left ask the servers `left`, when the code's index finds them.
  try_from-try_next :
      (ctx : QueryContext K) (start : ℕ) (flag : Bool) (asked : List K) (i : ℕ) (left : List K)
      → ((j : ℕ)
          → j < length left
          → get_elem? ctx.servers ((start + (i + j)) % length ctx.servers) ≡ get_elem? left j)
      → Balanced.try_from same w ctx start flag asked i (length left)
        ≡ some (Failover.try_next same w ctx flag asked left)
  unfolding Balanced.try_from Failover.try_next
  try_from-try_next ctx start flag asked i [] h = refl
  try_from-try_next ctx start flag asked i (s ∷ left) h =
      let e : i + 0 ≡ i = omega arith in
      let here : get_elem? ctx.servers ((start + i) % length ctx.servers) ≡ some s =
        ap (λ (t : ℕ). get_elem? ctx.servers ((start + t) % length ctx.servers)) (sym e)
        ∙ h 0 (omega arith) in
      elim (Result-cases (query_server same w ctx asked s)) [
        | inl (r, p) ↦ rw (here, p, Balanced.try_from, Failover.try_next) refl
        | inr (d, p) ↦
            rw (here, p, Balanced.try_from, Failover.try_next)
              (try_from-try_next ctx start (flag && is_servfail d) (asked ++ s ∷ []) (i + 1) left
                later)
      ]
    where
      later :
          (j : ℕ)
          → j < length left
          → get_elem? ctx.servers ((start + (i + 1 + j)) % length ctx.servers) ≡ get_elem? left j
      later j k =
          let e : i + suc j ≡ i + 1 + j = omega arith in
          ap (λ (t : ℕ). get_elem? ctx.servers ((start + t) % length ctx.servers)) (sym e)
          ∙ h (suc j) (omega arith)

  query-try_from :
      (ctx : QueryContext K) (next : ℕ) (asked : List K)
      → 0 < length ctx.servers
      → Balanced.query same w ctx next asked ≡ (
        Balanced.try_from same w ctx (next % length ctx.servers) true asked 0 (length ctx.servers),
        Balanced.fetch_add next,
      )
  unfolding Balanced.query
  query-try_from ctx next asked h = go ctx.servers refl h
    where
      go :
          (l : List K)
          → ctx.servers ≡ l
          → 0 < length l
          → Balanced.query same w ctx next asked ≡ (
            Balanced.try_from same w ctx
                (next % length ctx.servers)
                true
                asked
                0
                (length ctx.servers),
            Balanced.fetch_add next,
          )
      go [] e k = absurd (omega arith)
      go (s ∷ l) e k = rw e refl

  query-try_next :
      (ctx : QueryContext K) (next : ℕ) (asked : List K)
      → 0 < length ctx.servers
      → Balanced.query same w ctx next asked ≡ (
        some (
            Failover.try_next same w ctx true asked
              (turned (next % length ctx.servers) ctx.servers)),
        Balanced.fetch_add next,
      )
  query-try_next ctx next asked h =
      query-try_from ctx next asked h
      ∙ ap (λ t. (t, Balanced.fetch_add next))
          (ap (Balanced.try_from same w ctx n true asked 0) (sym rounds)
            ∙ try_from-try_next ctx n true asked 0 (turned n ctx.servers) places)
    where
      n : ℕ
      n = next % length ctx.servers

      rounds : length (turned n ctx.servers) ≡ length ctx.servers
      rounds = length-turned n ctx.servers (mod-lt next h)

      places :
          (j : ℕ)
          → j < length (turned n ctx.servers)
          → get_elem? ctx.servers ((n + (0 + j)) % length ctx.servers)
            ≡ get_elem? (turned n ctx.servers) j
      places j k =
          let e : 0 + j ≡ j = omega arith in
          rw e (get_elem?-turned n j ctx.servers (mod-lt next h) (omega (arith, rounds, k)))

  pub query-replies :
      (ctx : QueryContext K) (next : ℕ) (asked : List K)
      → 0 < length ctx.servers
      → (Balanced.query same w ctx next asked).0 ≡ (
          let rs = replies same w ctx asked (turned (next % length ctx.servers) ctx.servers) in
          some (asked ++ until_ok rs, first_ok true rs))
  query-replies ctx next asked h = rw (query-try_next ctx next asked h) (
      ap some
        (try_next-replies same w ctx true asked (turned (next % length ctx.servers) ctx.servers)))

  -- With a server at least the round-robin neither panics nor runs out of rounds: it does what
  -- failover does with the servers from position `next % len` on, then those before it, so that it
  -- asks each server at most once; and it moves the counter on by one, modulo `2 ^ 64`.
  pub query-turned :
      (ctx : QueryContext K) (next : ℕ) (asked : List K)
      → 0 < length ctx.servers
      → Balanced.query same w ctx next asked ≡ (
        some (
            Failover.query same w
              (record ctx { servers = turned (next % length ctx.servers) ctx.servers })
              asked),
        Balanced.fetch_add next,
      )
  query-turned ctx next asked h =
      query-try_next ctx next asked h
      ∙ ap (λ t. (some t, Balanced.fetch_add next))
          (sym (try_next-servers same w ctx servers true asked servers)
            ∙ sym (Sequence.query-try_next same w (record ctx { servers = servers }) asked rounds))
    where
      servers : List K
      servers = turned (next % length ctx.servers) ctx.servers

      rounds : 0 < length servers
      rounds = omega (arith, length-turned _ ctx.servers (mod-lt next h), h)
