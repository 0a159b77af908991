-- ===== src/Connections/Invariant.antt =====
-- The counts of connection_limiter.rs are the live guards, in every interleaving.
use ferrous_dns.Base.{
  ℕ, ◌+◌, ◌-◌, ◌%◌, ◌^◌, ◌≤◌, ◌<◌, ◌≡◌, ◌≢◌, refl, sym, ◌∙◌, ap, true, false, leb, ◌==◌,
  if◌then◌else◌, Bool-cases, inl, inr, Option, none, some, Option-cases, List, [], ◌∷◌, ◌++◌, ite,
  if_pos, if_neg, arith,
}
use ferrous_dns.Base.Dict
use ferrous_dns.Ip.{IpAddr, IpAddr-discrete}
use ferrous_dns.Connections.{Counts, count_of, store, try_acquire, release, remove_idle}
use ferrous_dns.Connections.Threads.{System, acquired, released, reaped}

-- How often the address stands in the list.
unfoldable pub occurrences : IpAddr → List IpAddr → ℕ
occurrences ip [] = 0
occurrences ip (j ∷ xs) = ite (IpAddr-discrete j ip) (occurrences ip xs + 1) (occurrences ip xs)

occurrences-cons :
    (ip j : IpAddr) (xs ys : List IpAddr)
    → occurrences ip (xs ++ (j ∷ ys))
      ≡ ite (IpAddr-discrete j ip) (occurrences ip (xs ++ ys) + 1) (occurrences ip (xs ++ ys))
unfolding occurrences
occurrences-cons ip j [] ys = refl
occurrences-cons ip j (x ∷ xs) ys = ground (arith, occurrences-cons ip j xs ys)

-- The counts agree with the guards, within the limit, and an entry at 0 waits for its removal.
pub record IsValid (s : System) : Type 0 where
  pub agree : (ip : IpAddr) → count_of s.limiter.counts ip ≡ occurrences ip s.held
  pub within : (ip : IpAddr) → occurrences ip s.held ≤ s.limiter.max_per_ip
  pub idle :
      (ip : IpAddr)
      → Dict.get IpAddr-discrete ip s.limiter.counts ≡ some 0
      → 0 < occurrences ip s.dropping
  pub u32 : s.limiter.max_per_ip < 2 ^ 32

count_of-store :
    (counts : Counts) (ip j : IpAddr) (n : ℕ)
    → count_of (store counts ip n) j ≡ ite (IpAddr-discrete ip j) n (count_of counts j)
unfolding count_of
count_of-store counts ip j n = rw (Dict.get-insert, count_of) (ground arith)

get-store :
    (counts : Counts) (ip j : IpAddr) (n : ℕ)
    → (Dict.get IpAddr-discrete j (store counts ip n)
        ≡ ite (IpAddr-discrete ip j) (some n) (Dict.get IpAddr-discrete j counts))
get-store counts ip j n = Dict.get-insert IpAddr-discrete ip j n counts

-- The system with another count for one address, and other guards and drops.
with_count : System → IpAddr → ℕ → List IpAddr → List IpAddr → System
with_count s ip n held dropping = record {
  limiter = record { counts = store s.limiter.counts ip n; max_per_ip = s.limiter.max_per_ip };
  held = held;
  dropping = dropping;
}

-- A new count for one address keeps the invariant, if it is right for the new guards, and the
-- guards and drops of the other addresses are the same.
with_count-IsValid :
    (s : System) (ip : IpAddr) (n : ℕ) (held dropping : List IpAddr)
    → IsValid s
    → n ≡ occurrences ip held
    → n ≤ s.limiter.max_per_ip
    → (n ≡ 0 → 0 < occurrences ip dropping)
    → ((j : IpAddr) → ip ≢ j → occurrences j held ≡ occurrences j s.held)
    → ((j : IpAddr) → occurrences j s.dropping ≤ occurrences j dropping)
    → IsValid (with_count s ip n held dropping)
unfolding with_count
with_count-IsValid s ip n held dropping v right small idle same more = record {
  agree = λ j.
      rw count_of-store
        (elim (IpAddr-discrete ip j)
          as (λ d. ite d n (count_of s.limiter.counts j) ≡ occurrences j held) [
            | yes e ↦ rw (← e) right
            | no ne ↦ v.agree j ∙ sym (same j ne)
          ]);
  within = λ j. elim (IpAddr-discrete ip j) [
    | yes e ↦ rw (← e) (omega arith)
    | no ne ↦ rw (same j ne) (v.within j)
  ];
  idle = λ j.
      rw get-store
        (elim (IpAddr-discrete ip j)
          as (λ d.
            ite d (some n) (Dict.get IpAddr-discrete j s.limiter.counts) ≡ some 0
            → 0 < occurrences j dropping) [
              | yes e ↦ λ h. rw (← e) (idle (ground arith))
              | no ne ↦ λ h. omega (arith, v.idle j h, more j)
            ]);
  u32 = v.u32;
}

module _ (s : System) (ip : IpAddr) (v : IsValid s) where
  abbrev prev : ℕ
  prev = count_of s.limiter.counts ip

  count_of-added :
      count_of (store s.limiter.counts ip ((prev + 1) % 2 ^ 32)) ip ≡ (prev + 1) % 2 ^ 32
  count_of-added = rw count_of-store (if_pos (IpAddr-discrete ip ip) refl _ _)

  prev-le : prev ≤ s.limiter.max_per_ip
  prev-le = omega (arith, v.agree ip, v.within ip)

  -- A refused connection leaves the count as it was.
  acquired_full :
      (s.limiter.max_per_ip == 0) ≡ false
      → leb s.limiter.max_per_ip prev ≡ true
      → acquired s ip ≡ with_count s ip prev s.held s.dropping
  unfolding acquired try_acquire with_count
  acquired_full some_max full =
      let back : (count_of (store s.limiter.counts ip ((prev + 1) % 2 ^ 32)) ip + 2 ^ 32 - 1)
            % 2 ^ 32
          ≡ prev =
        omega (arith, count_of-added, prev-le, v.u32) in
      simp (some_max, full, back, Dict.insert-insert)

  acquired_room :
      (s.limiter.max_per_ip == 0) ≡ false
      → leb s.limiter.max_per_ip prev ≡ false
      → acquired s ip ≡ with_count s ip (prev + 1) (ip ∷ s.held) s.dropping
  unfolding acquired try_acquire with_count
  acquired_room some_max room =
      let sum : (prev + 1) % 2 ^ 32 ≡ prev + 1 = ground (arith, v.u32) in simp (some_max, room, sum)

  pub acquired-IsValid : IsValid (acquired s ip)
  unfolding acquired try_acquire occurrences
  acquired-IsValid = elim (Bool-cases (s.limiter.max_per_ip == 0)) [
    | inl zero_max ↦ simp zero_max v
    | inr some_max ↦ elim (Bool-cases (leb s.limiter.max_per_ip prev)) [
      | inl full ↦ rw (acquired_full some_max full) (
          with_count-IsValid s ip prev s.held s.dropping v (v.agree ip) prev-le
            (λ z. absurd (ground arith)) (λ j n. refl) (λ j. omega arith))
      | inr room ↦ rw (acquired_room some_max room) (
          with_count-IsValid s ip (prev + 1) (ip ∷ s.held) s.dropping v
            (rw (if_pos (IpAddr-discrete ip ip) refl) (omega (arith, v.agree ip))) (ground arith)
            (λ z. absurd (omega arith)) (λ j n. if_neg (IpAddr-discrete ip j) n _ _)
            (λ j. omega arith))
    ]
  ]

  pub count_of_some : (n : ℕ) → Dict.get IpAddr-discrete ip s.limiter.counts ≡ some n → prev ≡ n
  unfolding count_of
  count_of_some n e = rw (e, count_of)

  count_of_none : Dict.get IpAddr-discrete ip s.limiter.counts ≡ none → prev ≡ 0
  unfolding count_of
  count_of_none e = rw (e, count_of)

  module _ (xs ys : List IpAddr) where
    occurrences_self : occurrences ip (xs ++ (ip ∷ ys)) ≡ occurrences ip (xs ++ ys) + 1
    occurrences_self = occurrences-cons ip ip xs ys ∙ if_pos (IpAddr-discrete ip ip) refl _ _

    occurrences_other :
        (j : IpAddr) → ip ≢ j → occurrences j (xs ++ (ip ∷ ys)) ≡ occurrences j (xs ++ ys)
    occurrences_other j n = occurrences-cons j ip xs ys ∙ if_neg (IpAddr-discrete ip j) n _ _

    released-some :
        (n : ℕ)
        → Dict.get IpAddr-discrete ip s.limiter.counts ≡ some n
        → (released s ip (xs ++ ys)
            ≡ with_count s ip
                ((n + 2 ^ 32 - 1) % 2 ^ 32)
                (xs ++ ys)
                (if leb n 1 then ip ∷ s.dropping else s.dropping))
    unfolding released release with_count
    released-some n e = rw (e, release)

    -- The first part of a drop keeps the invariant.
    pub released-IsValid : s.held ≡ xs ++ (ip ∷ ys) → IsValid (released s ip (xs ++ ys))
    unfolding occurrences
    released-IsValid e = elim (Option-cases (Dict.get IpAddr-discrete ip s.limiter.counts)) [
      | inl absent ↦
          absurd (
            omega
              (arith, v.agree ip, count_of_none absent, ap (occurrences ip) e, occurrences_self))
      | inr (n, found) ↦
          let here_too : n ≡ occurrences ip (xs ++ ys) + 1 =
            omega
              (arith, v.agree ip, count_of_some n found, ap (occurrences ip) e, occurrences_self) in
          let bound : n < 2 ^ 32 = omega (arith, v.u32, prev-le, count_of_some n found) in
          rw (released-some n found) (
            with_count-IsValid s ip ((n + 2 ^ 32 - 1) % 2 ^ 32) (xs ++ ys)
              (if leb n 1 then ip ∷ s.dropping else s.dropping) v (omega arith)
              (omega (arith, prev-le, count_of_some n found))
              (λ z.
                let last : leb n 1 ≡ true = ground arith in
                rw last (rw (if_pos (IpAddr-discrete ip ip) refl) (omega arith)))
              (λ j ne. sym (occurrences_other j ne) ∙ sym (ap (occurrences j) e))
              (λ j. elim (Bool-cases (leb n 1)) [
                | inl last ↦ rw last (ground arith)
                | inr more ↦ rw more (omega arith)
              ]))
    ]

    remaining :
        (j : IpAddr)
        → s.dropping ≡ xs ++ (ip ∷ ys)
        → ip ≢ j
        → occurrences j s.dropping ≡ occurrences j (xs ++ ys)
    remaining j e ne = ap (occurrences j) e ∙ occurrences_other j ne

    reaped_unchanged :
        s.dropping ≡ xs ++ (ip ∷ ys)
        → remove_idle s.limiter.counts ip ≡ s.limiter.counts
        → Dict.get IpAddr-discrete ip s.limiter.counts ≢ some 0
        → IsValid (reaped s ip (xs ++ ys))
    unfolding reaped
    reaped_unchanged e same busy = rw same (record {
      agree = v.agree;
      within = v.within;
      idle = λ j h. elim (IpAddr-discrete ip j) [
        | yes p ↦ absurd (busy (rw p h))
        | no ne ↦ omega (arith, v.idle j h, remaining j e ne)
      ];
      u32 = v.u32;
    })

    count_of-remove :
        (j : IpAddr)
        → prev ≡ 0
        → count_of (Dict.remove IpAddr-discrete ip s.limiter.counts) j ≡ count_of s.limiter.counts j
    unfolding count_of
    count_of-remove j z = elim (IpAddr-discrete ip j) [
      | yes p ↦ rw (← p) (gone ∙ sym z)
      | no ne ↦ ap or_zero (Dict.get-remove_ne IpAddr-discrete ip j s.limiter.counts ne)
    ]
      where
        or_zero : Option ℕ → ℕ
        or_zero o = elim o [ none ↦ 0 | some n ↦ n ]

        gone : count_of (Dict.remove IpAddr-discrete ip s.limiter.counts) ip ≡ 0
        gone = ap or_zero (Dict.get-remove_self IpAddr-discrete ip s.limiter.counts)

    reaped_removed :
        s.dropping ≡ xs ++ (ip ∷ ys)
        → remove_idle s.limiter.counts ip ≡ Dict.remove IpAddr-discrete ip s.limiter.counts
        → prev ≡ 0
        → IsValid (reaped s ip (xs ++ ys))
    unfolding reaped
    reaped_removed e removed z = rw removed (record {
      agree = λ j. count_of-remove j z ∙ v.agree j;
      within = v.within;
      idle = λ j h. elim (IpAddr-discrete ip j) [
        | yes p ↦
            let absent : Dict.get IpAddr-discrete j
                  (Dict.remove IpAddr-discrete ip s.limiter.counts)
                ≡ none =
              rw (← p) (Dict.get-remove_self IpAddr-discrete ip s.limiter.counts) in
            cc (h, absent)
        | no ne ↦ omega (
          arith,
          v.idle j (sym (Dict.get-remove_ne IpAddr-discrete ip j s.limiter.counts ne) ∙ h),
          remaining j e ne,
        )
      ];
      u32 = v.u32;
    })

    -- The second part of a drop keeps the invariant.
    pub reaped-IsValid : s.dropping ≡ xs ++ (ip ∷ ys) → IsValid (reaped s ip (xs ++ ys))
    unfolding remove_idle
    reaped-IsValid e = elim (Option-cases (Dict.get IpAddr-discrete ip s.limiter.counts)) [
      | inl absent ↦ reaped_unchanged e (rw (absent, remove_idle)) (λ h. cc (h, absent))
      | inr (n, found) ↦ elim (Bool-cases (n == 0)) [
        | inr busy ↦
            reaped_unchanged e (rw (found, remove_idle) (rw busy refl))
              (λ h. ground (arith, h, found))
        | inl zero_count ↦
            reaped_removed e (rw (found, remove_idle) (rw zero_count refl))
              (ground (arith, count_of_some n found))
      ]
    ]
