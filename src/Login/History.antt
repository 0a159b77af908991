-- ===== src/Login/History.antt =====
-- login_rate_limiter.rs against its contract: what one client's own attempts amount to, without a
-- map, a threshold or a pruning.
use ferrous_dns.Base.{
  ℕ, ◌≤◌, ◌≡◌, ◌∙◌, refl, sym, ap, inl, inr, ite, Bool, true, false, ltb, ◌==◌, Option, none, some,
  List, [], ◌∷◌, length, arith, Bool-cases, Option-cases,
}
use ferrous_dns.Base.Dict
use ferrous_dns.Ip.{IpAddr, IpAddr-discrete}
use ferrous_dns.Login.{
  FailureWindow, LoginRateLimiter, accepted, new, is_open, window_key, check_at, prune,
  prune_threshold, or_insert, reopen, count_failure, record_failure_at, reset,
}
use ferrous_dns.Login.Attempts.{
  Attempt, failed, logged_in, attempt, run, InOrder, still_open, next_count, counted, count,
  verdict,
}

-- A window that is closed stays closed.
still_open-later :
    (window since now : ℕ) (a b : Option FailureWindow)
    → since ≤ now
    → still_open window since a ≡ still_open window since b
    → still_open window now a ≡ still_open window now b
still_open-later window since now none none h e = refl
still_open-later window since now none (some w) h e = ground arith
still_open-later window since now (some w) none h e = ground arith
still_open-later window since now (some v) (some w) h e = ground arith

pruned :
    (l : LoginRateLimiter) (k : IpAddr) (now : ℕ)
    → Dict.IsDistinct IpAddr-discrete l.windows
    → (still_open l.window now (Dict.get IpAddr-discrete k (prune l now))
        ≡ still_open l.window now (Dict.get IpAddr-discrete k l.windows))
unfolding prune
pruned l k now d = elim (Bool-cases (ltb prune_threshold (length l.windows))) [
  | inr few ↦ rw few refl
  | inl many ↦
      let keep : IpAddr → FailureWindow → Bool = λ _ w. is_open l.window now w in
      rw many (elim (Option-cases (Dict.get IpAddr-discrete k l.windows)) [
        | inl absent ↦
            rw (Dict.get-retain-none IpAddr-discrete keep k l.windows absent) (rw absent refl)
        | inr (w, e) ↦ elim (Bool-cases (is_open l.window now w)) [
          | inl opened ↦
              rw (Dict.get-retain_kept IpAddr-discrete keep k w l.windows e opened) (rw e refl)
          | inr closed ↦
              rw (Dict.get-retain_dropped IpAddr-discrete keep k w l.windows d e closed)
                (rw e (rw closed refl))
        ]
      ])
]

-- Reading the entry, making one, and opening it again come to one count.
next_count_lem :
    (window now : ℕ) (seen : Option FailureWindow)
    → (count_failure (reopen window now (or_insert seen now))
        ≡ next_count now (still_open window now seen))
unfolding count_failure reopen or_insert
next_count_lem window now none = ground arith
next_count_lem window now (some w) = ground arith

record_failure_at_lem :
    (l : LoginRateLimiter) (client : IpAddr) (now : ℕ)
    → (l.max_failures == 0) ≡ false
    → Dict.IsDistinct IpAddr-discrete l.windows
    → (record_failure_at l client now ≡ record l {
      windows =
          Dict.insert IpAddr-discrete
            (window_key client)
            (next_count now
              (still_open l.window now (Dict.get IpAddr-discrete (window_key client) l.windows)))
            (prune l now);
    })
unfolding record_failure_at
record_failure_at_lem l client now on d = rw on (
    rw (next_count_lem l.window now (Dict.get IpAddr-discrete (window_key client) (prune l now)))
      (rw (pruned l (window_key client) now d) refl))

prune-IsDistinct :
    (l : LoginRateLimiter) (now : ℕ)
    → Dict.IsDistinct IpAddr-discrete l.windows
    → Dict.IsDistinct IpAddr-discrete (prune l now)
unfolding prune
prune-IsDistinct l now d = elim (Bool-cases (ltb prune_threshold (length l.windows))) [
  | inr few ↦ rw few d
  | inl many ↦
      rw many (Dict.retain-IsDistinct IpAddr-discrete (λ _ w. is_open l.window now w) l.windows d)
]

-- The limiter's open window for the key is that of the count.
record Agrees (max_failures window : ℕ) (l : LoginRateLimiter) (k : IpAddr) (now : ℕ)
    (seen : Option FailureWindow) : Type 0 where
  pub same_max : l.max_failures ≡ max_failures
  pub same_window : l.window ≡ window
  pub distinct : Dict.IsDistinct IpAddr-discrete l.windows
  pub open_window :
      (still_open window now (Dict.get IpAddr-discrete k l.windows) ≡ still_open window now seen)

still_open-ite :
    (window now : ℕ) {P : Type 0} (d : Dec P) (a a' b b' : Option FailureWindow)
    → (P → still_open window now a ≡ still_open window now a')
    → (¬ P → still_open window now b ≡ still_open window now b')
    → still_open window now (ite d a b) ≡ still_open window now (ite d a' b')
still_open-ite window now (yes p) a a' b b' h k = h p
still_open-ite window now (no p) a a' b b' h k = k p

module _ (max_failures window : ℕ) (on : (max_failures == 0) ≡ false) (k : IpAddr) where
  Agrees-later :
      (l : LoginRateLimiter) (since now : ℕ) (seen : Option FailureWindow)
      → since ≤ now
      → Agrees max_failures window l k since seen
      → Agrees max_failures window l k now seen
  Agrees-later l since now seen h a = record {
    same_max = a.same_max;
    same_window = a.same_window;
    distinct = a.distinct;
    open_window = still_open-later window since now _ seen h a.open_window;
  }

  Agrees-failed :
      (l : LoginRateLimiter) (client : IpAddr) (now : ℕ) (seen : Option FailureWindow)
      → Agrees max_failures window l k now seen
      → Agrees max_failures window
          (record_failure_at l client now)
          k
          now
          (counted window k seen (failed client now))
  Agrees-failed l client now seen a =
      rw (record_failure_at_lem l client now (rw a.same_max on) a.distinct) record {
        same_max = a.same_max;
        same_window = a.same_window;
        distinct =
            Dict.insert-IsDistinct IpAddr-discrete (window_key client) _ (prune l now)
              (prune-IsDistinct l now a.distinct);
        open_window = opened;
      }
    where
      opened :
          (still_open window now (
              Dict.get IpAddr-discrete k (
                Dict.insert IpAddr-discrete
                  (window_key client)
                  (next_count now (
                    still_open l.window now
                      (Dict.get IpAddr-discrete (window_key client) l.windows)))
                  (prune l now)))
            ≡ still_open window now (counted window k seen (failed client now)))
      opened =
          rw
            (Dict.get-insert IpAddr-discrete (window_key client) k
              (next_count now
                (still_open l.window now (Dict.get IpAddr-discrete (window_key client) l.windows)))
              (prune l now))
            (still_open-ite window now (IpAddr-discrete (window_key client) k) _ _ _ _
              (λ p.
                ap (λ s. still_open window now (some (next_count now s)))
                  (ap
                      (λ w.
                        still_open w now (Dict.get IpAddr-discrete (window_key client) l.windows))
                      a.same_window
                    ∙ ap (λ i. still_open window now (Dict.get IpAddr-discrete i l.windows)) p
                    ∙ a.open_window))
              (λ _.
                ap (λ w. still_open w now (Dict.get IpAddr-discrete k (prune l now)))
                  (sym a.same_window)
                ∙ pruned l k now a.distinct
                ∙ ap (λ w. still_open w now (Dict.get IpAddr-discrete k l.windows)) a.same_window
                ∙ a.open_window))

  Agrees-logged_in :
      (l : LoginRateLimiter) (client : IpAddr) (now : ℕ) (seen : Option FailureWindow)
      → Agrees max_failures window l k now seen
      → Agrees max_failures window (reset l client) k now (counted window k seen (logged_in client))
  unfolding reset
  Agrees-logged_in l client now seen a = record {
    same_max = a.same_max;
    same_window = a.same_window;
    distinct = Dict.remove-IsDistinct IpAddr-discrete (window_key client) l.windows a.distinct;
    open_window = rw (Dict.get-remove IpAddr-discrete (window_key client) k l.windows) (
        still_open-ite window now (IpAddr-discrete (window_key client) k) _ _ _ _ (λ _. refl)
          (λ _. a.open_window));
  }

  Agrees-run :
      (es : List Attempt) (l : LoginRateLimiter) (since now : ℕ) (seen : Option FailureWindow)
      → InOrder since es now
      → Agrees max_failures window l k since seen
      → Agrees max_failures window (run l es) k now (count window k seen es)
  unfolding attempt
  Agrees-run [] l since now seen h a = Agrees-later l since now seen h a
  Agrees-run (failed client s ∷ es) l since now seen h a =
      Agrees-run es (record_failure_at l client s) s now _ h.1
        (Agrees-failed l client s seen (Agrees-later l since s seen h.0 a))
  Agrees-run (logged_in client ∷ es) l since now seen h a =
      Agrees-run es (reset l client) since now _ h (Agrees-logged_in l client since seen a)

verdict-open :
    (max_failures window now : ℕ) (seen : Option FailureWindow)
    → (max_failures == 0) ≡ true
    → verdict max_failures (still_open window now seen) ≡ accepted
verdict-open max_failures window now none off = refl
verdict-open max_failures window now (some w) off = ground arith

check_at_lem :
    (l : LoginRateLimiter) (client : IpAddr) (now : ℕ)
    → (check_at l client now
        ≡ verdict l.max_failures
            (still_open l.window now (Dict.get IpAddr-discrete (window_key client) l.windows)))
unfolding check_at
check_at_lem l client now =
    elim (Option-cases (Dict.get IpAddr-discrete (window_key client) l.windows)) [
      | inl absent ↦ rw (absent, check_at) ground arith
      | inr (w, e) ↦ rw (e, check_at) ground arith
    ]

run-max_failures :
    (es : List Attempt) (l : LoginRateLimiter) → (run l es).max_failures ≡ l.max_failures
unfolding attempt record_failure_at reset
run-max_failures [] l = refl
run-max_failures (failed client now ∷ es) l =
    run-max_failures es (record_failure_at l client now) ∙ ground arith
run-max_failures (logged_in client ∷ es) l = run-max_failures es (reset l client)

-- After any sequence of failures and logins of any clients whose times do not go back, up to `now`,
-- a client is refused at `now` exactly when its own attempts, with those of the clients that share
-- its key, count `max_failures` or more in a window that is open, for a `max_failures` that is not
-- zero: other clients, and the pruning of closed windows, change nothing.
pub check_at-run :
    (max_failures window : ℕ) (es : List Attempt) (client : IpAddr) (now : ℕ)
    → InOrder 0 es now
    → (check_at (run (new max_failures window) es) client now
        ≡ verdict max_failures (still_open window now (count window (window_key client) none es)))
unfolding Dict.get
check_at-run max_failures window es client now h = rw check_at_lem (
    rw (run-max_failures es (new max_failures window)) (elim (Bool-cases (max_failures == 0)) [
      | inl off ↦
          verdict-open max_failures _ now _ off ∙ sym (verdict-open max_failures window now _ off)
      | inr on ↦
          let a =
            Agrees-run max_failures window on (window_key client) es (new max_failures window) 0 now
              none h
              (record { same_max = refl; same_window = refl; distinct = tt; open_window = refl }) in
          rw a.same_window (ap (verdict max_failures) a.open_window)
    ]))
