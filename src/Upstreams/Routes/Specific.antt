-- ===== src/Upstreams/Routes/Specific.antt =====
-- The domains above a name, cut at its dots, and which of them a closed set can hold.
use ferrous_dns.Base.{
  append_assoc, append-nil, ℕ, ◌≡◌, refl, sym, ap, ◌∙◌, ◌⊎◌, inl, inr, Option, none, some, List, [],
  ◌∷◌, ◌++◌, All, ◌==◌, if◌then◌else◌, Bool-cases, Option-cases, length, ==_iff,
}
use ferrous_dns.Base.Dict
use ferrous_dns.Upstreams.Routes.{same_name, parents, Domains, matching, rfind, or_better}
use ferrous_dns.Upstreams.Routes.Closed.{Holds, IsClosed}

-- What the routes of one domain give the group.
unfoldable pub routed : Domains → Option ℕ → List ℕ → Option (ℕ × ℕ)
routed m group domain = elim (Dict.get same_name domain m) [
  | none ↦ none
  | some routes ↦ matching routes group
]

-- The first of the domains that routes the group.
abbrev pub first_routed : Domains → Option ℕ → List (List ℕ) → Option (ℕ × ℕ)
first_routed m group [] = none
first_routed m group (d ∷ domains) = or_better (routed m group d) (first_routed m group domains)

pub or_better_assoc :
    (a b c : Option (ℕ × ℕ)) → or_better (or_better a b) c ≡ or_better a (or_better b c)
or_better_assoc none b c = refl
or_better_assoc (some f) b c = refl

pub first_routed-append :
    (m : Domains) (group : Option ℕ) (xs ys : List (List ℕ))
    → first_routed m group (xs ++ ys)
      ≡ or_better (first_routed m group xs) (first_routed m group ys)
first_routed-append m group [] ys = refl
first_routed-append m group (x ∷ xs) ys =
    ap (or_better (routed m group x)) (first_routed-append m group xs ys)
    ∙ sym (or_better_assoc (routed m group x) (first_routed m group xs) (first_routed m group ys))

pub first_routed_unheld :
    (m : Domains) (group : Option ℕ) (xs : List (List ℕ))
    → All (λ x. Dict.get same_name x m ≡ none) xs
    → first_routed m group xs ≡ none
unfolding routed
first_routed_unheld m group [] h = refl
first_routed_unheld m group (x ∷ xs) h = rw (h.0, routed) (first_routed_unheld m group xs h.1)

-- What follows each dot of a prefix, to the end of the name.
abbrev pub rests : List ℕ → List ℕ → List (List ℕ)
rests [] tail = []
rests (c ∷ text) tail = if c == b'.' then (text ++ tail) ∷ rests text tail else rests text tail

pub rests-parents : (name : List ℕ) → rests name [] ≡ parents name
unfolding parents
rests-parents [] = refl
rests-parents (c ∷ name) = elim (Bool-cases (c == b'.')) [
  | inl e ↦ rw (e, parents, append-nil name, rests-parents name) refl
  | inr e ↦ rw (e, parents) (rests-parents name)
]

pub rests_dotless : (label tail : List ℕ) → parents label ≡ [] → rests label tail ≡ []
unfolding parents
rests_dotless [] tail h = refl
rests_dotless (c ∷ label) tail h = elim (Bool-cases (c == b'.')) [
  | inl e ↦ let p : label ∷ parents label ≡ [] = rw (e, parents) at h in absurd (cc)
  | inr e ↦ rw e (rests_dotless label tail (rw (e, parents) at h))
]

pub rests-append :
    (front label tail : List ℕ)
    → parents label ≡ []
    → rests (front ++ b'.' ∷ label) tail
      ≡ rests front (b'.' ∷ (label ++ tail)) ++ (label ++ tail) ∷ []
rests-append [] label tail h = rw (rests_dotless label tail h) refl
rests-append (c ∷ front) label tail h = elim (Bool-cases (c == b'.')) [
  | inl e ↦ rw (e, rests-append front label tail h, append_assoc front (b'.' ∷ label) tail) refl
  | inr e ↦ rw e (rests-append front label tail h)
]

-- The prefix that the last dot ends, and the label after it.
pub rfind_split :
    (text : List ℕ)
    → ((rfind text ≡ none) × (parents text ≡ []))
      ⊎ ((front : List ℕ) × (label : List ℕ) × ((text ≡ front ++ b'.' ∷ label)
            × ((rfind text ≡ some (length front)) × (parents label ≡ []))))
unfolding rfind parents
rfind_split [] = inl (refl, refl)
rfind_split (c ∷ text) = elim (rfind_split text) [
  | inl (r, q) ↦ elim (Bool-cases (c == b'.')) [
    | inl e ↦
        let is_dot : c ≡ b'.' = (==_iff c b'.').0 e in
        inr ([], text, (ap (λ d. d ∷ text) is_dot, (rw (r, e, rfind) refl, q)))
    | inr e ↦ inl (rw (r, e, rfind) refl, rw (e, parents) q)
  ]
  | inr (front, label, (t, (r, q))) ↦
      inr (c ∷ front, label, (ap (λ x. c ∷ x) t, (rw (r, rfind) refl, q)))
]

-- A domain that the set does not hold has none under it that the set holds.
parents-Holds :
    (m : Domains) (front domain : List ℕ)
    → All (Holds m) (parents (front ++ b'.' ∷ domain))
    → Holds m domain
unfolding parents
parents-Holds m [] domain h = h.0
parents-Holds m (c ∷ front) domain h = elim (Bool-cases (c == b'.')) [
  | inl e ↦
      let k : All (Holds m) ((front ++ b'.' ∷ domain) ∷ parents (front ++ b'.' ∷ domain)) =
        rw (e, parents) at h in
      parents-Holds m front domain k.1
  | inr e ↦ parents-Holds m front domain (rw (e, parents) at h)
]

pub under_unheld :
    (m : Domains) (front domain : List ℕ)
    → IsClosed m
    → Dict.get same_name domain m ≡ none
    → Dict.get same_name (front ++ b'.' ∷ domain) m ≡ none
under_unheld m front domain c h =
    elim (Option-cases (Dict.get same_name (front ++ b'.' ∷ domain) m)) [
      | inl e ↦ e
      | inr (v, e) ↦ absurd (
          parents-Holds m front domain
            (c (front ++ b'.' ∷ domain) (λ f. let p : some v ≡ none = sym e ∙ f in absurd (cc))) h)
    ]

pub rests_unheld :
    (m : Domains) (front domain : List ℕ)
    → IsClosed m
    → Dict.get same_name domain m ≡ none
    → All (λ x. Dict.get same_name x m ≡ none) (rests front (b'.' ∷ domain))
rests_unheld m [] domain c h = tt
rests_unheld m (d ∷ front) domain c h = elim (Bool-cases (d == b'.')) [
  | inl e ↦ rw e (under_unheld m front domain c h, rests_unheld m front domain c h)
  | inr e ↦ rw e (rests_unheld m front domain c h)
]
