-- ===== src/FastPath/Outcome.antt =====
-- What a function that returns an `Option` can do: panic, return `None`, or return a value.
-- `stuck` stands for no run of the code: a loop of the model was given too few rounds.
use ferrous_dns.Base.{
  ℕ, ◌+◌, ◌-◌, ◌*◌, ◌≤◌, ◌<◌, ◌≡◌, refl, Bool, true, false, leb, if◌then◌else◌, none, some, List,
  length, get_elem?, get_elem?_lt, take, drop, length-take, length-drop, arith,
}

pub data Outcome {ℓ} (A : Type ℓ) : Type ℓ where
  panic : Outcome A
  stuck : Outcome A
  reject : Outcome A
  ok : A → Outcome A

infixl 5 ◌>>=◌ ◌>>◌
abbrev pub ◌>>=◌ {ℓ κ} : {A : Type ℓ} {B : Type κ} → Outcome A → (A → Outcome B) → Outcome B
panic >>= f = panic
stuck >>= f = stuck
reject >>= f = reject
ok a >>= f = f a

abbrev pub ◌>>◌ {ℓ} : {B : Type ℓ} → Outcome (Unit {0}) → Outcome B → Outcome B
m >> k = m >>= λ _. k

-- `if test { return None; }`.
abbrev pub reject_if : Bool → Outcome (Unit {0})
reject_if true = reject
reject_if false = ok tt

-- `buf[i]`.
unfoldable pub index : List ℕ → ℕ → Outcome ℕ
index buf i = elim (get_elem? buf i) [ none ↦ panic | some b ↦ ok b ]

-- `u16::from_be_bytes([buf[i], buf[i + 1]])`.
unfoldable pub read_u16 : List ℕ → ℕ → Outcome ℕ
read_u16 buf i = do hi ← index buf i; lo ← index buf (i + 1); ok (hi * 256 + lo)

-- `&buf[i..j]`, with `i` at most `j`.
unfoldable pub slice : List ℕ → ℕ → ℕ → Outcome (List ℕ)
slice buf i j = if leb j (length buf) then ok (take (j - i) (drop i buf)) else panic

-- The run returns, and a value that it returns has the property.
abbrev pub Ensures {ℓ} : {A : Type ℓ} → (A → Type 0) → Outcome A → Type 0
Ensures P panic = ⊥
Ensures P stuck = ⊥
Ensures P reject = Unit {0}
Ensures P (ok a) = P a

pub Ensures->>= {ℓ κ} :
    {A : Type ℓ} {B : Type κ} (P : A → Type 0) (Q : B → Type 0) (m : Outcome A) (f : A → Outcome B)
    → Ensures P m
    → ((a : A) → P a → Ensures Q (f a))
    → Ensures Q (m >>= f)
Ensures->>= P Q panic f h k = absurd h
Ensures->>= P Q stuck f h k = absurd h
Ensures->>= P Q reject f h k = tt
Ensures->>= P Q (ok a) f h k = k a h

pub Ensures-weaken {ℓ} :
    {A : Type ℓ} (P Q : A → Type 0) (m : Outcome A)
    → Ensures P m
    → ((a : A) → P a → Q a)
    → Ensures Q m
Ensures-weaken P Q panic h k = h
Ensures-weaken P Q stuck h k = h
Ensures-weaken P Q reject h k = tt
Ensures-weaken P Q (ok a) h k = k a h

-- A last guard returns.
pub reject_if-Ensures : (test : Bool) → Ensures (λ _. Unit {0}) (reject_if test)
reject_if-Ensures true = tt
reject_if-Ensures false = tt

-- After a guard its test is false.
pub Ensures-reject_if {κ} :
    {B : Type κ} (Q : B → Type 0) (test : Bool) (rest : Outcome B)
    → (test ≡ false → Ensures Q rest)
    → Ensures Q (reject_if test >> rest)
Ensures-reject_if Q true rest k = tt
Ensures-reject_if Q false rest k = k refl

index_returns : (buf : List ℕ) (i : ℕ) → i < length buf → (b : ℕ) × (index buf i ≡ ok b)
unfolding index
index_returns buf i h = let (b, e) = get_elem?_lt buf i h in (b, rw (e, index))

read_u16_returns : (buf : List ℕ) (i : ℕ) → i + 1 < length buf → (n : ℕ) × (read_u16 buf i ≡ ok n)
unfolding read_u16
read_u16_returns buf i h =
    let (hi, e) = index_returns buf i (omega arith) in
    let (lo, d) = index_returns buf (i + 1) h in (hi * 256 + lo, rw (e, d))

-- A read in range returns.
pub Ensures-index {κ} :
    {B : Type κ} (Q : B → Type 0) (buf : List ℕ) (i : ℕ) (f : ℕ → Outcome B)
    → i < length buf
    → ((b : ℕ) → Ensures Q (f b))
    → Ensures Q (index buf i >>= f)
Ensures-index Q buf i f h k = let (b, e) = index_returns buf i h in rw e (k b)

pub Ensures-read_u16 {κ} :
    {B : Type κ} (Q : B → Type 0) (buf : List ℕ) (i : ℕ) (f : ℕ → Outcome B)
    → i + 1 < length buf
    → ((n : ℕ) → Ensures Q (f n))
    → Ensures Q (read_u16 buf i >>= f)
Ensures-read_u16 Q buf i f h k = let (n, e) = read_u16_returns buf i h in rw e (k n)

pub Ensures-slice {κ} :
    {B : Type κ} (Q : B → Type 0) (buf : List ℕ) (i j : ℕ) (f : List ℕ → Outcome B)
    → i ≤ j
    → j ≤ length buf
    → ((s : List ℕ) → length s ≡ j - i → Ensures Q (f s))
    → Ensures Q (slice buf i j >>= f)
unfolding slice
Ensures-slice Q buf i j f below h k =
    let in_range : leb j (length buf) ≡ true = ground arith in
    rw in_range (
      k (take (j - i) (drop i buf))
        (omega (arith, length-take (j - i) (drop i buf), length-drop i buf)))

-- From what a run ensures to the value that it returned.
pub Ensures-ok {ℓ} :
    {A : Type ℓ} (P : A → Type 0) (m : Outcome A) {a : A} → m ≡ ok a → Ensures P m → P a
Ensures-ok P m e h = rw e at h

-- A slice in range returns as many bytes as its bounds are apart.
pub slice-Ensures :
    (buf : List ℕ) (i j : ℕ)
    → i ≤ j
    → j ≤ length buf
    → Ensures (λ s. length s ≡ j - i) (slice buf i j)
unfolding slice
slice-Ensures buf i j below h =
    let in_range : leb j (length buf) ≡ true = ground arith in
    rw in_range (omega (arith, length-take (j - i) (drop i buf), length-drop i buf))

-- The run returns a value, and the value has the property.
abbrev pub Gives {ℓ} : {A : Type ℓ} → (A → Type 0) → Outcome A → Type 0
Gives P (ok a) = P a
Gives P _ = ⊥

pub Gives->>= {ℓ κ} :
    {A : Type ℓ} {B : Type κ} (P : A → Type 0) (Q : B → Type 0) (m : Outcome A) (f : A → Outcome B)
    → Gives P m
    → ((a : A) → P a → Gives Q (f a))
    → Gives Q (m >>= f)
Gives->>= P Q panic f h k = absurd h
Gives->>= P Q stuck f h k = absurd h
Gives->>= P Q reject f h k = absurd h
Gives->>= P Q (ok a) f h k = k a h

pub Gives-weaken {ℓ} :
    {A : Type ℓ} (P Q : A → Type 0) (m : Outcome A) → Gives P m → ((a : A) → P a → Q a) → Gives Q m
Gives-weaken P Q panic h k = h
Gives-weaken P Q stuck h k = h
Gives-weaken P Q reject h k = h
Gives-weaken P Q (ok a) h k = k a h

pub Gives-Ensures {ℓ} : {A : Type ℓ} (P : A → Type 0) (m : Outcome A) → Gives P m → Ensures P m
Gives-Ensures P panic h = h
Gives-Ensures P stuck h = h
Gives-Ensures P reject h = absurd h
Gives-Ensures P (ok a) h = h

pub slice_returns :
    (buf : List ℕ) (i j : ℕ) → j ≤ length buf → slice buf i j ≡ ok (take (j - i) (drop i buf))
unfolding slice
slice_returns buf i j h =
    let in_range : leb j (length buf) ≡ true = ground arith in rw in_range refl
