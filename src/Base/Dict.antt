-- ===== src/Base/Dict.antt =====
-- A map as an association list: what each call of `DashMap` returns and leaves. The order of the
-- list is the order in which the map iterates, which no theorem fixes.
use Prim.Native.Nat.{◌+◌}
use mathlib.Core.Path.{◌≡◌, refl, sym, subst}
use mathlib.Core.Logic.{◌≢◌, ite, if_pos, if_neg}
use mathlib.Core.List.{List, [], ◌∷◌}
use mathlib.Core.Option.{Option, none, some}
use mathlib.Core.Bool.{Bool, true, false}
use native.Mathlib.Omega.{arith}
use ferrous_dns.Base.Tests.{if◌then◌else◌}
use ferrous_dns.Base.Lists.{length, All}

module _ {ℓ} {K V : Type ℓ} (dec : Discrete K) where
  unfoldable pub get : K → List (K × V) → Option V
  get k [] = none
  get k ((j, v) ∷ m) = ite (dec j k) (some v) (get k m)

  -- What holds of every value of the map holds of the one that is found.
  pub get-All {κ} :
      (P : V → Type κ) (k : K) (v : V) (m : List (K × V))
      → All (λ e. P e.1) m
      → get k m ≡ some v
      → P v
  unfolding get
  get-All P k v [] h e = cc
  get-All P k v ((j, w) ∷ m) h e =
      elim (dec j k) as (λ d. ite d (some w) (get k m) ≡ some v → P v) [
        | yes _ ↦ λ found. let same : w ≡ v = cc in subst P same h.0
        | no _ ↦ λ found. get-All P k v m h.1 found
      ]
        e

  -- A new key goes to the end; a key that is there keeps its place.
  unfoldable pub insert : K → V → List (K × V) → List (K × V)
  insert k v [] = (k, v) ∷ []
  insert k v ((j, w) ∷ m) = ite (dec j k) ((k, v) ∷ m) ((j, w) ∷ insert k v m)

  unfoldable pub remove : K → List (K × V) → List (K × V)
  remove k [] = []
  remove k ((j, w) ∷ m) = ite (dec j k) (remove k m) ((j, w) ∷ remove k m)

  -- Every key stands once.
  abbrev pub IsDistinct : List (K × V) → Type ℓ
  IsDistinct [] = Unit {ℓ}
  IsDistinct ((k, v) ∷ m) = (get k m ≡ none) × IsDistinct m

  pub get-insert :
      (k j : K) (v : V) (m : List (K × V)) → get j (insert k v m) ≡ ite (dec k j) (some v) (get j m)
  unfolding get insert
  get-insert k j v [] = refl
  get-insert k j v ((i, w) ∷ m) = ground (arith, get-insert k j v m)

  pub get-insert_self : (k : K) (v : V) (m : List (K × V)) → get k (insert k v m) ≡ some v
  get-insert_self k v m = rw get-insert (if_pos (dec k k) refl _ _)

  pub get-insert_ne : (k j : K) (v : V) (m : List (K × V)) → k ≢ j → get j (insert k v m) ≡ get j m
  get-insert_ne k j v m h = rw get-insert (if_neg (dec k j) h _ _)

  pub insert-insert :
      (k : K) (v w : V) (m : List (K × V)) → insert k w (insert k v m) ≡ insert k w m
  unfolding insert
  insert-insert k v w [] = ground arith
  insert-insert k v w ((j, u) ∷ m) = ground (arith, insert-insert k v w m)

  pub get-remove : (k j : K) (m : List (K × V)) → get j (remove k m) ≡ ite (dec k j) none (get j m)
  unfolding get remove
  get-remove k j [] = ground arith
  get-remove k j ((i, w) ∷ m) = ground (arith, get-remove k j m)

  pub get-remove_self : (k : K) (m : List (K × V)) → get k (remove k m) ≡ none
  get-remove_self k m = rw get-remove (if_pos (dec k k) refl _ _)

  pub get-remove_ne : (k j : K) (m : List (K × V)) → k ≢ j → get j (remove k m) ≡ get j m
  get-remove_ne k j m h = rw get-remove (if_neg (dec k j) h _ _)

  pub remove_absent : (k : K) (m : List (K × V)) → get k m ≡ none → remove k m ≡ m
  unfolding get remove
  remove_absent k [] h = refl
  remove_absent k ((j, w) ∷ m) h = ground (arith, remove_absent k m)

  pub insert-IsDistinct :
      (k : K) (v : V) (m : List (K × V)) → IsDistinct m → IsDistinct (insert k v m)
  unfolding get insert
  insert-IsDistinct k v [] h = (refl, tt)
  insert-IsDistinct k v ((j, w) ∷ m) h = elim (dec j k) [
    | yes p ↦ rw (if_pos _ p) (rw p at h.0, h.1)
    | no p ↦
        rw (if_neg _ p)
          (rw (get-insert_ne k j v m (λ e. p (sym e))) h.0, insert-IsDistinct k v m h.1)
  ]

  pub length-insert :
      (k : K) (v : V) (m : List (K × V))
      → length (insert k v m) ≡ elim (get k m) [ none ↦ length m + 1 | some _ ↦ length m ]
  unfolding get insert
  length-insert k v [] = omega arith
  length-insert k v ((j, w) ∷ m) = ground (arith, length-insert k v m)

  pub remove-IsDistinct : (k : K) (m : List (K × V)) → IsDistinct m → IsDistinct (remove k m)
  unfolding get remove
  remove-IsDistinct k [] h = tt
  remove-IsDistinct k ((j, w) ∷ m) h = elim (dec j k) [
    | yes p ↦ rw (if_pos _ p) (remove-IsDistinct k m h.1)
    | no p ↦
        rw (if_neg _ p) (rw (get-remove_ne k j m (λ e. p (sym e))) h.0, remove-IsDistinct k m h.1)
  ]

  -- With distinct keys a removal that finds its key takes out one entry.
  pub length-remove :
      (k : K) (v : V) (m : List (K × V))
      → IsDistinct m
      → get k m ≡ some v
      → length (remove k m) + 1 ≡ length m
  unfolding get remove
  length-remove k v [] h e = cc
  length-remove k v ((j, w) ∷ m) h e = ground (arith, remove_absent k m, length-remove k v m h.1)

  -- `retain`: keeps the entries that the predicate accepts.
  unfoldable pub retain : (K → V → Bool) → List (K × V) → List (K × V)
  retain p [] = []
  retain p ((k, v) ∷ m) = if p k v then (k, v) ∷ retain p m else retain p m

  pub get-retain-none :
      (p : K → V → Bool) (k : K) (m : List (K × V)) → get k m ≡ none → get k (retain p m) ≡ none
  unfolding get retain
  get-retain-none p k [] h = refl
  get-retain-none p k ((j, v) ∷ m) h = ground (arith, get-retain-none p k m)

  pub get-retain_kept :
      (p : K → V → Bool) (k : K) (v : V) (m : List (K × V))
      → get k m ≡ some v
      → p k v ≡ true
      → get k (retain p m) ≡ some v
  unfolding get retain
  get-retain_kept p k v [] h t = cc
  get-retain_kept p k v ((j, w) ∷ m) h t = ground (arith, get-retain_kept p k v m)

  -- With distinct keys an entry that the predicate rejects is gone.
  pub get-retain_dropped :
      (p : K → V → Bool) (k : K) (v : V) (m : List (K × V))
      → IsDistinct m
      → get k m ≡ some v
      → p k v ≡ false
      → get k (retain p m) ≡ none
  unfolding get retain
  get-retain_dropped p k v [] d h t = cc
  get-retain_dropped p k v ((j, w) ∷ m) d h t =
      ground (arith, get-retain-none p k m, get-retain_dropped p k v m d.1)

  pub retain-IsDistinct :
      (p : K → V → Bool) (m : List (K × V)) → IsDistinct m → IsDistinct (retain p m)
  unfolding get retain
  retain-IsDistinct p [] h = tt
  retain-IsDistinct p ((k, v) ∷ m) h =
      ground (arith, get-retain-none p k m h.0, retain-IsDistinct p m h.1)
