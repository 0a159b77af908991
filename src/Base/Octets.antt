-- ===== src/Base/Octets.antt =====
-- `to_be_bytes` and `octets`: the bytes of a number, the most significant first.
use Prim.Native.Nat.{ℕ, zero, suc, ◌/◌, ◌%◌}
use mathlib.Core.Path.{◌≡◌, refl, ◌∙◌}
use mathlib.Core.List.{List, [], ◌∷◌, ◌++◌}
use native.Mathlib.Omega.{arith}
use ferrous_dns.Base.Lists.{length, length-append}

abbrev pub to_octets : ℕ → ℕ → List ℕ
to_octets zero bits = []
to_octets (suc n) bits = to_octets n (bits / 256) ++ (bits % 256 ∷ [])

pub length-to_octets : (n bits : ℕ) → length (to_octets n bits) ≡ n
length-to_octets zero bits = refl
length-to_octets (suc n) bits =
    length-append (to_octets n (bits / 256)) (bits % 256 ∷ [])
    ∙ omega (arith, length-to_octets n (bits / 256))
