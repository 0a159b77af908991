-- ===== src/CacheHit/Writes.antt =====
-- Writes one after the other fill a prefix of the buffer with their bytes.
use ferrous_dns.Base.{
  append_assoc, append-nil, ℕ, ◌+◌, ◌-◌, ◌%◌, ◌^◌, ◌≤◌, ◌≡◌, refl, sym, ◌∙◌, Bool, true, false,
  ◌&&◌, leb, ◌==◌, Option, none, some, List, [], ◌∷◌, ◌++◌, length, take, drop, arith,
  length-append, length-drop, take-append,
}
use ferrous_dns.Base.Octets.{to_octets, length-to_octets}
use mathlib.Core.Path.{subst}
use ferrous_dns.Ip.{IpAddr}
use ferrous_dns.FastPath.Outcome.{Outcome, ok, ◌>>=◌, Gives, Gives->>=}
use ferrous_dns.FastPath.Options.{cookie_option_code}
use ferrous_dns.CacheHit.{
  response_buf_len, copy_to, address_rr_len, class_in, record_type, record_len, octets,
  write_address_rr, write_addresses, answers_size, opt_head, opt_record, opt_size,
  write_fast_path_opt, write_opt_if,
}

-- The first `n` bytes of a response buffer are `bytes`.
abbrev pub Wrote : ℕ → List ℕ → List ℕ → Type 0
Wrote n bytes out = (take n out ≡ bytes) × ((length out ≡ response_buf_len) × (length bytes ≡ n))

take_more :
    (done bytes rest : List ℕ) (n : ℕ)
    → length done + length bytes ≡ n
    → take n (done ++ (bytes ++ rest)) ≡ done ++ bytes
take_more done bytes rest n e =
    let count : n ≡ length (done ++ bytes) = omega (arith, e, length-append done bytes) in
    rw (count, sym (append_assoc done bytes rest)) (take-append (done ++ bytes) rest)

copy_to-Wrote :
    (out done bytes : List ℕ) (i j : ℕ)
    → Wrote i done out
    → i + length bytes ≡ j
    → j ≤ response_buf_len
    → (out' : List ℕ) × ((copy_to out i j bytes ≡ ok out') × Wrote j (done ++ bytes) out')
unfolding copy_to
copy_to-Wrote out done bytes i j (e, (l, d)) h k = (
  done ++ (bytes ++ drop j out),
  (
    copies,
    (
      take_more done bytes (drop j out) j (omega (arith, d, h)),
      (
        omega (
          arith,
          l,
          d,
          h,
          k,
          length-append done (bytes ++ drop j out),
          length-append bytes (drop j out),
          length-drop j out,
        ),
        omega (arith, d, h, length-append done bytes),
      ),
    ),
  ),
)
  where
    fits : (leb i j && (leb j (length out) && length bytes == j - i)) ≡ true
    fits = ground arith

    copies : copy_to out i j bytes ≡ ok (done ++ (bytes ++ drop j out))
    copies = rw (copy_to, fits, e) refl

-- A write in range returns, and what follows it runs on a longer prefix.
pub Gives-copy_to {κ} :
    {B : Type κ} (Q : B → Type 0) (out done bytes : List ℕ) (i j : ℕ) (f : List ℕ → Outcome B)
    → Wrote i done out
    → i + length bytes ≡ j
    → j ≤ response_buf_len
    → ((out' : List ℕ) → Wrote j (done ++ bytes) out' → Gives Q (f out'))
    → Gives Q (copy_to out i j bytes >>= f)
Gives-copy_to Q out done bytes i j f w h k g =
    let (out', (e, w')) = copy_to-Wrote out done bytes i j w h k in rw e (g out' w')

-- The bytes of a record, of the OPT, and of the answers.
abbrev pub record_bytes : ℕ → IpAddr → List ℕ
record_bytes ttl addr =
    0xC0
    ∷ 0x0C
    ∷ (to_octets 2 (record_type addr)
        ++ (to_octets 2 class_in
            ++ (to_octets 4 ttl ++ (to_octets 2 (record_len addr) ++ octets addr))))

abbrev pub answer_bytes : ℕ → List IpAddr → List ℕ
answer_bytes ttl [] = []
answer_bytes ttl (addr ∷ addresses) = record_bytes ttl addr ++ answer_bytes ttl addresses

abbrev pub opt_bytes : Bool → Option (List ℕ) → List ℕ
opt_bytes false cookie = []
opt_bytes true none = opt_record
opt_bytes true (some cookie) =
    opt_head ((4 + length cookie) % 2 ^ 16)
    ++ (to_octets 2 cookie_option_code ++ (to_octets 2 (length cookie % 2 ^ 16) ++ cookie))

-- The buffer after, with the position after, has the bytes in addition.
abbrev pub Adds : ℕ → List ℕ → List ℕ × ℕ → Type 0
Adds n bytes (out, pos) = (pos ≡ n) × Wrote n bytes out

pub Wrote-equal :
    (n : ℕ) (out bytes bytes' : List ℕ) → bytes ≡ bytes' → Wrote n bytes out → Wrote n bytes' out
Wrote-equal n out bytes bytes' e w = subst (λ b. Wrote n b out) e w

flat3 : (d a b c : List ℕ) → ((d ++ a) ++ b) ++ c ≡ d ++ (a ++ (b ++ c))
flat3 d a b c = append_assoc (d ++ a) b c ∙ append_assoc d a (b ++ c)

flat4 : (x a b c d : List ℕ) → (((x ++ a) ++ b) ++ c) ++ d ≡ x ++ (a ++ (b ++ (c ++ d)))
flat4 x a b c d = append_assoc ((x ++ a) ++ b) c d ∙ flat3 x a b (c ++ d)

pub flat6 :
    (x a b c d e f : List ℕ)
    → (((((x ++ a) ++ b) ++ c) ++ d) ++ e) ++ f ≡ x ++ (a ++ (b ++ (c ++ (d ++ (e ++ f)))))
flat6 x a b c d e f =
    flat3 (((x ++ a) ++ b) ++ c) d e f
    ∙ append_assoc ((x ++ a) ++ b) c (d ++ (e ++ f))
    ∙ flat3 x a b (c ++ (d ++ (e ++ f)))

len_range : (addr : IpAddr) → 16 ≤ address_rr_len addr
len_range (IpAddr.v4 bits) = omega arith
len_range (IpAddr.v6 bits) = omega arith

len_sum : (addr : IpAddr) → 12 + record_len addr ≡ address_rr_len addr
len_sum (IpAddr.v4 bits) = refl
len_sum (IpAddr.v6 bits) = refl

length-octets : (addr : IpAddr) → length (octets addr) ≡ record_len addr
length-octets (IpAddr.v4 bits) = length-to_octets 4 bits
length-octets (IpAddr.v6 bits) = length-to_octets 16 bits

write_address_rr-Adds :
    (out done : List ℕ) (pos : ℕ) (addr : IpAddr) (ttl : ℕ)
    → Wrote pos done out
    → pos + address_rr_len addr ≤ response_buf_len
    → Gives
        (λ (r : List ℕ × ℕ).
          (pos + r.1 ≡ pos + address_rr_len addr)
          × Wrote (pos + address_rr_len addr) (done ++ record_bytes ttl addr) r.0)
        (write_address_rr out pos addr ttl)
unfolding write_address_rr
write_address_rr-Adds out done pos addr ttl w h =
    let bound : pos + 16 ≤ response_buf_len = omega (arith, h, len_range addr) in
    let Q = λ (r : List ℕ × ℕ).
      (pos + r.1 ≡ pos + address_rr_len addr)
      × Wrote (pos + address_rr_len addr) (done ++ record_bytes ttl addr) r.0 in
    Gives-copy_to Q out done _ pos (pos + 2) _ w refl (omega arith) λ o1 w1.
      Gives-copy_to Q o1 _ (to_octets 2 (record_type addr)) (pos + 2) (pos + 4) _ w1 (omega arith)
        (omega arith)
        λ o2 w2.
          Gives-copy_to Q o2 _ (to_octets 2 class_in) (pos + 4) (pos + 6) _ w2 (omega arith)
            (omega arith)
            λ o3 w3.
              Gives-copy_to Q o3 _ (to_octets 4 ttl) (pos + 6) (pos + 10) _ w3 (omega arith)
                (omega arith)
                λ o4 w4.
                  Gives-copy_to Q o4 _ (to_octets 2 (record_len addr)) (pos + 10) (pos + 12) _ w4
                    (omega arith) (omega arith)
                    λ o5 w5.
                      Gives-copy_to Q o5 _ (octets addr) (pos + 12) (pos + address_rr_len addr) _ w5
                        (omega (arith, length-octets addr, len_sum addr)) h
                        λ o6 w6. (
                          omega (arith, len_sum addr),
                          Wrote-equal _ _ _ _
                              (flat6 done (0xC0 ∷ 0x0C ∷ []) (to_octets 2 (record_type addr))
                                (to_octets 2 class_in) (to_octets 4 ttl)
                                (to_octets 2 (record_len addr)) (octets addr))
                              w6,
                        )

pub write_addresses-Adds :
    (addresses : List IpAddr) (out done : List ℕ) (pos ttl : ℕ)
    → Wrote pos done out
    → pos + answers_size addresses ≤ response_buf_len
    → Gives
        (Adds (pos + answers_size addresses) (done ++ answer_bytes ttl addresses))
        (write_addresses out pos addresses ttl)
unfolding write_addresses
write_addresses-Adds [] out done pos ttl w h =
    let e : pos ≡ pos + 0 = omega arith in (e, rw (append-nil done, sym e) w)
write_addresses-Adds (addr ∷ addresses) out done pos ttl w h =
    Gives->>= _ _ (write_address_rr out pos addr ttl) _
      (write_address_rr-Adds out done pos addr ttl w (omega (arith, h)))
      λ r s.
        let next = pos + address_rr_len addr in
        let total : next + answers_size addresses
            ≡ pos + (address_rr_len addr + answers_size addresses) =
          omega arith in
        rw s.0 (
          rw⁻¹ (total, append_assoc done (record_bytes ttl addr) (answer_bytes ttl addresses))
            (write_addresses-Adds addresses r.0 (done ++ record_bytes ttl addr) next ttl s.1
              (omega (arith, h))))

write_fast_path_opt-Adds :
    (cookie : Option (List ℕ)) (out done : List ℕ) (pos : ℕ)
    → Wrote pos done out
    → pos + opt_size true cookie ≤ response_buf_len
    → Gives
        (λ (r : List ℕ × ℕ).
          (pos + r.1 ≡ pos + opt_size true cookie)
          × Wrote (pos + opt_size true cookie) (done ++ opt_bytes true cookie) r.0)
        (write_fast_path_opt out pos cookie)
unfolding write_fast_path_opt
write_fast_path_opt-Adds none out done pos w h =
    Gives-copy_to _ out done opt_record pos (pos + 11) _ w refl h λ o1 w1. (refl, w1)
write_fast_path_opt-Adds (some cookie) out done pos w h =
    let Q = λ (r : List ℕ × ℕ).
      (pos + r.1 ≡ pos + opt_size true (some cookie))
      × Wrote (pos + opt_size true (some cookie)) (done ++ opt_bytes true (some cookie)) r.0 in
    Gives-copy_to Q out done (opt_head ((4 + length cookie) % 2 ^ 16)) pos (pos + 11) _ w refl
      (omega (arith, h))
      λ o1 w1.
        Gives-copy_to Q o1 _ (to_octets 2 cookie_option_code) (pos + 11) (pos + 13) _ w1
          (omega arith) (omega (arith, h))
          λ o2 w2.
            Gives-copy_to Q o2 _ (to_octets 2 (length cookie % 2 ^ 16)) (pos + 13) (pos + 15) _ w2
              (omega arith) (omega (arith, h))
              λ o3 w3.
                Gives-copy_to Q o3 _ cookie (pos + 15) (pos + 15 + length cookie) _ w3 refl
                  (omega (arith, h))
                  λ o4 w4.
                    let end : pos + 15 + length cookie ≡ pos + opt_size true (some cookie) =
                      omega arith in
                    (
                      refl,
                      subst (λ n. Wrote n (done ++ opt_bytes true (some cookie)) o4) end
                          (Wrote-equal _ _ _ _
                            (flat4 done (opt_head ((4 + length cookie) % 2 ^ 16))
                              (to_octets 2 cookie_option_code)
                              (to_octets 2 (length cookie % 2 ^ 16)) cookie)
                            w4),
                    )

pub write_opt_if-Adds :
    (edns : Bool) (cookie : Option (List ℕ)) (out done : List ℕ) (pos : ℕ)
    → Wrote pos done out
    → pos + opt_size edns cookie ≤ response_buf_len
    → Gives
        (Adds (pos + opt_size edns cookie) (done ++ opt_bytes edns cookie))
        (write_opt_if edns out pos cookie)
unfolding write_opt_if
write_opt_if-Adds false cookie out done pos w h =
    let e : pos ≡ pos + 0 = omega arith in (e, rw (append-nil done, sym e) w)
write_opt_if-Adds true cookie out done pos w h =
    Gives->>= _ _ (write_fast_path_opt out pos cookie) _
      (write_fast_path_opt-Adds cookie out done pos w h) λ r s. s
