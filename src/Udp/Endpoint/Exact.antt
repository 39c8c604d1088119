-- ===== src/Udp/Endpoint/Exact.antt =====
-- What `decode_endpoint` accepts is an encoding.
use quest_vd_wired.Common.{
  ℕ, ◌+◌, ◌-◌, ◌≡◌, ◌≤◌, ◌<◌, refl, true, some, List, [], ◌∷◌, ok, arith, length, take, drop,
  get_elem?, is_utf8, from_be16, AreBytes, IsByte, All-take, length-take, take_two_more,
  get_elem?-All, be16_of_bytes, suc, ◌⊎◌, inl, inr, sym, ap, ◌∙◌, Option-cases,
}
use quest_vd_wired.Udp.Endpoint.{
  Endpoint, socket_v4, socket_v6, domain, encode_endpoint, decode_ipv4, decode_ipv6, decode_domain,
  decode_endpoint,
}
use quest_vd_wired.Udp.Endpoint.RoundTrip.{IsEndpoint, Fits}

-- `e` was read from the first `n` bytes of `input`.
pub record ReadFrom (input : List ℕ) (e : Endpoint) (n : ℕ) : Type 0 where
  pub valid : IsEndpoint e
  pub fits : Fits e
  pub enough : n ≤ length input
  pub encoded : encode_endpoint e ≡ ok (take n input)

ipv4-ReadFrom :
    (r : List ℕ) (e : Endpoint) (n : ℕ)
    → AreBytes r
    → decode_ipv4 (1 ∷ r) ≡ ok (e, n)
    → ReadFrom (1 ∷ r) e n
unfolding decode_ipv4 encode_endpoint
ipv4-ReadFrom (a ∷ b ∷ c ∷ d ∷ p ∷ q ∷ r) (socket_v4 octets port) n hb h = record {
  valid = ground arith;
  fits = tt;
  enough = ground arith;
  encoded = ground (arith, be16_of_bytes p q port);
}
ipv4-ReadFrom r e n hb h = absurd (ground arith)

-- What the IPv6 branch read.
ipv6-parts :
    (input : List ℕ) (e : Endpoint) (n : ℕ)
    → decode_ipv6 input ≡ ok (e, n)
    → (19 ≤ length input)
      × (n ≡ 19)
      × ((p q : ℕ) × (get_elem? input 17 ≡ some p)
          × (get_elem? input 18 ≡ some q)
          × (e ≡ socket_v6 (take 16 (drop 1 input)) (from_be16 p q) 0 0))
unfolding decode_ipv6
ipv6-parts input e n h = elim (Option-cases (get_elem? input 17)) [
  | inl no_p ↦ absurd (ground arith)
  | inr (p, e₁) ↦ elim (Option-cases (get_elem? input 18)) [
    | inl no_q ↦ absurd (ground arith)
    | inr (q, e₂) ↦ (ground arith, ground arith, (p, q, e₁, e₂, ground arith))
  ]
]

ipv6-ReadFrom :
    (r : List ℕ) (e : Endpoint) (n : ℕ)
    → AreBytes r
    → decode_ipv6 (4 ∷ r) ≡ ok (e, n)
    → ReadFrom (4 ∷ r) e n
unfolding encode_endpoint
ipv6-ReadFrom r e n hb h =
    let (long, len, (p, q, e₁, e₂, shape)) = ipv6-parts (4 ∷ r) e n h in
    let bp : IsByte p = get_elem?-All IsByte r 16 hb e₁ in
    let bq : IsByte q = get_elem?-All IsByte r 17 hb e₂ in
    rw (shape, len)
      (record {
        valid = (omega (arith, length-take 16 r), All-take IsByte 16 r hb, omega arith);
        fits = (refl, refl);
        enough = long;
        encoded = ground (arith, be16_of_bytes p q (from_be16 p q), take_two_more 16 r e₁ e₂);
      })

-- What the domain branch read, and where.
module _ (k : ℕ) (r : List ℕ) where
  abbrev input : List ℕ
  input = 3 ∷ k ∷ r

  skip_two : (i : ℕ) → get_elem? input (2 + i) ≡ get_elem? r i
  skip_two i = ap (get_elem? input) {x = 2 + i} {y = suc (suc i)} (omega arith)

  domain-parts :
      (e : Endpoint) (n p q : ℕ)
      → decode_domain input ≡ ok (e, n)
      → get_elem? input (2 + k) ≡ some p
      → get_elem? input (2 + k + 1) ≡ some q
      → (0 < k)
        × (k ≤ 255)
        × (k + 2 ≤ length r)
        × (n ≡ k + 4)
        × (is_utf8 (take k r) ≡ true)
        × (e ≡ domain (take k r) (from_be16 p q))
  unfolding decode_domain
  domain-parts e n p q h e₁ e₂ =
      let t : take (2 + k - 2) r ≡ take k r =
        ap (λ m. take m r) {x = 2 + k - 2} {y = k} (omega arith) in
      ground arith

  domain-ReadFrom :
      (e : Endpoint) (n p q : ℕ)
      → AreBytes r
      → decode_domain input ≡ ok (e, n)
      → get_elem? input (2 + k) ≡ some p
      → get_elem? input (2 + k + 1) ≡ some q
      → ReadFrom input e n
  unfolding encode_endpoint
  domain-ReadFrom e n p q hb h e₁ e₂ =
      let (low, high, long, len, utf8, shape) = domain-parts e n p q h e₁ e₂ in
      let f₁ : get_elem? r k ≡ some p = sym (skip_two k) ∙ e₁ in
      let f₂ : get_elem? r (k + 1) ≡ some q =
        sym (skip_two (k + 1))
        ∙ ap (get_elem? input) {x = 2 + (k + 1)} {y = 2 + k + 1} (omega arith)
        ∙ e₂ in
      let bp : IsByte p = get_elem?-All IsByte r k hb f₁ in
      let bq : IsByte q = get_elem?-All IsByte r (k + 1) hb f₂ in
      let size : length (take k r) ≡ k = omega (arith, length-take k r) in
      let front : take (k + 4) input ≡ 3 ∷ k ∷ take (k + 2) r =
        ap (λ m. take m input) {x = k + 4} {y = suc (suc (k + 2))} (omega arith) in
      rw (shape, len)
        (record {
          valid = (utf8, All-take IsByte k r hb, omega arith);
          fits = (omega arith, omega arith);
          enough = omega arith;
          encoded = ground (arith, be16_of_bytes p q (from_be16 p q), take_two_more k r f₁ f₂);
        })

decode_endpoint-branches :
    (a : ℕ) (r : List ℕ) (e : Endpoint) (n : ℕ)
    → decode_endpoint (a ∷ r) ≡ ok (e, n)
    → ((a ≡ 1) × (decode_ipv4 (a ∷ r) ≡ ok (e, n)))
      ⊎ ((a ≡ 4) × (decode_ipv6 (a ∷ r) ≡ ok (e, n)))
      ⊎ ((a ≡ 3) × (decode_domain (a ∷ r) ≡ ok (e, n)))
unfolding decode_endpoint
decode_endpoint-branches a r e n h = ground arith

no_domain :
    (r : List ℕ) (e : Endpoint) (n : ℕ)
    → decode_domain (3 ∷ r) ≡ ok (e, n)
    → (k : ℕ) × (s : List ℕ) × (r ≡ k ∷ s)
unfolding decode_domain
no_domain [] e n h = absurd (ground arith)
no_domain (k ∷ s) e n h = (k, s, refl)

domain_bytes :
    (k : ℕ) (r : List ℕ) (e : Endpoint) (n : ℕ)
    → decode_domain (3 ∷ k ∷ r) ≡ ok (e, n)
    → (p q : ℕ) × (get_elem? (3 ∷ k ∷ r) (2 + k) ≡ some p)
      × (get_elem? (3 ∷ k ∷ r) (2 + k + 1) ≡ some q)
unfolding decode_domain
domain_bytes k r e n h = elim (Option-cases (get_elem? (3 ∷ k ∷ r) (2 + k))) [
  | inl no_p ↦ absurd (ground arith)
  | inr (p, e₁) ↦ elim (Option-cases (get_elem? (3 ∷ k ∷ r) (2 + k + 1))) [
    | inl no_q ↦ absurd (ground arith)
    | inr (q, e₂) ↦ (p, q, e₁, e₂)
  ]
]

domain_any :
    (r : List ℕ) (e : Endpoint) (n : ℕ)
    → AreBytes r
    → decode_domain (3 ∷ r) ≡ ok (e, n)
    → ReadFrom (3 ∷ r) e n
domain_any [] e n hb h = let (k, s, q) = no_domain [] e n h in cc
domain_any (k ∷ r) e n (hk, hb) h =
    let (p, q, e₁, e₂) = domain_bytes k r e n h in domain-ReadFrom k r e n p q hb h e₁ e₂

-- Whatever `decode_endpoint` reads from bytes is an endpoint that the encoding can hold, and the
-- bytes that it counts as consumed are exactly that endpoint's encoding.
pub decode_endpoint-ReadFrom :
    (input : List ℕ) (e : Endpoint) (n : ℕ)
    → AreBytes input
    → decode_endpoint input ≡ ok (e, n)
    → ReadFrom input e n
decode_endpoint-ReadFrom [] e n hb h = absurd (unfold decode_endpoint in ground arith)
decode_endpoint-ReadFrom (a ∷ r) e n (ha, hb) h = elim (decode_endpoint-branches a r e n h) [
  | inl (v4, d) ↦ rw v4 (ipv4-ReadFrom r e n hb (rw v4 at d))
  | inr (inl (v6, d)) ↦ rw v6 (ipv6-ReadFrom r e n hb (rw v6 at d))
  | inr (inr (dm, d)) ↦ rw dm (domain_any r e n hb (rw dm at d))
]
