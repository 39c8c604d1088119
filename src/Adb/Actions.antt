-- ===== src/Adb/Actions.antt =====
-- Fallible calls that change the world: each gives a result and the world after it.
use quest_vd_wired.Common.{◌≡◌, ◌⊎◌, inl, inr, refl, arith}

pub data Result (E A : Type 0) : Type 0 where
  ok : A → Result E A
  err : E → Result E A

abbrev pub Act : Type 0 → Type 0 → Type 0 → Type 0
Act W E A = W → Result E A × W

-- `?`
abbrev pub and_then : {W E A B : Type 0} → Result E A × W → (A → Act W E B) → Result E B × W
and_then (ok a, w) f = f a w
and_then (err e, w) f = (err e, w)

infixl 5 ◌>>=◌ ◌>>◌
abbrev pub ◌>>=◌ : {W E A B : Type 0} → Act W E A → (A → Act W E B) → Act W E B
◌>>=◌ m f w = and_then (m w) f

abbrev pub ◌>>◌ : {W E A B : Type 0} → Act W E A → Act W E B → Act W E B
m >> k = m >>= λ _. k

abbrev pub pure : {W E A : Type 0} → A → Act W E A
pure a w = (ok a, w)

abbrev pub raise : {W E A : Type 0} → E → Act W E A
raise e w = (err e, w)

-- The result as a value, for a `match` on it.
abbrev pub attempt : {W E F A : Type 0} → Act W E A → Act W F (Result E A)
attempt m w = let (r, w') = m w in (ok r, w')

abbrev pub with_error : {W E F A : Type 0} → (E → F) → Result E A × W → Result F A × W
with_error f (ok a, w) = (ok a, w)
with_error f (err e, w) = (err (f e), w)

abbrev pub map_err : {W E F A : Type 0} → (E → F) → Act W E A → Act W F A
map_err f m w = with_error f (m w)

module _ {W E A : Type 0} where
  -- A chain that succeeds: the first call did, and the rest did in the world that it left.
  pub and_then-ok :
      {B : Type 0} (q : Result E A × W) (f : A → Act W E B) (b : B)
      → (and_then q f).0 ≡ ok b
      → (a : A) × (q.0 ≡ ok a) × ((f a q.1).0 ≡ ok b) × (and_then q f ≡ f a q.1)
  and_then-ok (ok a, w) f b h = (a, refl, h, refl)
  and_then-ok (err e, w) f b h = absurd (ground arith)

  -- A chain that fails: the first call did, or the rest.
  pub and_then-err :
      {B : Type 0} (q : Result E A × W) (f : A → Act W E B) (e : E)
      → (and_then q f).0 ≡ err e
      → (q ≡ (err e, q.1)) × ((and_then q f).1 ≡ q.1)
        ⊎ ((a : A) × (q.0 ≡ ok a) × ((f a q.1).0 ≡ err e) × (and_then q f ≡ f a q.1))
  and_then-err (ok a, w) f e h = inr (a, refl, h, refl)
  and_then-err (err x, w) f e h = inl (ground arith, refl)

  pub with_error-ok :
      {F : Type 0} (f : E → F) (q : Result E A × W) (a : A)
      → (with_error f q).0 ≡ ok a
      → (q.0 ≡ ok a) × ((with_error f q).1 ≡ q.1)
  with_error-ok f (ok x, w) a h = (ground arith, refl)
  with_error-ok f (err e, w) a h = absurd (ground arith)

  pub with_error-err :
      {F : Type 0} (f : E → F) (q : Result E A × W) (x : F)
      → (with_error f q).0 ≡ err x
      → (e : E) × (q.0 ≡ err e) × (x ≡ f e) × ((with_error f q).1 ≡ q.1)
  with_error-err f (ok a, w) x h = absurd (ground arith)
  with_error-err f (err e, w) x h = (e, refl, ground arith, refl)

pub ok-injective : {E A : Type 0} {a b : A} → ◌≡◌ {A = Result E A} (ok a) (ok b) → a ≡ b
ok-injective h = cc
