-- ===== src/Core/Semver/Order.antt =====
-- The laws of a three-way comparison, and the comparisons of texts and lists that keep to them.
use feature_flag_service.Common.{◌≡◌, refl, List, [], ◌∷◌, arith}
use feature_flag_service.Core.Semver.{Cmp, less, same, greater, cmp_nat, and_then, lex_compare}

abbrev pub flip : Cmp → Cmp
flip less = greater
flip same = same
flip greater = less

-- A comparison that puts the values in one line: `same` is congruent, and `less` transitive.
pub record IsOrder {ℓ} {A : Type ℓ} (c : A → A → Cmp) : Type ℓ where
  pub flips : (a b : A) → c b a ≡ flip (c a b)
  pub trans : (a b d : A) → c a b ≡ less → c b d ≡ less → c a d ≡ less
  pub congruent : (a b d : A) → c a b ≡ same → c a d ≡ c b d

-- `same` holds of equal values only.
abbrev pub Separates {ℓ} : {A : Type ℓ} → (A → A → Cmp) → Type ℓ
Separates {A} c = (a b : A) → c a b ≡ same → a ≡ b

pub cmp_nat-IsOrder : IsOrder cmp_nat
cmp_nat-IsOrder = record {
  flips = λ a b. ground arith;
  trans = λ a b d h k. ground arith;
  congruent = λ a b d h. ground arith;
}

pub cmp_nat-Separates : Separates cmp_nat
cmp_nat-Separates a b h = ground arith

-- The first comparison, and where it ties the second.
pub and_then-IsOrder {ℓ} :
    {A : Type ℓ} (c e : A → A → Cmp)
    → IsOrder c
    → IsOrder e
    → IsOrder (λ x y. and_then (c x y) (e x y))
and_then-IsOrder c e p q = record {
  flips = λ a b. ground (arith, p.flips a b, q.flips a b);
  trans = λ a b d h k. ground (
    arith,
    p.trans a b d,
    q.trans a b d,
    p.congruent a b d,
    p.congruent b d a,
    p.flips a b,
    p.flips b d,
    p.flips a d,
  );
  congruent = λ a b d h. ground (arith, p.congruent a b d, q.congruent a b d);
}

pub pullback-IsOrder {ℓ κ} :
    {A : Type ℓ} {B : Type κ} (f : B → A) (c : A → A → Cmp)
    → IsOrder c
    → IsOrder (λ x y. c (f x) (f y))
pullback-IsOrder f c p = record {
  flips = λ a b. p.flips (f a) (f b);
  trans = λ a b d. p.trans (f a) (f b) (f d);
  congruent = λ a b d. p.congruent (f a) (f b) (f d);
}

module _ {ℓ} {A : Type ℓ} (c : A → A → Cmp) (o : IsOrder c) where
  lex-flips : (xs ys : List A) → lex_compare c ys xs ≡ flip (lex_compare c xs ys)
  unfolding lex_compare
  lex-flips [] [] = refl
  lex-flips [] (y ∷ ys) = refl
  lex-flips (x ∷ xs) [] = refl
  lex-flips (x ∷ xs) (y ∷ ys) = ground (arith, o.flips x y, lex-flips xs ys)

  lex-congruent :
      (xs ys zs : List A) → lex_compare c xs ys ≡ same → lex_compare c xs zs ≡ lex_compare c ys zs
  unfolding lex_compare
  lex-congruent [] [] zs h = refl
  lex-congruent [] (y ∷ ys) zs h = absurd (cc)
  lex-congruent (x ∷ xs) [] zs h = absurd (cc)
  lex-congruent (x ∷ xs) (y ∷ ys) [] h = refl
  lex-congruent (x ∷ xs) (y ∷ ys) (z ∷ zs) h =
      ground (arith, o.congruent x y z, lex-congruent xs ys zs)

  lex_trans :
      (xs ys zs : List A)
      → lex_compare c xs ys ≡ less
      → lex_compare c ys zs ≡ less
      → lex_compare c xs zs ≡ less
  unfolding lex_compare
  lex_trans [] [] zs h k = absurd (cc)
  lex_trans [] (y ∷ ys) [] h k = absurd (cc)
  lex_trans [] (y ∷ ys) (z ∷ zs) h k = refl
  lex_trans (x ∷ xs) [] zs h k = absurd (cc)
  lex_trans (x ∷ xs) (y ∷ ys) [] h k = absurd (cc)
  lex_trans (x ∷ xs) (y ∷ ys) (z ∷ zs) h k = ground (
    arith,
    o.trans x y z,
    o.congruent x y z,
    o.congruent y z x,
    o.flips x y,
    o.flips y z,
    o.flips x z,
    lex_trans xs ys zs,
  )

  pub lex_compare-IsOrder : IsOrder (lex_compare c)
  lex_compare-IsOrder = record { flips = lex-flips; trans = lex_trans; congruent = lex-congruent }

pub lex_compare-Separates {ℓ} :
    {A : Type ℓ} (c : A → A → Cmp) → Separates c → Separates (lex_compare c)
unfolding lex_compare
lex_compare-Separates c s [] [] h = refl
lex_compare-Separates c s [] (y ∷ ys) h = absurd (cc)
lex_compare-Separates c s (x ∷ xs) [] h = absurd (cc)
lex_compare-Separates c s (x ∷ xs) (y ∷ ys) h =
    ground (arith, s x y, lex_compare-Separates c s xs ys)
