-- ===== src/Keycloak/Gives.antt =====
-- Rules for the client's calls: what they keep of the client, and what they answer.
use kc_jit_public.Base.{◌≡◌, refl, Result, ok, err, arith}
use kc_jit_public.Keycloak.{Client, Call, after, ◌>>=◌, pure}

-- The call keeps a condition on the client, and what it gives meets another.
pub record Gives {A : Type 0} (P : Client → Type 0) (Q : A → Type 0) (m : Call A) : Type 0 where
  pub keeps : (c : Client) → P c → P (m c).1
  pub gives : (c : Client) (a : A) → P c → (m c).0 ≡ ok a → Q a

module _ (P : Client → Type 0) where
  module _ {A B : Type 0} (Q : A → Type 0) (R : B → Type 0) where
    after-keeps :
        (f : A → Call B) (r : Result A) (c : Client)
        → P c
        → ((a : A) → r ≡ ok a → Q a)
        → ((a : A) → Q a → Gives P R (f a))
        → P (after f r c).1
    after-keeps f (ok a) c p q g = (g a (q a refl)).keeps c p
    after-keeps f (err m) c p q g = p

    after-gives :
        (f : A → Call B) (r : Result A) (c : Client) (b : B)
        → P c
        → ((a : A) → r ≡ ok a → Q a)
        → ((a : A) → Q a → Gives P R (f a))
        → (after f r c).0 ≡ ok b
        → R b
    after-gives f (ok a) c b p q g e = (g a (q a refl)).gives c b p e
    after-gives f (err m) c b p q g e = absurd (ground arith)

    pub Gives-bind :
        (m : Call A) (f : A → Call B)
        → Gives P Q m
        → ((a : A) → Q a → Gives P R (f a))
        → Gives P R (m >>= f)
    Gives-bind m f g k = record {
      keeps = λ c p. after-keeps f (m c).0 (m c).1 (g.keeps c p) (λ a. g.gives c a p) k;
      gives = λ c b p. after-gives f (m c).0 (m c).1 b (g.keeps c p) (λ a. g.gives c a p) k;
    }

  pub Gives-pure :
      {A : Type 0} (Q : A → Type 0) (r : Result A) → ((a : A) → r ≡ ok a → Q a) → Gives P Q (pure r)
  Gives-pure Q r q = record { keeps = λ c p. p; gives = λ c a p. q a }

pub Gives-weaken :
    {P : Client → Type 0} {A : Type 0} (Q R : A → Type 0) (m : Call A)
    → ((a : A) → Q a → R a)
    → Gives P Q m
    → Gives P R m
Gives-weaken Q R m k g = record { keeps = g.keeps; gives = λ c a p e. k a (g.gives c a p e) }
