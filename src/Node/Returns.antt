-- ===== src/Node/Returns.antt =====
-- What an action of the node (node/src) returns, when it returns.
use mathlib.Core.Path.{subst}
use subtrate.Base.{arith, ◌≡◌, refl, ap, List}
use subtrate.Frame.Dispatch.{Result, ok, err}
use subtrate.Node.Effects.{Outcome, done, failed, panicked, Act, pure, lift, continue, ◌>>=◌}

done-injective : {E A : Type 0} {a b : A} → Path (Outcome E A) (done a) (done b) → a ≡ b
done-injective {E} {A} {a} p =
    ap {A = Outcome E A} (λ r. elim r [ done x ↦ x | failed e ↦ a | panicked ↦ a ]) p

-- What an action returns, if it returns, satisfies `R`.
pub record Returns {F E A : Type 0} (R : A → Type 0) (m : Act F E A) : Type 0 where
  pub holds : (l : List F) (a : A) → (m l).0 ≡ done a → R a

module _ {F E A : Type 0} {R : A → Type 0} where
  pub Returns-pure : (a : A) → R a → Returns {F = F} {E = E} R (pure a)
  Returns-pure a h = record { holds = λ l b e. subst R (done-injective e) h }

module _ {F E A B : Type 0} {R : B → Type 0} where
  Returns-continue :
      (r : Outcome E A) (f : A → Act F E B)
      → ((a : A) → r ≡ done a → Returns R (f a))
      → Returns R (continue r f)
  Returns-continue (done a) f rf = rf a refl
  Returns-continue (failed e) f rf = record { holds = λ l b h. absurd (ground arith) }
  Returns-continue panicked f rf = record { holds = λ l b h. absurd (ground arith) }

  pub Returns-bind :
      (m : Act F E A) (f : A → Act F E B) → ((a : A) → Returns R (f a)) → Returns R (m >>= f)
  Returns-bind m f rf = record {
    holds = λ l b h. (Returns-continue (m l).0 f (λ a _. rf a)).holds (m l).1 b h;
  }

  -- The rest of a block may use what a library has returned.
  pub Returns-bind_lift :
      {X : Type 0} (wrap : X → E) (r : Result X A) (f : A → Act F E B)
      → ((a : A) → r ≡ ok a → Returns R (f a))
      → Returns R (lift wrap r >>= f)
  Returns-bind_lift wrap (ok a) f rf = record { holds = λ l b h. (rf a refl).holds l b h }
  Returns-bind_lift wrap (err x) f rf = record { holds = λ l b h. absurd (ground arith) }
