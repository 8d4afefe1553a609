-- ===== src/Node/Finishes.antt =====
-- When an action comes to its end with a value.
use mathlib.Core.Path.{subst}
use subtrate.Base.{◌≡◌, refl, sym, ◌∙◌, ap, ◌≢◌, Bool, true, false, Option, none, some, List}
use subtrate.Frame.Dispatch.{Result, ok}
use subtrate.Node.Effects.{
  Outcome, done, Act, pure, lift, attempt, ok_or, expect, emit, when, continue, ◌>>=◌,
}

pub record Finishes {F E A : Type 0} (m : Act F E A) : Type 0 where
  pub at : (l : List F) → (a : A) × ((m l).0 ≡ done a)

module _ {F E A : Type 0} where
  pub Finishes-pure : (a : A) → Finishes {F = F} {E = E} (pure a)
  Finishes-pure a = record { at = λ l. (a, refl) }

  pub Finishes-lift :
      {X : Type 0} (wrap : X → E) (r : Result X A)
      → (a : A) × (r ≡ ok a)
      → Finishes {F = F} (lift wrap r)
  Finishes-lift wrap r (a, e) =
      subst (λ r. Finishes {F = F} (lift wrap r)) (sym e) (Finishes-pure a)

  pub Finishes-attempt :
      {X : Type 0} (wrap : X → E) (r : Outcome X A)
      → (a : A) × (r ≡ done a)
      → Finishes {F = F} (attempt wrap r)
  Finishes-attempt wrap r (a, e) =
      subst (λ r. Finishes {F = F} (attempt wrap r)) (sym e) (Finishes-pure a)

  pub Finishes-ok_or :
      (o : Option A) (e : E) → (a : A) × (o ≡ some a) → Finishes {F = F} (ok_or o e)
  Finishes-ok_or o e (a, p) = subst (λ o. Finishes {F = F} (ok_or o e)) (sym p) (Finishes-pure a)

  pub Finishes-expect : (o : Option A) → o ≢ none → Finishes {F = F} {E = E} (expect o)
  Finishes-expect none n = elim (n refl) [ ]
  Finishes-expect (some a) n = Finishes-pure a

module _ {F E : Type 0} where
  pub Finishes-emit : (f : F) → Finishes {E = E} (emit f)
  Finishes-emit f = record { at = λ l. (tt, refl) }

  pub Finishes-when :
      (b : Bool) (m : Act F E (Unit {0})) → (b ≡ true → Finishes m) → Finishes (when b m)
  Finishes-when true m fm = fm refl
  Finishes-when false m fm = Finishes-pure tt

module _ {F E A B : Type 0} where
  -- The rest of a block may use what `m` returned.
  pub Finishes-bind_done :
      (m : Act F E A) (f : A → Act F E B)
      → Finishes m
      → ((a : A) (l : List F) → (m l).0 ≡ done a → Finishes (f a))
      → Finishes (m >>= f)
  Finishes-bind_done m f fm ff = record {
    at = λ l.
        let (a, e) = fm.at l in
        let (b, e') = (ff a l e).at (m l).1 in (b, ap (λ r. (continue r f (m l).1).0) e ∙ e');
  }

  pub Finishes-bind :
      (m : Act F E A) (f : A → Act F E B)
      → Finishes m
      → ((a : A) → Finishes (f a))
      → Finishes (m >>= f)
  Finishes-bind m f fm ff = Finishes-bind_done m f fm (λ a l e. ff a)

pub ruleset finishes_rules = (
  Finishes-pure, Finishes-lift, Finishes-attempt, Finishes-ok_or, Finishes-emit, Finishes-when,
  Finishes-bind,
)
