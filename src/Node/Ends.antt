-- ===== src/Node/Ends.antt =====
-- How an action ends, when what comes before its end starts little and does not panic.
use mathlib.Core.List.{append_assoc, append-nil}
use mathlib.Core.Path.{subst}
use subtrate.Base.{◌≡◌, refl, sym, ap, ◌∙◌, Option, none, some, List, [], ◌++◌}
use subtrate.Node.Effects.{
  Outcome, done, failed, panicked, continue, Act, attempt, raise, ok_or, ◌>>=◌,
}
use subtrate.Node.Emits.{All, Emits}

-- What an action adds to the log, and its outcome, satisfy `R`.
pub record Ends {F E A : Type 0} (R : Outcome E A × List F → Type 0) (m : Act F E A) : Type 0 where
  pub at : (l : List F) → (new : List F) × ((m l).1 ≡ new ++ l) × R ((m l).0, new)

pub Ends-log :
    {F E A : Type 0} {R : Outcome E A × List F → Type 0} (m : Act F E A) → Ends R m → R (m [])
Ends-log {R} m em =
    let (new, e, ends) = em.at [] in subst (λ l. R ((m []).0, l)) (sym (e ∙ append-nil new)) ends

-- A call whose outcome is known.
pub Ends-bind_done :
    {F E A B X : Type 0} {R : Outcome E A × List F → Type 0} (wrap : X → E) (r : Outcome X B)
    (b : B)
    → (f : B → Act F E A) → r ≡ done b
    → Ends R (f b)
    → Ends R (attempt wrap r >>= f)
Ends-bind_done {R} wrap r b f e ef = subst (λ r. Ends R (attempt wrap r >>= f)) (sym e) ef

-- `R` allows an error before anything is started, and effects that satisfy `Q` before the end.
pub record IsEnd {F E A : Type 0} (Q : F → Type 0) (R : Outcome E A × List F → Type 0)
    : Type 0 where
  pub fails : (e : E) → R (failed e, [])
  pub append : (r : Outcome E A) (new l : List F) → R (r, new) → All Q l → R (r, new ++ l)

module _ {F E A : Type 0} {Q : F → Type 0} {R : Outcome E A × List F → Type 0}
    (end : IsEnd Q R) where
  pub Ends-raise : (e : E) → Ends R (raise e)
  Ends-raise e = record { at = λ l. ([], refl, end.fails e) }

  Ends-continue :
      {B : Type 0} (r : Outcome E B) (f : B → Act F E A)
      → (r ≡ panicked → ⊥)
      → ((b : B) → Ends R (f b))
      → Ends R (continue r f)
  Ends-continue (done b) f p ef = ef b
  Ends-continue (failed e) f p ef = Ends-raise e
  Ends-continue panicked f p ef = absurd (p refl)

  pub Ends-bind :
      {B : Type 0} (m : Act F E B) (f : B → Act F E A)
      → Emits Q ⊥ m
      → ((b : B) → Ends R (f b))
      → Ends R (m >>= f)
  Ends-bind m f em ef = record {
    at = λ l.
        let (new, e, all) = em.at l in
        let (new', e', ends) = (Ends-continue (m l).0 f (em.panics l) ef).at (m l).1 in
        (
          new' ++ new,
          e' ∙ ap (λ k. new' ++ k) e ∙ sym (append_assoc new' new l),
          end.append _ new' new ends all,
        );
  }

  -- The rest of a block may use that the option is there.
  pub Ends-ok_or :
      {B : Type 0} (o : Option B) (e : E) (f : B → Act F E A)
      → ((b : B) → o ≡ some b → Ends R (f b))
      → Ends R (ok_or o e >>= f)
  Ends-ok_or none e f ef = Ends-raise e
  Ends-ok_or (some b) e f ef = ef b refl
