-- ===== src/Node/Emits.antt =====
-- What an action of the node (node/src) starts, and when it panics.
use mathlib.Core.Path.{subst}
use subtrate.Base.{
  arith, ◌≡◌, refl, sym, ap, ◌∙◌, Bool, true, false, Option, none, some, List, [], ◌∷◌, ◌++◌, map,
  if◌then◌else◌,
}
use mathlib.Core.List.{append_assoc, append-nil}
use subtrate.Frame.Dispatch.{Result, ok, err}
use subtrate.Node.Effects.{
  Outcome, done, failed, panicked, Act, pure, raise, lift, attempt, expect, ok_or, emit, when,
  continue, ◌>>=◌, convert, within,
}

abbrev pub All : {F : Type 0} → (F → Type 0) → List F → Type 0
All Q [] = Unit
All Q (f ∷ l) = Q f × All Q l

pub All-append : {F : Type 0} (Q : F → Type 0) (k l : List F) → All Q k → All Q l → All Q (k ++ l)
All-append Q [] l h h' = h'
All-append Q (f ∷ k) l (q, h) h' = (q, All-append Q k l h h')

pub All-mono :
    {F : Type 0} {Q R : F → Type 0} → ((f : F) → Q f → R f) → (l : List F) → All Q l → All R l
All-mono g [] h = tt
All-mono g (f ∷ l) (q, h) = (g f q, All-mono g l h)

-- An action leaves the log that it finds, adds only effects that satisfy `Q`, and panics only if
-- `P` holds.
pub record Emits {F E A : Type 0} (Q : F → Type 0) (P : Type 0) (m : Act F E A) : Type 0 where
  pub at : (l : List F) → (new : List F) × ((m l).1 ≡ new ++ l) × All Q new
  pub panics : (l : List F) → (m l).0 ≡ panicked → P

-- The two conditions may be weakened.
pub Emits-mono :
    {F E A : Type 0} {Q R : F → Type 0} {P P' : Type 0} {m : Act F E A}
    → ((f : F) → Q f → R f)
    → (P → P')
    → Emits Q P m
    → Emits R P' m
Emits-mono g p em = record {
  at = λ l. let (new, e, all) = em.at l in (new, e, All-mono g new all);
  panics = λ l h. p (em.panics l h);
}

module _ {F E A : Type 0} {Q : F → Type 0} {P : Type 0} where
  pub Emits-pure : (a : A) → Emits {F = F} {E = E} Q P (pure a)
  Emits-pure a = record { at = λ l. ([], refl, tt); panics = λ l h. absurd (ground arith) }

  pub Emits-raise : (e : E) → Emits {F = F} {A = A} Q P (raise e)
  Emits-raise e = record { at = λ l. ([], refl, tt); panics = λ l h. absurd (ground arith) }

  pub Emits-lift : {X : Type 0} (wrap : X → E) (r : Result X A) → Emits {F = F} Q P (lift wrap r)
  Emits-lift wrap (ok a) = Emits-pure a
  Emits-lift wrap (err x) = Emits-raise (wrap x)

  pub Emits-ok_or : (o : Option A) (e : E) → Emits {F = F} Q P (ok_or o e)
  Emits-ok_or none e = Emits-raise e
  Emits-ok_or (some a) e = Emits-pure a

  pub Emits-attempt :
      {X : Type 0} (wrap : X → E) (r : Outcome X A)
      → (r ≡ panicked → P)
      → Emits {F = F} Q P (attempt wrap r)
  Emits-attempt wrap (done a) p = Emits-pure a
  Emits-attempt wrap (failed x) p = Emits-raise (wrap x)
  Emits-attempt wrap panicked p = record { at = λ l. ([], refl, tt); panics = λ l h. p refl }

  pub Emits-expect : (o : Option A) → (o ≡ none → P) → Emits {F = F} {E = E} Q P (expect o)
  Emits-expect none p = record { at = λ l. ([], refl, tt); panics = λ l h. p refl }
  Emits-expect (some a) p = Emits-pure a

  pub Emits-if :
      (b : Bool) (m n : Act F E A)
      → (b ≡ true → Emits Q P m)
      → (b ≡ false → Emits Q P n)
      → Emits Q P (if b then m else n)
  Emits-if true m n em en = em refl
  Emits-if false m n em en = en refl

module _ {F E : Type 0} {Q : F → Type 0} {P : Type 0} where
  pub Emits-emit : (f : F) → Q f → Emits {E = E} Q P (emit f)
  Emits-emit f q = record {
    at = λ l. (f ∷ [], refl, (q, tt));
    panics = λ l h. absurd (ground arith);
  }

  pub Emits-when :
      (b : Bool) (m : Act F E (Unit {0})) → (b ≡ true → Emits Q P m) → Emits Q P (when b m)
  Emits-when true m em = em refl
  Emits-when false m em = Emits-pure tt

module _ {F E A B : Type 0} {Q : F → Type 0} {P : Type 0} where
  Emits-continue :
      (r : Outcome E A) (f : A → Act F E B)
      → (r ≡ panicked → P)
      → ((a : A) → r ≡ done a → Emits Q P (f a))
      → Emits Q P (continue r f)
  Emits-continue (done a) f p ef = ef a refl
  Emits-continue (failed e) f p ef = Emits-raise e
  Emits-continue panicked f p ef = record { at = λ l. ([], refl, tt); panics = λ l h. p refl }

  -- The rest of a block may use what `m` returned.
  pub Emits-bind_done :
      (m : Act F E A) (f : A → Act F E B)
      → Emits Q P m
      → ((a : A) (l : List F) → (m l).0 ≡ done a → Emits Q P (f a))
      → Emits Q P (m >>= f)
  Emits-bind_done m f em ef = record {
    at = λ l.
        let (new, e, all) = em.at l in
        let (new', e', all') =
          (Emits-continue (m l).0 f (em.panics l) (λ a h. ef a l h)).at (m l).1 in
        (
          new' ++ new,
          e' ∙ ap (λ k. new' ++ k) e ∙ sym (append_assoc new' new l),
          All-append Q new' new all' all,
        );
    panics = λ l h. (Emits-continue (m l).0 f (em.panics l) (λ a h'. ef a l h')).panics (m l).1 h;
  }

  pub Emits-bind :
      (m : Act F E A) (f : A → Act F E B)
      → Emits Q P m
      → ((a : A) → Emits Q P (f a))
      → Emits Q P (m >>= f)
  Emits-bind m f em ef = Emits-bind_done m f em (λ a l h. ef a)

pub ruleset emits_rules =
    (Emits-pure, Emits-raise, Emits-lift, Emits-ok_or, Emits-emit, Emits-when, Emits-bind)

pub All-map :
    {F G : Type 0} (R : G → Type 0) (g : F → G) (l : List F)
    → All (λ f. R (g f)) l
    → All R (map g l)
All-map R g [] h = tt
All-map R g (f ∷ l) (q, h) = (q, All-map R g l h)

convert-panicked :
    {E E' A : Type 0} (g : E → E') (r : Outcome E A) → convert g r ≡ panicked → r ≡ panicked
convert-panicked g (done a) h = absurd (ground arith)
convert-panicked g (failed e) h = absurd (ground arith)
convert-panicked g panicked h = refl

pub All-log :
    {F E A : Type 0} {Q : F → Type 0} {P : Type 0} (m : Act F E A) → Emits Q P m → All Q (m []).1
All-log {Q} m em = let (new, e, all) = em.at [] in subst (All Q) (sym (e ∙ append-nil new)) all

pub Emits-within :
    {F G E E' A : Type 0} {Q : F → Type 0} {R : G → Type 0} {P : Type 0}
    → (g : F → G) (w : E → E') (m : Act F E A) → Emits Q P m
    → ((f : F) → Q f → R (g f))
    → Emits R P (within g w m)
Emits-within {R} g w m em q = record {
  at = λ l. (map g (m []).1, refl, All-map R g (m []).1 (All-mono q (m []).1 (All-log m em)));
  panics = λ l h. em.panics [] (convert-panicked w (m []).0 h);
}
