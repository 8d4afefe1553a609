-- ===== src/Node/Effects.antt =====
-- Code of the node that calls libraries with effects: what was started is a log, newest first,
-- which outlives an error; an error is a value, and an `expect` that fails is a panic.
use subtrate.Base.{Bool, true, false, Option, none, some, List, [], ◌∷◌, ◌++◌, map}
use subtrate.Frame.Dispatch.{Result, ok, err}

pub data Outcome (E A : Type 0) : Type 0 where
  done : A → Outcome E A
  failed : E → Outcome E A
  panicked : Outcome E A

abbrev pub of_result : {E A : Type 0} → Result E A → Outcome E A
of_result (ok a) = done a
of_result (err e) = failed e

abbrev pub Act : Type 0 → Type 0 → Type 0 → Type 0
Act F E A = List F → Outcome E A × List F

module _ {F E A : Type 0} where
  abbrev pub pure : A → Act F E A
  pure a l = (done a, l)

  abbrev pub raise : E → Act F E A
  raise e l = (failed e, l)

  -- `map_err(wrap)?` on what a library returns.
  abbrev pub lift : {X : Type 0} → (X → E) → Result X A → Act F E A
  lift wrap (ok a) = pure a
  lift wrap (err x) = raise (wrap x)

  -- `map_err(wrap)?` on what code returns that may panic.
  abbrev pub attempt : {X : Type 0} → (X → E) → Outcome X A → Act F E A
  attempt wrap (done a) = pure a
  attempt wrap (failed x) = raise (wrap x)
  attempt wrap panicked = λ l. (panicked, l)

  -- `expect`
  abbrev pub expect : Option A → Act F E A
  expect none = λ l. (panicked, l)
  expect (some a) = pure a

  -- `ok_or(e)?`
  abbrev pub ok_or : Option A → E → Act F E A
  ok_or none e = raise e
  ok_or (some a) e = pure a

module _ {F E : Type 0} where
  abbrev pub emit : F → Act F E (Unit {0})
  emit f l = (done tt, f ∷ l)

  abbrev pub when : Bool → Act F E (Unit {0}) → Act F E (Unit {0})
  when true m = m
  when false m = pure tt

infixl 5 ◌>>=◌ ◌>>◌
abbrev pub continue : {F E A B : Type 0} → Outcome E A → (A → Act F E B) → Act F E B
continue (done a) f l = f a l
continue (failed e) f l = (failed e, l)
continue panicked f l = (panicked, l)

abbrev pub ◌>>=◌ : {F E A B : Type 0} → Act F E A → (A → Act F E B) → Act F E B
◌>>=◌ m f l = let (r, l') = m l in continue r f l'

abbrev pub ◌>>◌ : {F E A B : Type 0} → Act F E A → Act F E B → Act F E B
m >> k = m >>= λ _. k

-- An action as part of a larger program, whose effects and errors include its own.
abbrev pub convert : {E E' A : Type 0} → (E → E') → Outcome E A → Outcome E' A
convert g (done a) = done a
convert g (failed e) = failed (g e)
convert g panicked = panicked

abbrev pub within : {F G E E' A : Type 0} → (F → G) → (E → E') → Act F E A → Act G E' A
within f g m l = let (r, new) = m [] in (convert g r, map f new ++ l)
