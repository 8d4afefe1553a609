-- ===== src/Node/Records.antt =====
-- What an action of the node (node/src) has put on the log when it returns.
use mathlib.Core.Path.{subst}
use subtrate.Base.{◌≡◌, refl, sym, ◌⊎◌, inl, inr, arith, List, [], ◌∷◌, ◌++◌}
use subtrate.Node.Effects.{Outcome, done, failed, panicked, Act, emit, continue, ◌>>=◌}
use subtrate.Node.Emits.{Emits}
use subtrate.Node.Returns.{Returns}

abbrev pub Any : {F : Type 0} → (F → Type 0) → List F → Type 0
Any Q [] = ⊥
Any Q (f ∷ l) = Q f ⊎ Any Q l

Any-append : {F : Type 0} (Q : F → Type 0) (new l : List F) → Any Q l → Any Q (new ++ l)
Any-append Q [] l h = h
Any-append Q (f ∷ new) l h = inr (Any-append Q new l h)

pub Any-mono :
    {F : Type 0} (Q R : F → Type 0) (l : List F) → ((f : F) → Q f → R f) → Any Q l → Any R l
Any-mono Q R [] g h = h
Any-mono Q R (f ∷ l) g (inl q) = inl (g f q)
Any-mono Q R (f ∷ l) g (inr h) = inr (Any-mono Q R l g h)

-- If the action returns, an effect that satisfies `Q` of what it returned is on the log.
pub record Records {F E A : Type 0} (Q : A → F → Type 0) (m : Act F E A) : Type 0 where
  pub at : (l : List F) (a : A) → (m l).0 ≡ done a → Any (Q a) (m l).1

module _ {F E A B : Type 0} (Q : B → F → Type 0) where
  Records-continue :
      (r : Outcome E A) (f : A → Act F E B) (l : List F) (b : B)
      → ((a : A) → Records Q (f a))
      → (continue r f l).0 ≡ done b
      → Any (Q b) (continue r f l).1
  Records-continue (done a) f l b rf h = (rf a).at l b h
  Records-continue (failed e) f l b rf h = absurd (ground arith)
  Records-continue panicked f l b rf h = absurd (ground arith)

  -- The effect is one of the later part,
  pub Records-later :
      (m : Act F E A) (f : A → Act F E B) → ((a : A) → Records Q (f a)) → Records Q (m >>= f)
  Records-later m f rf = record { at = λ l b h. Records-continue (m l).0 f (m l).1 b rf h }

  keeps :
      (r : Outcome E A) (P : A → F → Type 0) (f : A → Act F E B) (l : List F) (b : B)
      → ((a : A) → r ≡ done a → Any (P a) l)
      → ((a : A) → Emits (λ e. Unit {0}) (Unit {0}) (f a))
      → ((a : A) → Returns (λ b. (e : F) → P a e → Q b e) (f a))
      → (continue r f l).0 ≡ done b
      → Any (Q b) (continue r f l).1
  keeps (done a) P f l b there grows passes h =
      let (new, e, all) = (grows a).at l in
      let found = Any-mono (P a) (Q b) l ((passes a).holds l b h) (there a refl) in
      subst (Any (Q b)) (sym e) (Any-append (Q b) new l found)
  keeps (failed x) P f l b there grows passes h = absurd (ground arith)
  keeps panicked P f l b there grows passes h = absurd (ground arith)

  -- or of the first, for what is returned in the end.
  pub Records-first :
      (P : A → F → Type 0) (m : Act F E A) (f : A → Act F E B)
      → Records P m
      → ((a : A) → Emits (λ e. Unit {0}) (Unit {0}) (f a))
      → ((a : A) → Returns (λ b. (e : F) → P a e → Q b e) (f a))
      → Records Q (m >>= f)
  Records-first P m f rm grows passes = record {
    at = λ l b h. keeps (m l).0 P f (m l).1 b (λ a e. rm.at l a e) grows passes h;
  }

module _ {F E B : Type 0} (Q : B → F → Type 0) where
  pub Records-emit :
      (e : F) (f : Unit {0} → Act F E B)
      → Emits (λ e. Unit {0}) (Unit {0}) (f tt)
      → Returns (λ b. Q b e) (f tt)
      → Records Q (emit e >>= f)
  Records-emit e f grows returns = record {
    at = λ l b h.
        let (new, p, all) = grows.at (e ∷ l) in
        subst (Any (Q b)) (sym p) (Any-append (Q b) new (e ∷ l) (inl (returns.holds (e ∷ l) b h)));
  }
