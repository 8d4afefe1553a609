-- ===== src/Runtime/Apis/Measuring.antt =====
-- Which benchmarks the runtime can run (`dispatch_benchmark` of runtime/src/apis.rs, over the list
-- of runtime/src/benchmarks.rs).
use Prim.Native.String.{String}
use text.Mathlib.Text.{◌==◌ as ◌str_eq◌}
use text.Mathlib.TextEquality.{eq_iff}
use mathlib.Core.Bool.{true≢false}
use subtrate.Base.{
  ◌≡◌, refl, sym, ap, ◌∙◌, ◌≢◌, ◌↔◌, ◌⊎◌, inl, inr, Bool-cases, true, false, List, [], ◌∷◌, ◌++◌,
  map, arith,
}
use subtrate.Frame.Dispatch.{Result, ok, err}
use subtrate.Runtime.Pallets.{Pallet}
use subtrate.Runtime.Presets.{IsOneOf}
use subtrate.Runtime.Benchmarks.{benchmarks}
use subtrate.Runtime.Apis.Requests
use subtrate.Runtime.Apis.Answers.{
  Libraries, add_benchmarks, found, with_feature, answer, dispatch_benchmark,
}

IsOneOf-cases : (a : String) (l : List String) → IsOneOf a l ⊎ ¬ IsOneOf a l
IsOneOf-cases a [] = inr (λ x. x)
IsOneOf-cases a (b ∷ l) = elim (Bool-cases (a str_eq b)) [
  | inl t ↦ inl (inl ((eq_iff a b).0 t))
  | inr f ↦ elim (IsOneOf-cases a l) [
    | inl m ↦ inl (inr m)
    | inr n ↦
        inr (λ m. elim m [
          | inl same ↦ true≢false (sym ((eq_iff a b).1 same) ∙ f)
          | inr rest ↦ n rest
        ])
  ]
]

abbrev pub measured : List (String × Pallet) → List String
measured = map (λ (b : String × Pallet). b.0)

module _ {S V W K P A : Type 0} (l : Libraries S V W K P A) (pallet_of : V → String) where
  -- The documented behaviour of `add_benchmark!`, where the benchmarks that it runs succeed: it
  -- runs the entry that the configuration names, which gives a batch, and no other.
  pub record IsBenchmarkApi : Type 0 where
    pub skips :
        (config keys : V) (s : S) (name : String) (p : Pallet)
        → pallet_of config ≢ name
        → l.frame.add_benchmark config keys s (name, p) ≡ ok []
    pub runs :
        (config keys : V) (s : S) (name : String) (p : Pallet)
        → pallet_of config ≡ name
        → (b : V) × (bs : List V) × (l.frame.add_benchmark config keys s (name, p) ≡ ok (b ∷ bs))

  module _ (laws : IsBenchmarkApi) (config : V) (s : S) where
    unlisted :
        (bs : List (String × Pallet))
        → ¬ IsOneOf (pallet_of config) (measured bs)
        → add_benchmarks l config s bs ≡ ok []
    unfolding add_benchmarks
    unlisted [] n = refl
    unlisted ((name, p) ∷ bs) n =
        let skipped =
          laws.skips config l.frame.whitelisted_storage_keys s name p (λ e. n (inl e)) in
        rw (skipped, unlisted bs (λ m. n (inr m))) refl

    skipped :
        (name : String) (p : Pallet)
        → (pallet_of config str_eq name) ≡ false
        → l.frame.add_benchmark config l.frame.whitelisted_storage_keys s (name, p) ≡ ok []
    skipped name p f =
        laws.skips config l.frame.whitelisted_storage_keys s name p
          (λ same. true≢false (sym ((eq_iff (pallet_of config) name).1 same) ∙ f))

    -- The batches of all entries are gathered.
    gathered :
        (bs : List (String × Pallet)) → (cs : List V) × (add_benchmarks l config s bs ≡ ok cs)
    unfolding add_benchmarks
    gathered [] = ([], refl)
    gathered ((name, p) ∷ bs) =
        let (cs, e) = gathered bs in
        elim (Bool-cases (pallet_of config str_eq name)) [
          | inl t ↦
              let same = (eq_iff (pallet_of config) name).0 t in
              let (b, ds, ran) = laws.runs config l.frame.whitelisted_storage_keys s name p same in
              ((b ∷ ds) ++ cs, rw (ran, e) refl)
          | inr f ↦ (cs, rw (skipped name p f, e) refl)
        ]

    listed :
        (bs : List (String × Pallet))
        → IsOneOf (pallet_of config) (measured bs)
        → (b : V) × (cs : List V) × (add_benchmarks l config s bs ≡ ok (b ∷ cs))
    unfolding add_benchmarks
    listed [] m = elim m [ ]
    listed ((name, p) ∷ bs) m = elim (Bool-cases (pallet_of config str_eq name)) [
      | inl t ↦
          let (cs, e) = gathered bs in
          let same = (eq_iff (pallet_of config) name).0 t in
          let (b, ds, ran) = laws.runs config l.frame.whitelisted_storage_keys s name p same in
          (b, ds ++ cs, rw (ran, e) refl)
      | inr f ↦ elim m [
        | inl same ↦ absurd (true≢false (sym ((eq_iff (pallet_of config) name).1 same) ∙ f))
        | inr rest ↦ let (b, cs, e) = listed bs rest in (b, cs, rw (skipped name p f, e) refl)
      ]
    ]

    answered :
        (r : Result String (List V))
        → l.features.runtime_benchmarks ≡ true
        → add_benchmarks l config s benchmarks ≡ r
        → answer l (Requests.dispatch_benchmark config) s
          ≡ Requests.replied (Requests.batches (found l r)) s
    unfolding answer dispatch_benchmark
    answered r on e =
        ap (λ b. with_feature l b (dispatch_benchmark l config s)) on
        ∙ ap (λ r. Requests.replied (Requests.batches (found l r)) s) e

    -- With the feature in the build, a benchmark is found exactly if its pallet is one of the nine
    -- that the runtime lists, and is then answered with its batches; any other pallet, the
    -- repository's own among them, is answered with an error. The benchmarks are taken to succeed.
    pub benchmark_found_iff :
        l.features.runtime_benchmarks ≡ true
        → (((b : V) × (bs : List V) × (answer l (Requests.dispatch_benchmark config) s
                ≡ Requests.replied (Requests.batches (ok (b ∷ bs))) s))
            ↔ IsOneOf (pallet_of config) (measured benchmarks))
          × (¬ IsOneOf (pallet_of config) (measured benchmarks)
              → answer l (Requests.dispatch_benchmark config) s
                ≡ Requests.replied
                    (Requests.batches (err "Benchmark not found for this pallet."))
                    s)
    benchmark_found_iff on = (
      (
        λ (b, bs, e). elim (IsOneOf-cases (pallet_of config) (measured benchmarks)) [
          | inl m ↦ m
          | inr n ↦
              let refused = answered (ok []) on (unlisted benchmarks n) in absurd (ground arith)
        ],
        λ m. let (b, bs, e) = listed benchmarks m in (b, bs, answered (ok (b ∷ bs)) on e),
      ),
      λ n. answered (ok []) on (unlisted benchmarks n),
    )
