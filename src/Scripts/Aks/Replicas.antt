-- ===== src/Scripts/Aks/Replicas.antt =====
-- The tests of scripts/verify_aks.py on the names and the replicas of the deployments.
use Prim.{absurd}
use mathlib.Core.List.{Memᴰ}
use azure_ml_optimization_pl.Base.{
  String, ◌≡◌, refl, ◌⊎◌, inl, inr, true, Bool-cases, ◌&&◌, ◌||◌, none, some, Option-cases, List,
  [], ◌∷◌, All, arith, ap, sym, ◌∙◌,
}
use azure_ml_optimization_pl.Double.{Double}
use azure_ml_optimization_pl.Errors.{Result, ok, err, bind-eq-ok, ◌>>=◌}
use azure_ml_optimization_pl.Scripts.Json.{
  Json, Fields, null, boolean, number, string, array, object, item, is_string, as_number,
  find_field,
}
use azure_ml_optimization_pl.Scripts.Answers.{at_least}
use azure_ml_optimization_pl.Scripts.Aks.{
  item_in, names_of, is_among, is_expected, all_expected, get_available, available, has_replicas,
  all_available,
}
use azure_ml_optimization_pl.Scripts.Aks.Readiness.{
  IsServed, IsNamed, IsKnown, IsDeployed, all_of-true, item_in-At, is_string-eq, as_number-ok,
}

module _ {F : Type 0} ⦃d : Double F⦄ where
  get_available-lem :
      (v : Json F) (there : F)
      → get_available v ≡ ok (number there)
      → (fs : Fields F) × (v ≡ object fs)
        × ((find_field "availableReplicas" fs ≡ some (number there))
            ⊎ ((find_field "availableReplicas" fs ≡ none) × (there ≡ d.literal 0 0)))
  get_available-lem null there h = cc h
  get_available-lem (boolean b) there h = cc h
  get_available-lem (number x) there h = cc h
  get_available-lem (string s) there h = cc h
  get_available-lem (array xs) there h = cc h
  get_available-lem (object fs) there h = elim (Option-cases (find_field "availableReplicas" fs)) [
    | inl missing ↦
        let zero_is : ok (number (d.literal 0 0)) ≡ ok (number there) = rw missing at h in
        (fs, refl, inr (missing, cc zero_is))
    | inr (v, found) ↦
        let same : ok v ≡ ok (number there) = rw found at h in
        (fs, refl, inl (found ∙ ap some (cc same)))
  ]

  at_least-lem :
      (p q : Result F)
      → at_least p q ≡ ok true
      → (b a : F) × (p ≡ ok b) × (q ≡ ok a) × (d.lt a b || d.eq a b ≡ true)
  at_least-lem (err e) q h = cc h
  at_least-lem (ok b) (err e) h = cc h
  at_least-lem (ok b) (ok a) h = (b, a, refl, refl, cc h)

  has_replicas-lem : (x : Json F) → has_replicas x ≡ ok true → IsServed x
  unfolding has_replicas available
  has_replicas-lem x h =
      let (v, e, f) = bind-eq-ok (item "status" x >>= λ status. get_available status) _ h in
      let (u, e', f') = bind-eq-ok (item_in "spec" "replicas" x) _ f in
      let (b, a, is_b, is_a, enough) = at_least-lem (as_number v) (as_number u) f' in
      let (status, g, k) = bind-eq-ok (item "status" x) _ e in
      let (fs, is_object, counted) =
        get_available-lem status b (k ∙ ap ok (as_number-ok v b is_b)) in
      record {
        fields = fs;
        status = g ∙ ap ok is_object;
        there = b;
        wanted = a;
        counted = counted;
        specified = item_in-At _ _ x (number a) (e' ∙ ap ok (as_number-ok u a is_a));
        enough = enough;
      }

  pub all_available-lem : (xs : List (Json F)) → all_available xs ≡ ok true → All IsServed xs
  unfolding all_available
  all_available-lem [] h = tt
  all_available-lem (x ∷ xs) h =
      let (this, rest) = all_of-true (has_replicas x) (all_available xs) h in
      (has_replicas-lem x this, all_available-lem xs rest)

  name-IsNamed :
      (s : String) (x name : Json F)
      → item_in "metadata" "name" x ≡ ok name
      → is_string s name ≡ true
      → IsNamed s x
  name-IsNamed s x name e is = item_in-At _ _ x (string s) (e ∙ ap ok (is_string-eq s name is))

  is_expected-lem :
      (x name : Json F)
      → item_in "metadata" "name" x ≡ ok name
      → is_expected name ≡ true
      → IsKnown x
  is_expected-lem x name e h = elim (Bool-cases (is_string "mfbo-api" name)) [
    | inl api ↦ inl (name-IsNamed _ x name e api)
    | inr no_api ↦ elim (Bool-cases (is_string "mfbo-worker" name)) [
      | inl worker ↦ inr (inl (name-IsNamed _ x name e worker))
      | inr no_worker ↦
          inr (inr (name-IsNamed "mfbo-mlflow" x name e (ground (arith, h, no_api, no_worker))))
    ]
  ]

  -- One step of `names_of`.
  names_of-cons :
      (x : Json F) (xs names : List (Json F))
      → names_of (x ∷ xs) ≡ ok names
      → (name : Json F) × (rest : List (Json F)) × (item_in "metadata" "name" x ≡ ok name)
        × (names_of xs ≡ ok rest)
        × (names ≡ name ∷ rest)
  unfolding names_of
  names_of-cons x xs names h =
      let (name, e, f) = bind-eq-ok (item_in "metadata" "name" x) _ h in
      let (rest, e', f') = bind-eq-ok (names_of xs) _ f in (name, rest, e, e', cc f')

  pub all_expected-lem :
      (xs names : List (Json F))
      → names_of xs ≡ ok names
      → all_expected names ≡ true
      → All IsKnown xs
  all_expected-lem [] names h k = tt
  all_expected-lem (x ∷ xs) names h k =
      let (name, rest, e, e', same) = names_of-cons x xs names h in
      let both : is_expected name && all_expected rest ≡ true = sym (ap all_expected same) ∙ k in
      (
        is_expected-lem x name e (ground (arith, both)),
        all_expected-lem xs rest e' (ground (arith, both)),
      )

  pub is_among-lem :
      (s : String) (xs names : List (Json F))
      → names_of xs ≡ ok names
      → is_among s names ≡ true
      → IsDeployed s xs
  unfolding names_of
  is_among-lem s [] names h k =
      let empty : [] ≡ names = cc h in
      let none_there : is_among {F = F} s [] ≡ true = ap (is_among {F = F} s) empty ∙ k in
      absurd (cc none_there)
  is_among-lem s (x ∷ xs) names h k =
      let (name, rest, e, e', same) = names_of-cons x xs names h in
      let one : is_string s name || is_among s rest ≡ true = sym (ap (is_among s) same) ∙ k in
      elim (Bool-cases (is_string s name)) [
        | inl this ↦ (x, Memᴰ.head refl, name-IsNamed s x name e this)
        | inr other ↦
            let (y, m, named) = is_among-lem s xs rest e' (ground (arith, one, other)) in
            (y, Memᴰ.tail m, named)
      ]
