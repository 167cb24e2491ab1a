-- ===== src/Scripts/Aks/Readiness.antt =====
-- The nodes and the deployments of scripts/verify_aks.py in terms of their JSON, and its test of
-- the nodes.
use Prim.{absurd}
use mathlib.Core.List.{Memᴰ}
use azure_ml_optimization_pl.Base.{
  String, eq_iff, ◌≡◌, refl, ◌⊎◌, inl, inr, Bool, true, false, Bool-cases, ◌||◌, none, some, List,
  [], ◌∷◌, All, ap, ◌∙◌,
}
use azure_ml_optimization_pl.Double.{Double}
use azure_ml_optimization_pl.Errors.{Result, ok, err, bind-eq-ok}
use azure_ml_optimization_pl.Scripts.Json.{
  Json, Fields, null, boolean, number, string, array, object, item, elements, is_string, as_number,
  find_field,
}
use azure_ml_optimization_pl.Scripts.Answers.{any_of, all_of}
use azure_ml_optimization_pl.Scripts.Aks.{
  asserted, item_in, is_ready, any_ready, node_ready, all_ready,
}

pub asserted-ok :
    {A : Type 0} (b : Bool) (r : Result A) (x : A) → asserted b r ≡ ok x → (b ≡ true) × (r ≡ ok x)
asserted-ok true r x h = (refl, h)
asserted-ok false r x h = cc h

any_of-true : (p q : Result Bool) → any_of p q ≡ ok true → (p ≡ ok true) ⊎ (q ≡ ok true)
any_of-true (err e) q h = cc h
any_of-true (ok true) q h = inl refl
any_of-true (ok false) q h = inr h

pub all_of-true : (p q : Result Bool) → all_of p q ≡ ok true → (p ≡ ok true) × (q ≡ ok true)
all_of-true (err e) q h = cc h
all_of-true (ok true) q h = (refl, h)
all_of-true (ok false) q h = cc h

module _ {F : Type 0} ⦃d : Double F⦄ where
  -- `value[first][second]` is there.
  pub record At (first second : String) (v found : Json F) : Type 0 where
    pub inner : Json F
    pub outer_there : item first v ≡ ok inner
    pub inner_there : item second inner ≡ ok found

  -- One of the node's conditions has the type `Ready` and the status `True`.
  pub record IsReadyNode (n : Json F) : Type 0 where
    pub conditions : Json F
    pub list : List (Json F)
    pub condition : Json F
    pub read : At "status" "conditions" n conditions
    pub listed : elements conditions ≡ ok list
    pub among : Memᴰ condition list
    pub kind : item "type" condition ≡ ok (string "Ready")
    pub value : item "status" condition ≡ ok (string "True")

  -- A deployment has at least as many replicas as it wants; a missing count is 0.
  pub record IsServed (x : Json F) : Type 0 where
    pub fields : Fields F
    pub status : item "status" x ≡ ok (object fields)
    pub there : F
    pub wanted : F
    pub counted :
        (find_field "availableReplicas" fields ≡ some (number there))
        ⊎ ((find_field "availableReplicas" fields ≡ none) × (there ≡ d.literal 0 0))
    pub specified : At "spec" "replicas" x (number wanted)
    pub enough : d.lt wanted there || d.eq wanted there ≡ true

  abbrev pub IsNamed : String → Json F → Type 0
  IsNamed s x = At "metadata" "name" x (string s)

  abbrev pub IsKnown : Json F → Type 0
  IsKnown x = IsNamed "mfbo-api" x ⊎ IsNamed "mfbo-worker" x ⊎ IsNamed "mfbo-mlflow" x

  abbrev pub IsDeployed : String → List (Json F) → Type 0
  IsDeployed s ds = (x : Json F) × Memᴰ x ds × IsNamed s x

  pub item_in-At : (a b : String) (v y : Json F) → item_in a b v ≡ ok y → At a b v y
  unfolding item_in
  item_in-At a b v y h =
      let (i, e, f) = bind-eq-ok (item a v) _ h in
      record { inner = i; outer_there = e; inner_there = f }

  pub is_string-eq : (s : String) (v : Json F) → is_string s v ≡ true → v ≡ string s
  unfolding is_string
  is_string-eq s null h = cc h
  is_string-eq s (boolean b) h = cc h
  is_string-eq s (number x) h = cc h
  is_string-eq s (string t) h = ap string ((eq_iff t s).0 h)
  is_string-eq s (array xs) h = cc h
  is_string-eq s (object fs) h = cc h

  pub as_number-ok : (v : Json F) (x : F) → as_number v ≡ ok x → v ≡ number x
  as_number-ok null x h = cc h
  as_number-ok (boolean b) x h = cc h
  as_number-ok (number y) x h = cc h
  as_number-ok (string t) x h = cc h
  as_number-ok (array xs) x h = cc h
  as_number-ok (object fs) x h = cc h

  is_ready-lem :
      (c : Json F)
      → is_ready c ≡ ok true
      → (item "type" c ≡ ok (string "Ready")) × (item "status" c ≡ ok (string "True"))
  unfolding is_ready
  is_ready-lem c h =
      let (kind, e, f) = bind-eq-ok (item "type" c) _ h in
      elim (Bool-cases (is_string "Ready" kind)) [
        | inl is_kind ↦
            let (status, e', f') = bind-eq-ok (item "status" c) _ (rw is_kind at f) in
            let same : is_string "True" status ≡ true = cc f' in
            (e ∙ ap ok (is_string-eq _ kind is_kind), e' ∙ ap ok (is_string-eq _ status same))
        | inr other_kind ↦ absurd (cc (rw other_kind at f))
      ]

  any_ready-lem :
      (cs : List (Json F))
      → any_ready cs ≡ ok true
      → (c : Json F) × Memᴰ c cs × (is_ready c ≡ ok true)
  unfolding any_ready
  any_ready-lem [] h = cc h
  any_ready-lem (c ∷ cs) h = elim (any_of-true (is_ready c) (any_ready cs) h) [
    | inl now ↦ (c, Memᴰ.head refl, now)
    | inr later ↦ let (c', m, e) = any_ready-lem cs later in (c', Memᴰ.tail m, e)
  ]

  node_ready-lem : (n : Json F) → node_ready n ≡ ok true → IsReadyNode n
  unfolding node_ready
  node_ready-lem n h =
      let (conditions, e, f) = bind-eq-ok (item_in "status" "conditions" n) _ h in
      let (list, e', f') = bind-eq-ok (elements conditions) _ f in
      let (c, m, is) = any_ready-lem list f' in
      let (kind, value) = is_ready-lem c is in
      record {
        conditions = conditions;
        list = list;
        condition = c;
        read = item_in-At _ _ n conditions e;
        listed = e';
        among = m;
        kind = kind;
        value = value;
      }

  pub all_ready-lem : (ns : List (Json F)) → all_ready ns ≡ ok true → All IsReadyNode ns
  unfolding all_ready
  all_ready-lem [] h = tt
  all_ready-lem (n ∷ ns) h =
      let (this, rest) = all_of-true (node_ready n) (all_ready ns) h in
      (node_ready-lem n this, all_ready-lem ns rest)
