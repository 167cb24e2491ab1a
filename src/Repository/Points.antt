-- ===== src/Repository/Points.antt =====
-- The metric history of a record: the dict comprehension and the sort by which `append_metric` of
-- repositories.py and `_record_metric` of worker.py put a point into it.
use azure_ml_optimization_pl.Base.{
  ℕ, ◌<◌, ◌≡◌, refl, ◌∙◌, ap, Option, none, some, List, [], ◌∷◌, arith, leb, ◌==◌, if◌then◌else◌,
}
use azure_ml_optimization_pl.Domain.{MetricPoint}

module _ {F : Type 0} where
  -- points[point.iteration] = point
  put_point : MetricPoint F → List (MetricPoint F) → List (MetricPoint F)
  put_point m [] = m ∷ []
  put_point m (p ∷ ps) = if p.iteration == m.iteration then m ∷ ps else p ∷ put_point m ps

  -- {point.iteration: point for point in history}, from the entries that are there already.
  points_of : List (MetricPoint F) → List (MetricPoint F) → List (MetricPoint F)
  points_of points [] = points
  points_of points (p ∷ history) = points_of (put_point p points) history

  insert_point : MetricPoint F → List (MetricPoint F) → List (MetricPoint F)
  insert_point m [] = m ∷ []
  insert_point m (p ∷ ps) =
      if leb m.iteration p.iteration then m ∷ p ∷ ps else p ∷ insert_point m ps

  -- sorted(..., key=lambda point: point.iteration), a stable sort.
  sort_points : List (MetricPoint F) → List (MetricPoint F)
  sort_points [] = []
  sort_points (p ∷ ps) = insert_point p (sort_points ps)

  unfoldable pub upsert : MetricPoint F → List (MetricPoint F) → List (MetricPoint F)
  unfolding put_point points_of insert_point sort_points
  upsert m history = sort_points (put_point m (points_of [] history))

  -- The first point of an iteration.
  unfoldable pub find_point : ℕ → List (MetricPoint F) → Option (MetricPoint F)
  find_point i [] = none
  find_point i (p ∷ ps) = if p.iteration == i then some p else find_point i ps

  abbrev pub Above : ℕ → List (MetricPoint F) → Type 0
  Above i [] = Unit
  Above i (p ∷ ps) = i < p.iteration

  -- The iterations rise strictly.
  abbrev pub Rising : List (MetricPoint F) → Type 0
  Rising [] = Unit
  Rising (p ∷ ps) = Above p.iteration ps × Rising ps

  abbrev Distinct : List (MetricPoint F) → Type 0
  Distinct [] = Unit
  Distinct (p ∷ ps) = (find_point p.iteration ps ≡ none) × Distinct ps

  find-put_point :
      (i : ℕ) (m : MetricPoint F) (ps : List (MetricPoint F))
      → find_point i (put_point m ps) ≡ (if m.iteration == i then some m else find_point i ps)
  unfolding find_point put_point
  find-put_point i m [] = refl
  find-put_point i m (p ∷ ps) = ground (arith, find-put_point i m ps)

  find-insert_point :
      (i : ℕ) (m : MetricPoint F) (ps : List (MetricPoint F))
      → find_point i (insert_point m ps) ≡ (if m.iteration == i then some m else find_point i ps)
  unfolding find_point insert_point
  find-insert_point i m [] = refl
  find-insert_point i m (p ∷ ps) = ground (arith, find-insert_point i m ps)

  find-sort_points :
      (i : ℕ) (ps : List (MetricPoint F)) → find_point i (sort_points ps) ≡ find_point i ps
  unfolding find_point sort_points
  find-sort_points i [] = refl
  find-sort_points i (p ∷ ps) =
      find-insert_point i p (sort_points ps)
      ∙ ap (λ o. if p.iteration == i then some p else o) (find-sort_points i ps)

  put_point-Distinct :
      (m : MetricPoint F) (ps : List (MetricPoint F)) → Distinct ps → Distinct (put_point m ps)
  unfolding put_point
  put_point-Distinct m [] h = (unfold find_point in refl, tt)
  put_point-Distinct m (p ∷ ps) h =
      ground (arith, find-put_point p.iteration m ps, put_point-Distinct m ps h.1)

  points_of-Distinct :
      (points history : List (MetricPoint F))
      → Distinct points
      → Distinct (points_of points history)
  unfolding points_of
  points_of-Distinct points [] h = h
  points_of-Distinct points (p ∷ history) h =
      points_of-Distinct (put_point p points) history (put_point-Distinct p points h)

  Above-insert_point :
      (i : ℕ) (m : MetricPoint F) (ps : List (MetricPoint F))
      → i < m.iteration
      → Above i ps
      → Above i (insert_point m ps)
  unfolding insert_point
  Above-insert_point i m [] h a = h
  Above-insert_point i m (p ∷ ps) h a = ground arith

  insert_point-Rising :
      (m : MetricPoint F) (ps : List (MetricPoint F))
      → find_point m.iteration ps ≡ none
      → Rising ps
      → Rising (insert_point m ps)
  unfolding find_point insert_point
  insert_point-Rising m [] h r = (tt, tt)
  insert_point-Rising m (p ∷ ps) h r =
      ground (arith, insert_point-Rising m ps, Above-insert_point p.iteration m ps)

  sort_points-Rising : (ps : List (MetricPoint F)) → Distinct ps → Rising (sort_points ps)
  unfolding sort_points
  sort_points-Rising [] h = tt
  sort_points-Rising (p ∷ ps) h =
      insert_point-Rising p (sort_points ps) (find-sort_points p.iteration ps ∙ h.0)
        (sort_points-Rising ps h.1)

  -- Whatever the history, the new one has one point for each iteration, in rising order.
  pub upsert-Rising :
      (m : MetricPoint F) (history : List (MetricPoint F)) → Rising (upsert m history)
  unfolding upsert
  upsert-Rising m history =
      sort_points-Rising _ (put_point-Distinct m _ (points_of-Distinct [] history tt))

  find-Above : (i : ℕ) (ps : List (MetricPoint F)) → Above i ps → Rising ps → find_point i ps ≡ none
  unfolding find_point
  find-Above i [] a r = refl
  find-Above i (p ∷ []) a r = ground arith
  find-Above i (p ∷ q ∷ ps) a r = ground (arith, find-Above i (q ∷ ps))

  abbrev or_else : Option (MetricPoint F) → Option (MetricPoint F) → Option (MetricPoint F)
  or_else none o = o
  or_else (some p) o = some p

  or_else-empty : (i : ℕ) (o : Option (MetricPoint F)) → or_else o (find_point i []) ≡ o
  unfolding find_point
  or_else-empty i none = refl
  or_else-empty i (some p) = refl

  find-points_of :
      (i : ℕ) (points history : List (MetricPoint F))
      → Rising history
      → find_point i (points_of points history)
        ≡ or_else (find_point i history) (find_point i points)
  unfolding points_of
  find-points_of i points [] r = unfold find_point in refl
  find-points_of i points (p ∷ history) r =
      find-points_of i (put_point p points) history r.1
      ∙ (unfold find_point in
          ground (arith, find-put_point i p points, find-Above p.iteration history r.0 r.1))

  -- In a rising history only the iteration of the new point changes.
  pub find-upsert :
      (i : ℕ) (m : MetricPoint F) (history : List (MetricPoint F))
      → Rising history
      → find_point i (upsert m history)
        ≡ (if m.iteration == i then some m else find_point i history)
  unfolding upsert
  find-upsert i m history r =
      find-sort_points i _
      ∙ find-put_point i m _
      ∙ ap (λ o. if m.iteration == i then some m else o)
          (find-points_of i [] history r ∙ or_else-empty i (find_point i history))
