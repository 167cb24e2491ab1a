-- ===== src/Artifacts.antt =====
-- artifacts.py: `convergence_svg`, at its default size. The format of a number is a parameter.
pub mod Frame
pub mod Stores
use Prim.Native.String.{◌++◌}
use azure_ml_optimization_pl.Base.{ℕ, String, Bool, List, [], ◌∷◌, map, if◌then◌else◌}
use azure_ml_optimization_pl.Double.{Double, min_float, max_float}

-- The parts of the drawing around the points.
content : String → String
content polyline =
    "<svg xmlns=\"http://www.w3.org/2000/svg\" width=\"800\" height=\"420\" "
    ++ ("viewBox=\"0 0 800 420\">"
        ++ ("<rect width=\"100%\" height=\"100%\" fill=\"white\"/>"
            ++ ("<line x1=\"50\" y1=\"370\" x2=\"750\" y2=\"370\" stroke=\"#64748b\"/>"
                ++ ("<line x1=\"50\" y1=\"50\" x2=\"50\" y2=\"370\" stroke=\"#64748b\"/>"
                    ++ ("<polyline fill=\"none\" stroke=\"#2563eb\" stroke-width=\"3\" "
                        ++ ("points=\""
                            ++ (polyline
                                ++ ("\"/><text x=\"400.0\" y=\"410\" text-anchor=\"middle\" "
                                    ++ ("font-family=\"sans-serif\" font-size=\"14\">Cumulative cost</text>"
                                        ++ ("<text x=\"18\" y=\"210.0\" text-anchor=\"middle\" "
                                            ++ ("transform=\"rotate(-90 18 210.0)\" font-family=\"sans-serif\" "
                                                ++ "font-size=\"14\">Best objective</text></svg>")))))))))))

module _ {F : Type 0} ⦃d : Double F⦄ where
  open d use {literal, add, sub, mul, div}

  -- `min` and `max` of a list that starts with the first argument.
  unfoldable pub min_of : F → List F → F
  min_of x [] = x
  min_of x (y ∷ ys) = min_of (min_float x y) ys

  unfoldable pub max_of : F → List F → F
  max_of x [] = x
  max_of x (y ∷ ys) = max_of (max_float x y) ys

  -- `high - low or 1.0`
  unfoldable pub span : (low high : F) → F
  span low high = if d.eq (sub high low) (literal 0 0) then literal 1 0 else sub high low

  unfoldable pub plot_x : (low width x : F) → F
  plot_x low width x = add (literal 50 0) (mul (div (sub x low) width) (literal 700 0))

  unfoldable pub plot_y : (low height y : F) → F
  plot_y low height y = sub (literal 370 0) (mul (div (sub y low) height) (literal 320 0))

  -- The loop over the points, with the limits that were found before.
  abbrev pub plot_all : (xmin xspan ymin yspan : F) → List (F × F) → List (F × F)
  plot_all xmin xspan ymin yspan [] = []
  plot_all xmin xspan ymin yspan ((x, y) ∷ points) =
      (plot_x xmin xspan x, plot_y ymin yspan y) ∷ plot_all xmin xspan ymin yspan points

  abbrev pub firsts : List (F × F) → List F
  firsts [] = []
  firsts ((x, y) ∷ points) = x ∷ firsts points

  abbrev pub seconds : List (F × F) → List F
  seconds [] = []
  seconds ((x, y) ∷ points) = y ∷ seconds points

  unfoldable pub coords : List (F × F) → List (F × F)
  coords [] = []
  coords ((x, y) ∷ points) =
      let xmin = min_of x (firsts points) in
      let ymin = min_of y (seconds points) in
      plot_all xmin (span xmin (max_of x (firsts points))) ymin
        (span ymin (max_of y (seconds points))) ((x, y) ∷ points)

  -- `" ".join(coords)`, with the numbers printed by `show`.
  abbrev pub join_coords : (show : F → String) → List (F × F) → String
  join_coords show [] = ""
  join_coords show ((x, y) ∷ []) = show x ++ ("," ++ show y)
  join_coords show ((x, y) ∷ p ∷ points) =
      show x ++ ("," ++ (show y ++ (" " ++ join_coords show (p ∷ points))))

  unfoldable pub convergence_svg : (show : F → String) → List (F × F) → String
  unfolding content
  convergence_svg show [] = ""
  convergence_svg show (p ∷ points) = content (join_coords show (coords (p ∷ points)))
