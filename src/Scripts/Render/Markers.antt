-- ===== src/Scripts/Render/Markers.antt =====
-- The text that scripts/render_k8s.py writes, and the search of its regex for markers.
use Prim.{absurd}
use Prim.Native.Char.{Char, code}
use Prim.Native.String.{◌++◌}
use text.Mathlib.TextLemmas.{nil-append, cons-append}
use azure_ml_optimization_pl.Base.{
  ℕ, String, ◌≡◌, ◌≢◌, refl, sym, ap, ◌∙◌, Bool, true, ◌&&◌, Option, none, some, [], All, arith,
  starts_with,
}
use azure_ml_optimization_pl.Protocol.Record.{is_some}
use azure_ml_optimization_pl.Errors.{Result, ok, bind-eq-ok}
use azure_ml_optimization_pl.Scripts.Render.{Url, validate_substitutions}
use azure_ml_optimization_pl.Scripts.Render.Safe.{IsSafe, validate_substitutions-IsSafe}
use azure_ml_optimization_pl.Scripts.Render.Template.{
  Arguments, substitutions, replace_all, is_marker_character, one_more, match_end, three_more,
  match_marker, find_markers, Output, written, printed, output_of, resolved, main,
}

-- Every character is one of [A-Z_].
unfoldable pub is_name : String → Bool
is_name String.[] = true
is_name (String.◌∷◌ c s) = is_marker_character (code c) && is_name s

abbrev underscore : Char
underscore = "_"

abbrev two_then : String → String
two_then s = String.◌∷◌ underscore (String.◌∷◌ underscore s)

two-append : (s : String) → "__" ++ s ≡ two_then s
two-append s =
    cons-append underscore "_" s
    ∙ ap (String.◌∷◌ underscore)
        (cons-append underscore "" s ∙ ap (String.◌∷◌ underscore) (nil-append s))

marker-append :
    (name after : String) → "__" ++ (name ++ ("__" ++ after)) ≡ two_then (name ++ two_then after)
marker-append name after = two-append _ ∙ ap (λ x. two_then (name ++ x)) (two-append after)

one_more-is_some : (n : Option ℕ) → is_some (one_more n true) ≡ true
one_more-is_some none = refl
one_more-is_some (some n) = refl

one_more-kept : (n : Option ℕ) (e : Bool) → is_some n ≡ true → is_some (one_more n e) ≡ true
one_more-kept none e h = cc
one_more-kept (some n) e h = refl

split_and : (a b : Bool) → a && b ≡ true → (a ≡ true) × (b ≡ true)
split_and a b h = ground arith

match_end-is_some :
    (name after : String)
    → is_name name ≡ true
    → is_some (match_end (name ++ two_then after)) ≡ true
unfolding match_end is_name is_marker_character starts_with
match_end-is_some String.[] after h = rw nil-append (one_more-is_some _)
match_end-is_some (String.◌∷◌ c s) after h =
    let (this, rest) = split_and (is_marker_character (code c)) (is_name s) h in
    rw (cons-append, this) (one_more-kept _ _ (match_end-is_some s after rest))

three_more-kept : (n : Option ℕ) → is_some n ≡ true → is_some (three_more n) ≡ true
three_more-kept none h = cc
three_more-kept (some n) h = refl

-- A marker at the start of a text is found.
match_marker-is_some :
    (name after : String)
    → name ≢ ""
    → is_name name ≡ true
    → is_some (match_marker (two_then (name ++ two_then after))) ≡ true
unfolding match_marker is_name
match_marker-is_some String.[] after filled h = absurd (filled refl)
match_marker-is_some (String.◌∷◌ c s) after filled h =
    let (this, rest) = split_and (is_marker_character (code c)) (is_name s) h in
    rw (cons-append, this) (three_more-kept _ (match_end-is_some s after rest))

-- Where `find_markers` finds nothing, there is no match at the start, and nothing behind it.
find_markers-none :
    (c : Char) (s : String)
    → find_markers 0 (String.◌∷◌ c s) ≡ []
    → (match_marker (String.◌∷◌ c s) ≡ none) × (find_markers 0 s ≡ [])
unfolding find_markers
find_markers-none c s h = ground arith

find_markers_complete :
    (before name after : String)
    → name ≢ ""
    → is_name name ≡ true
    → find_markers 0 (before ++ two_then (name ++ two_then after)) ≢ []
find_markers_complete String.[] name after filled h found =
    let (unmatched, rest) =
      find_markers-none underscore _ (ap (find_markers 0) (sym (nil-append _)) ∙ found) in
    cc (match_marker-is_some name after filled h, unmatched)
find_markers_complete (String.◌∷◌ c s) name after filled h found =
    let (unmatched, rest) =
      find_markers-none c _ (ap (find_markers 0) (sym (cons-append c s _)) ∙ found) in
    find_markers_complete s name after filled h rest

resolved-ok :
    (text rendered : String)
    → resolved text ≡ ok rendered
    → (find_markers 0 text ≡ []) × (text ≡ rendered)
unfolding resolved
resolved-ok text rendered h = ground arith

-- The text that an output has.
abbrev pub text_of : Output → String
text_of (written path text) = text
text_of (printed text) = text

output_of-text : (path : Option String) (text : String) → text_of (output_of path text) ≡ text
output_of-text none text = refl
output_of-text (some path) text = refl

module _ (uuid : String → Result (Unit {0})) (urlsplit : String → Result Url)
    (read_text : (path : String) → Result String) where
  -- If the script writes or prints a manifest, then each of its seven values is safe; the text is the
  -- template with the values put in for the markers, one marker after the other; and nothing of the
  -- form __[A-Z_]+__ is left in it.
  pub main-IsRendered :
      (args : Arguments) (output : Output)
      → main uuid urlsplit read_text args ≡ ok output
      → All (λ (marker, value). IsSafe uuid urlsplit marker value) (substitutions args)
        × ((template : String) × (read_text args.template ≡ ok template)
            × (text_of output ≡ replace_all (substitutions args) template))
        × ((before name after : String)
            → name ≢ ""
            → is_name name ≡ true
            → text_of output ≢ before ++ ("__" ++ (name ++ ("__" ++ after))))
  unfolding main
  main-IsRendered args output h =
      let (u, valid, read) =
        bind-eq-ok (validate_substitutions uuid urlsplit (substitutions args)) _ h in
      let (template, found, last) = bind-eq-ok (read_text args.template) _ read in
      let (rendered, passed, put) =
        bind-eq-ok (resolved (replace_all (substitutions args) template)) _ last in
      let (clean, same) = resolved-ok (replace_all (substitutions args) template) rendered passed in
      let out : output_of args.output rendered ≡ output = cc put in
      let text = ap text_of (sym out) ∙ output_of-text args.output rendered ∙ sym same in
      (
        validate_substitutions-IsSafe uuid urlsplit (substitutions args) valid,
        (template, found, text),
        λ before name after filled named e. find_markers_complete before name after filled named (
            ap (λ x. find_markers 0 (before ++ x)) (sym (marker-append name after))
            ∙ ap (find_markers 0) (sym e ∙ text)
            ∙ clean),
      )
