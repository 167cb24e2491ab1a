-- ===== src/Base/Texts/Segments.antt =====
-- The parts of a text between its slashes, and texts that start or end with another one.
use Prim.{absurd}
use Prim.Native.Nat.{ℕ}
use Prim.Native.Char.{Char, code}
use Prim.Native.String.{String, ◌++◌}
use text.Mathlib.TextLemmas.{nil-append, cons-append, cons-eq-cons}
use mathlib.Core.Path.{◌≡◌, refl, sym, ap, ◌∙◌}
use mathlib.Core.Logic.{◌≢◌}
use mathlib.Core.Bool.{true, false}
use mathlib.Core.List.{◌∷◌}
use native.Mathlib.Omega.{arith}
use azure_ml_optimization_pl.Base.Tests.{◌==◌}
use azure_ml_optimization_pl.Base.Texts.{starts_with, same_text, ends_with, split, lacks}

pub lacks-cons :
    (n : ℕ) (c : Char) (s : String)
    → lacks n (String.◌∷◌ c s) ≡ true
    → ((code c == n) ≡ false) × (lacks n s ≡ true)
unfolding lacks
lacks-cons n c s h = ground arith

lacks-head : (n : ℕ) (c : Char) (s : String) → lacks n (String.◌∷◌ c s) ≡ true → code c ≢ n
unfolding lacks
lacks-head n c s h = ground arith

abbrev slash : Char
slash = "/"

pub slash-append : (s : String) → "/" ++ s ≡ String.◌∷◌ slash s
slash-append s = cons-append slash "" s ∙ ap (String.◌∷◌ slash) (nil-append s)

-- The first slash of a text ends the part that has none.
pub segment_inj :
    (s t n m : String)
    → lacks 47 s ≡ true
    → lacks 47 t ≡ true
    → s ++ String.◌∷◌ slash n ≡ t ++ String.◌∷◌ slash m
    → (s ≡ t) × (n ≡ m)
segment_inj String.[] String.[] n m h k e =
    (refl, (cons-eq-cons.0 (sym (nil-append _) ∙ e ∙ nil-append _)).1)
segment_inj String.[] (String.◌∷◌ b t) n m h k e =
    let (same, rest) = cons-eq-cons.0 (sym (nil-append _) ∙ e ∙ cons-append b t _) in
    absurd (lacks-head 47 b t k (ap code (sym same)))
segment_inj (String.◌∷◌ a s) String.[] n m h k e =
    let (same, rest) = cons-eq-cons.0 (sym (cons-append a s _) ∙ e ∙ nil-append _) in
    absurd (lacks-head 47 a s h (ap code same))
segment_inj (String.◌∷◌ a s) (String.◌∷◌ b t) n m h k e =
    let (same, rest) = cons-eq-cons.0 (sym (cons-append a s _) ∙ e ∙ cons-append b t _) in
    let (names, behind) =
      segment_inj s t n m (lacks-cons 47 a s h).1 (lacks-cons 47 b t k).1 rest in
    (cons-eq-cons.1 (same, names), behind)

split-cons :
    (c : Char) (s rest : String)
    → (code c == 47) ≡ false
    → split (s ++ String.◌∷◌ slash rest) 47 ≡ s ∷ split rest 47
    → split (String.◌∷◌ c (s ++ String.◌∷◌ slash rest)) 47 ≡ String.◌∷◌ c s ∷ split rest 47
unfolding split
split-cons c s rest other h = rw (other, split, h) refl

pub split-segment :
    (s rest : String) → lacks 47 s ≡ true → split (s ++ ("/" ++ rest)) 47 ≡ s ∷ split rest 47
split-segment s rest h = rw slash-append (go s h)
  where
    go :
        (s : String) → lacks 47 s ≡ true → split (s ++ String.◌∷◌ slash rest) 47 ≡ s ∷ split rest 47
    go String.[] h = rw nil-append (unfold split in refl)
    go (String.◌∷◌ c s) h =
        let (other, others) = lacks-cons 47 c s h in
        rw cons-append (split-cons c s rest other (go s others))

same_text_refl : (s : String) → same_text s s ≡ true
same_text_refl String.[] = refl
same_text_refl (String.◌∷◌ c s) = ground (arith, same_text_refl s)

ends_with_refl : (s : String) → ends_with s s ≡ true
unfolding ends_with
ends_with_refl String.[] = refl
ends_with_refl (String.◌∷◌ c s) = rw (same_text_refl (String.◌∷◌ c s)) refl

ends_with-further :
    (c : Char) (s t : String) → ends_with s t ≡ true → ends_with (String.◌∷◌ c s) t ≡ true
unfolding ends_with
ends_with-further c s t h = ground (arith, h)

pub ends_with-append : (s t : String) → ends_with (s ++ t) t ≡ true
ends_with-append String.[] t = rw nil-append (ends_with_refl t)
ends_with-append (String.◌∷◌ c s) t =
    rw cons-append (ends_with-further c (s ++ t) t (ends_with-append s t))

pub starts_with-append : (s t : String) → starts_with (s ++ t) s ≡ true
unfolding starts_with
starts_with-append String.[] t = refl
starts_with-append (String.◌∷◌ c s) t = rw cons-append (ground (arith, starts_with-append s t))
