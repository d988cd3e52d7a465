-- ===== src/Common/Prefix.antt =====
-- The prefix of the scope of a run, `f"run:{run_id}"`.
use Prim.Native.String.{String, ◌++◌, ◌∷◌}
use Prim.Native.String.append.{nil as append_nil, cons as append_cons}
use mathlib.Core.Path.{◌≡◌, ap, ◌∙◌, sym}
use mathlib.Core.Bool.{true, false}
use text.Mathlib.TextEquality.{eq_iff}

abbrev in_run : String → String
in_run s = "r" ∷ ("u" ∷ ("n" ∷ (":" ∷ s)))

run_prefix : (s : String) → "run:" ++ s ≡ in_run s
run_prefix s =
    (λ i. append_cons "r" "un:" s i)
    ∙ ap (λ t. "r" ∷ t)
        ((λ i. append_cons "u" "n:" s i)
          ∙ ap (λ t. "u" ∷ t)
              ((λ i. append_cons "n" ":" s i)
                ∙ ap (λ t. "n" ∷ t)
                    ((λ i. append_cons ":" "" s i) ∙ ap (λ t. ":" ∷ t) (λ i. append_nil s i))))

-- The scopes of two runs are the same for the same run only, and none is the global scope.
pub run_scope_injective : (s t : String) → "run:" ++ s ≡ "run:" ++ t → s ≡ t
run_scope_injective s t e =
    let opened : in_run s ≡ in_run t = sym (run_prefix s) ∙ e ∙ run_prefix t in cc

abbrev first : String → String
first String.[] = ""
first (String.◌∷◌ c s) = c ∷ ""

pub global-run_scope : (s : String) → ¬ ("global" ≡ "run:" ++ s)
global-run_scope s e =
    let opened : "global" ≡ in_run s = e ∙ run_prefix s in
    let letters : first "global" ≡ first (in_run s) = ap first opened in
    let impossible : false ≡ true = (eq_iff "g" "r").1 letters in absurd (cc)
