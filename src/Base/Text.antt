-- ===== src/Base/Text.antt =====
-- Texts. A `match` of a text against literals is a walk down a table of literals; the round trips
-- of the status names rest on the lemmas below.
use Prim.Native.Nat.{ℕ, ◌+◌}
use Prim.Native.Char.{code}
use Prim.Native.String.{String}
use mathlib.Core.Path.{◌≡◌}
use mathlib.Core.Bool.{Bool, true, false, ◌&&◌}
use mathlib.Core.Option.{Option, none, some}
use mathlib.Core.List.{List, [], ◌∷◌, map}
use native.Mathlib.Omega.{arith}
use text.Mathlib.Text.{◌==◌ as str_eq}
use text.Mathlib.TextEquality.{eq_iff}
use mathlib.Core.Logic.{inl, inr}
use gdom.Base.Tests.{Option-cases, if◌then◌else◌, leb, ◌==◌}
use gdom.Base.Lists.{all}
use gdom.Base.Fallible.{ok, ok_or}

-- The code points of a text.
abbrev pub codes : String → List ℕ
codes String.[] = []
codes (String.◌∷◌ c s) = code c ∷ codes s

-- `u8::to_ascii_lowercase` and `str::eq_ignore_ascii_case`, on code points.
abbrev pub ascii_lower : ℕ → ℕ
ascii_lower c = if leb 65 c && leb c 90 then c + 32 else c

abbrev pub codes_eq : List ℕ → List ℕ → Bool
codes_eq [] [] = true
codes_eq [] (y ∷ ys) = false
codes_eq (x ∷ xs) [] = false
codes_eq (x ∷ xs) (y ∷ ys) = (x == y) && codes_eq xs ys

unfoldable pub eq_ignore_ascii_case : String → String → Bool
eq_ignore_ascii_case s t = codes_eq (map ascii_lower (codes s)) (map ascii_lower (codes t))

module _ {ℓ} {A : Type ℓ} where
  -- `match s { "k" => a, ... }`: the first arm whose literal is `s`.
  abbrev pub match_text : String → List (String × A) → Option A
  match_text s [] = none
  match_text s ((k, a) ∷ arms) = if str_eq s k then some a else match_text s arms

  match_text-name :
      (name : A → String) (s : String) (arms : List (String × A)) (a : A)
      → all (λ arm. str_eq (name arm.1) arm.0) arms ≡ true
      → match_text s arms ≡ some a
      → s ≡ name a
  match_text-name name s [] a named h = cc
  match_text-name name s ((k, b) ∷ arms) a named h =
      ground (arith, eq_iff s k, eq_iff (name b) k, match_text-name name s arms a)

  -- If every arm's literal is the name of its value, only the name of a value is read as it.
  pub parse-name {κ} :
      {E : Type κ} (name : A → String) (s : String) (arms : List (String × A)) (e : E) (a : A)
      → all (λ arm. str_eq (name arm.1) arm.0) arms ≡ true
      → ok_or (match_text s arms) e ≡ ok a
      → s ≡ name a
  parse-name name s arms e a named h = elim (Option-cases (match_text s arms)) [
    | inl missing ↦ absurd (ground arith)
    | inr (b, found) ↦ match_text-name name s arms a named (ground arith)
  ]
