-- ===== src/Prelude/Tables.antt =====
-- Go maps by text that the code also walks, as association lists.

use Prim.Native.String.{String}
use mathlib.Core.Path.{◌≡◌, refl}
use mathlib.Core.Logic.{ite}
use mathlib.Core.Option.{Option, none, some}
use mathlib.Core.List.{List, [], ◌∷◌}
use native.Mathlib.Omega.{arith}
use gaoge_agent_runtime.Prelude.Text.{text_dec}

abbrev pub Table : Type 0 → Type 0
Table V = List (String × V)

module _ {V : Type 0} where
  unfoldable pub lookup : String → Table V → Option V
  lookup k [] = none
  lookup k ((i, v) ∷ t) = ite (text_dec k i) (some v) (lookup k t)

  -- `m[k] = v`.
  unfoldable pub assign : String → V → Table V → Table V
  assign k v [] = (k, v) ∷ []
  assign k v ((i, w) ∷ t) = ite (text_dec k i) ((i, v) ∷ t) ((i, w) ∷ assign k v t)

  -- `delete(m, k)`.
  unfoldable pub remove : String → Table V → Table V
  remove k [] = []
  remove k ((i, w) ∷ t) = ite (text_dec k i) (remove k t) ((i, w) ∷ remove k t)

  -- A pass that replaces each value.
  unfoldable pub replace_all : (V → V) → Table V → Table V
  replace_all f [] = []
  replace_all f ((i, v) ∷ t) = (i, f v) ∷ replace_all f t

  pub lookup-assign :
      (k q : String) (v : V) (t : Table V)
      → lookup q (assign k v t) ≡ ite (text_dec q k) (some v) (lookup q t)
  unfolding lookup assign
  lookup-assign k q v [] = refl
  lookup-assign k q v ((i, w) ∷ t) = ground (arith, lookup-assign k q v t)

  abbrev pub mapped : (V → V) → Option V → Option V
  mapped f none = none
  mapped f (some v) = some (f v)

  pub lookup-replace_all :
      (f : V → V) (q : String) (t : Table V) → lookup q (replace_all f t) ≡ mapped f (lookup q t)
  unfolding lookup replace_all
  lookup-replace_all f q [] = refl
  lookup-replace_all f q ((i, v) ∷ t) = ground (arith, lookup-replace_all f q t)

  pub remove_absent : (k : String) (t : Table V) → lookup k t ≡ none → remove k t ≡ t
  unfolding lookup remove
  remove_absent k [] h = refl
  remove_absent k ((i, v) ∷ t) h = ground (arith, remove_absent k t)
