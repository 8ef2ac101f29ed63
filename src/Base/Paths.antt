-- ===== src/Base/Paths.antt =====
-- Names of files, as `pathlib` takes them apart.
use Prim.Native.Nat.{ℕ}
use mathlib.Core.List.{[], ◌∷◌, ◌++◌}
use mathlib.Core.Option.{Option, none, some}
use mathlib.Core.Path.{◌≡◌, refl}
use my_besu_net.Base.Logic.{◌==◌, if◌then◌else◌}
use my_besu_net.Base.Text.{Text, codes}

-- what stands before and after the last dot
unfoldable pub last_dot : Text → Option (Text × Text)
last_dot [] = none
last_dot (c ∷ t) = elim (last_dot t) [
  | some (before, after) ↦ some (c ∷ before, after)
  | none ↦ if c == b'.' then some ([], t) else none
]

-- `Path(name).stem`: a dot at either end begins no suffix
unfoldable pub stem : Text → Text
unfolding last_dot
stem name = elim (last_dot name) [
  | none ↦ name
  | some (before, after) ↦ elim before [
    | [] ↦ name
    | c ∷ b ↦ elim after [ [] ↦ name | d ∷ a ↦ c ∷ b ]
  ]
]

-- `Path(name).with_suffix("." + extension)`
unfoldable pub with_suffix : Text → Text → Text
unfolding stem
with_suffix name extension = stem name ++ (codes "." ++ extension)

last_dot-append :
    (t extension : Text)
    → last_dot extension ≡ none
    → last_dot (t ++ b'.' ∷ extension) ≡ some (t, extension)
unfolding last_dot
last_dot-append [] extension h = rw h refl
last_dot-append (c ∷ t) extension h = rw (last_dot-append t extension h) refl

-- A suffix without a dot is the one that is replaced.
pub stem-append :
    (c : ℕ) (t : Text) (d : ℕ) (extension : Text)
    → last_dot (d ∷ extension) ≡ none
    → stem ((c ∷ t) ++ b'.' ∷ d ∷ extension) ≡ c ∷ t
unfolding stem
stem-append c t d extension h = rw (last_dot-append (c ∷ t) (d ∷ extension) h) refl
