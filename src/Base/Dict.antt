-- ===== src/Base/Dict.antt =====
-- Python's dicts with `str` keys, in insertion order.
use mathlib.Core.List.{List, [], ◌∷◌, ◌++◌}
use mathlib.Core.Option.{Option, none, some}
use mathlib.Core.Path.{◌≡◌, refl}
use native.Mathlib.Omega.{arith}
use my_besu_net.Base.Logic.{if◌then◌else◌}
use my_besu_net.Base.Text.{Text, equal, equal_iff}

abbrev pub Dict {ℓ} : Type ℓ → Type ℓ
Dict V = List (Text × V)

module _ {ℓ} {V : Type ℓ} where
  -- `d.get(k)`
  unfoldable pub lookup : Text → Dict V → Option V
  lookup k [] = none
  lookup k ((j, v) ∷ d) = if equal j k then some v else lookup k d

  -- `d[k] = v`
  unfoldable pub insert : Text → V → Dict V → Dict V
  insert k v [] = (k, v) ∷ []
  insert k v ((j, w) ∷ d) = if equal j k then (j, v) ∷ d else (j, w) ∷ insert k v d

  -- No key comes twice.
  abbrev pub NodupKeys : Dict V → Type ℓ
  NodupKeys [] = Unit
  NodupKeys ((k, _) ∷ d) = (lookup k d ≡ none) × NodupKeys d

  pub lookup-insert :
      (j k : Text) (v : V) (d : Dict V)
      → lookup j (insert k v d) ≡ (if equal k j then some v else lookup j d)
  unfolding lookup insert
  lookup-insert j k v [] = refl
  lookup-insert j k v ((i, w) ∷ d) =
      ground (arith, equal_iff i k, equal_iff i j, equal_iff k j, lookup-insert j k v d)

  pub insert-NodupKeys : (k : Text) (v : V) (d : Dict V) → NodupKeys d → NodupKeys (insert k v d)
  unfolding lookup insert
  insert-NodupKeys k v [] u = (refl, tt)
  insert-NodupKeys k v ((j, w) ∷ d) (fresh, u) =
      ground (arith, equal_iff j k, equal_iff k j, insert-NodupKeys k v d u, lookup-insert j k v d)

abbrev pub or_empty {ℓ} : {V : Type ℓ} → Option (List V) → List V
or_empty none = []
or_empty (some vs) = vs

-- Dicts of lists that grow.
module _ {ℓ} {V : Type ℓ} where
  -- `if k not in d: d[k] = []`
  unfoldable pub ensure : Text → Dict (List V) → Dict (List V)
  ensure k d = elim (lookup k d) [ none ↦ insert k [] d | some _ ↦ d ]

  -- `d[k].append(v)`, for a key that `d` holds
  unfoldable pub append_at : Text → V → Dict (List V) → Dict (List V)
  append_at k v d = elim (lookup k d) [ none ↦ d | some vs ↦ insert k (vs ++ v ∷ []) d ]

  pub lookup-ensure :
      (j k : Text) (d : Dict (List V))
      → lookup j (ensure k d) ≡ (if equal k j then some (or_empty (lookup j d)) else lookup j d)
  unfolding ensure
  lookup-ensure j k d = ground (arith, equal_iff k j, lookup-insert j k [] d)

  pub lookup-append_at :
      (j k : Text) (v : V) (d : Dict (List V)) (vs : List V)
      → lookup k d ≡ some vs
      → lookup j (append_at k v d) ≡ (if equal k j then some (vs ++ v ∷ []) else lookup j d)
  unfolding append_at
  lookup-append_at j k v d vs h = rw (h, append_at) (lookup-insert j k (vs ++ v ∷ []) d)

  pub ensure-NodupKeys : (k : Text) (d : Dict (List V)) → NodupKeys d → NodupKeys (ensure k d)
  unfolding ensure
  ensure-NodupKeys k d u =
      elim (lookup k d) as (λ o. NodupKeys (elim o [ none ↦ insert k [] d | some _ ↦ d ])) [
        | none ↦ insert-NodupKeys k [] d u
        | some _ ↦ u
      ]

  pub append_at-NodupKeys :
      (k : Text) (v : V) (d : Dict (List V)) → NodupKeys d → NodupKeys (append_at k v d)
  unfolding append_at
  append_at-NodupKeys k v d u =
      elim (lookup k d)
        as (λ o. NodupKeys (elim o [ none ↦ d | some vs ↦ insert k (vs ++ v ∷ []) d ])) [
          | none ↦ u
          | some vs ↦ insert-NodupKeys k (vs ++ v ∷ []) d u
        ]
