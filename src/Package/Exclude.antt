-- ===== src/Package/Exclude.antt =====
-- `should_exclude` (package_skill.py, lines 19 to 39). A path is the list of its parts.
use my_besu_net.Base.{
  Bool, true, false, ◌||◌, List, [], ◌∷◌, ◌++◌, ◌≡◌, ◌↔◌, ◌⊎◌, inl, inr, refl, sym, ap, ◌∙◌, arith,
  Bool-cases, any,
}
use my_besu_net.Base.Text.{Text, codes, equal, equal_iff}

abbrev pub exclude_dirs : List Text
exclude_dirs = codes "__pycache__" ∷ codes "node_modules" ∷ []

abbrev pub exclude_files : List Text
exclude_files = codes ".DS_Store" ∷ []

abbrev pub root_exclude_dirs : List Text
root_exclude_dirs = codes "evals" ∷ []

-- `t in ts`
unfoldable pub is_in : Text → List Text → Bool
is_in t [] = false
is_in t (u ∷ us) = equal u t || is_in t us

-- `fnmatch(name, "*.pyc")`
unfoldable pub ends_with : Text → Text → Bool
ends_with [] suffix = equal [] suffix
ends_with (c ∷ t) suffix = equal (c ∷ t) suffix || ends_with t suffix

-- `rel_path.name`
unfoldable pub name_of : List Text → Text
name_of [] = []
name_of (part ∷ []) = part
name_of (part ∷ next ∷ parts) = name_of (next ∷ parts)

-- `len(parts) > 1 and parts[1] in ROOT_EXCLUDE_DIRS`
unfoldable pub below_root : List Text → Bool
unfolding is_in
below_root (folder ∷ first ∷ parts) = is_in first root_exclude_dirs
below_root _ = false

unfoldable pub should_exclude : List Text → Bool
unfolding is_in ends_with name_of below_root
should_exclude parts =
    any (λ part. is_in part exclude_dirs) parts
    || below_root parts
    || is_in (name_of parts) exclude_files
    || ends_with (name_of parts) (codes ".pyc")

-- A part that is the name of a build directory.
abbrev pub IsBuild : Text → Type 0
IsBuild part = (part ≡ codes "__pycache__") ⊎ (part ≡ codes "node_modules")

-- A build directory is on the path, or it leads through `evals` at the skill's root, or the file is
-- `.DS_Store` or has the extension `.pyc`.
abbrev pub Excluded : List Text → Type 0
Excluded parts =
    ((before : List Text) × (part : Text) × (behind : List Text) × (parts ≡ before ++ part ∷ behind)
      × IsBuild part)
    ⊎ ((folder : Text) × (rest : List Text) × (parts ≡ folder ∷ codes "evals" ∷ rest))
    ⊎ ((before : List Text) × (parts ≡ before ++ codes ".DS_Store" ∷ []))
    ⊎ ((before : List Text) × (stem : Text) × (parts ≡ before ++ (stem ++ codes ".pyc") ∷ []))

IsBuild-is_in : (part : Text) → (is_in part exclude_dirs ≡ true) ↔ IsBuild part
unfolding is_in
IsBuild-is_in part = (
  λ h. elim (Bool-cases (equal (codes "__pycache__") part)) [
    | inl e ↦ inl (sym ((equal_iff (codes "__pycache__") part).0 e))
    | inr e ↦ elim (Bool-cases (equal (codes "node_modules") part)) [
      | inl f ↦ inr (sym ((equal_iff (codes "node_modules") part).0 f))
      | inr f ↦ cc (rw (e, f) at h)
    ]
  ],
  λ h. elim h [
    | inl e ↦ rw ((equal_iff (codes "__pycache__") part).1 (sym e)) refl
    | inr e ↦ ground (arith, (equal_iff (codes "node_modules") part).1 (sym e))
  ],
)

abbrev OnPath : List Text → Type 0
OnPath parts =
    (before : List Text) × (part : Text) × (behind : List Text) × (parts ≡ before ++ part ∷ behind)
    × IsBuild part

any_build : (parts : List Text) → any (λ part. is_in part exclude_dirs) parts ≡ true → OnPath parts
any_build [] h = cc
any_build (part ∷ parts) h = elim (Bool-cases (is_in part exclude_dirs)) [
  | inl e ↦ ([], part, parts, refl, (IsBuild-is_in part).0 e)
  | inr e ↦
      let (before, p, behind, at, build) = any_build parts (rw e at h) in
      (part ∷ before, p, behind, ap (◌∷◌ part) at, build)
]

build_any :
    (before : List Text) (part : Text) (behind : List Text)
    → IsBuild part
    → any (λ p. is_in p exclude_dirs) (before ++ part ∷ behind) ≡ true
build_any [] part behind h = rw ((IsBuild-is_in part).1 h) refl
build_any (p ∷ before) part behind h = ground (arith, build_any before part behind h)

ends_with_stem :
    (t suffix : Text) → ends_with t suffix ≡ true → (stem : Text) × (t ≡ stem ++ suffix)
unfolding ends_with
ends_with_stem [] suffix h = ([], (equal_iff [] suffix).0 h)
ends_with_stem (c ∷ t) suffix h = elim (Bool-cases (equal (c ∷ t) suffix)) [
  | inl e ↦ ([], (equal_iff (c ∷ t) suffix).0 e)
  | inr e ↦ let (stem, at) = ends_with_stem t suffix (rw e at h) in (c ∷ stem, ap (◌∷◌ c) at)
]

ends_with-append : (stem suffix : Text) → ends_with (stem ++ suffix) suffix ≡ true
unfolding ends_with equal
ends_with-append [] [] = refl
ends_with-append [] (c ∷ t) = rw ((equal_iff (c ∷ t) (c ∷ t)).1 refl) refl
ends_with-append (c ∷ stem) suffix = ground (arith, ends_with-append stem suffix)

name_of-append : (before : List Text) (name : Text) → name_of (before ++ name ∷ []) ≡ name
unfolding name_of
name_of-append [] name = refl
name_of-append (p ∷ []) name = refl
name_of-append (p ∷ q ∷ before) name = name_of-append (q ∷ before) name

name_of-last :
    (part : Text) (parts : List Text)
    → (before : List Text) × (part ∷ parts ≡ before ++ name_of (part ∷ parts) ∷ [])
unfolding name_of
name_of-last part [] = ([], refl)
name_of-last part (next ∷ parts) =
    let (before, at) = name_of-last next parts in (part ∷ before, ap (◌∷◌ part) at)

below_root_evals :
    (parts : List Text)
    → below_root parts ≡ true
    → (folder : Text) × (rest : List Text) × (parts ≡ folder ∷ codes "evals" ∷ rest)
unfolding below_root is_in
below_root_evals [] h = cc
below_root_evals (folder ∷ []) h = cc
below_root_evals (folder ∷ first ∷ rest) h = elim (Bool-cases (equal (codes "evals") first)) [
  | inl e ↦
      (folder, rest, ap (λ d. folder ∷ d ∷ rest) (sym ((equal_iff (codes "evals") first).0 e)))
  | inr e ↦ cc (rw e at h)
]

below_evals : (folder : Text) (rest : List Text) → below_root (folder ∷ codes "evals" ∷ rest) ≡ true
unfolding below_root is_in equal
below_evals folder rest = refl

stored :
    (before : List Text) → is_in (name_of (before ++ codes ".DS_Store" ∷ [])) exclude_files ≡ true
unfolding is_in equal
stored before = rw (name_of-append before (codes ".DS_Store")) refl

compiled :
    (before : List Text) (stem : Text)
    → ends_with (name_of (before ++ (stem ++ codes ".pyc") ∷ [])) (codes ".pyc") ≡ true
compiled before stem =
    rw (name_of-append before (stem ++ codes ".pyc")) (ends_with-append stem (codes ".pyc"))

file_excluded :
    (parts : List Text)
    → is_in (name_of parts) exclude_files ≡ true
    → (before : List Text) × (parts ≡ before ++ codes ".DS_Store" ∷ [])
unfolding is_in name_of equal
file_excluded [] h = cc
file_excluded (part ∷ parts) h =
    let (before, at) = name_of-last part parts in
    elim (Bool-cases (equal (codes ".DS_Store") (name_of (part ∷ parts)))) [
      | inl e ↦ (
        before,
        at
            ∙ ap (λ n. before ++ n ∷ [])
                (sym ((equal_iff (codes ".DS_Store") (name_of (part ∷ parts))).0 e)),
      )
      | inr e ↦ cc (rw e at h)
    ]

compiled_excluded :
    (parts : List Text)
    → ends_with (name_of parts) (codes ".pyc") ≡ true
    → (before : List Text) × (stem : Text) × (parts ≡ before ++ (stem ++ codes ".pyc") ∷ [])
unfolding ends_with name_of equal
compiled_excluded [] h = cc
compiled_excluded (part ∷ parts) h =
    let (before, at) = name_of-last part parts in
    let (stem, named) = ends_with_stem (name_of (part ∷ parts)) (codes ".pyc") h in
    (before, stem, at ∙ ap (λ n. before ++ n ∷ []) named)

-- A path is excluded exactly when one of its parts, the skill's own folder included, is `__pycache__`
-- or `node_modules`, or the part below the skill's folder is `evals`, or the last part is `.DS_Store`
-- or ends in `.pyc`.
pub should_exclude_iff : (parts : List Text) → (should_exclude parts ≡ true) ↔ Excluded parts
unfolding should_exclude
should_exclude_iff parts = (
  λ h. elim (Bool-cases (any (λ part. is_in part exclude_dirs) parts)) [
    | inl a ↦ inl (any_build parts a)
    | inr a ↦ elim (Bool-cases (below_root parts)) [
      | inl b ↦ inr (inl (below_root_evals parts b))
      | inr b ↦ elim (Bool-cases (is_in (name_of parts) exclude_files)) [
        | inl c ↦ inr (inr (inl (file_excluded parts c)))
        | inr c ↦ inr (inr (inr (compiled_excluded parts (rw (a, b, c) at h))))
      ]
    ]
  ],
  λ h. elim h [
    | inl (before, part, behind, at, build) ↦ on_path before part behind at build
    | inr (inl (folder, rest, at)) ↦ in_evals folder rest at
    | inr (inr (inl (before, at))) ↦ rw at (by_name before)
    | inr (inr (inr (before, stem, at))) ↦ rw at (by_extension before stem)
  ],
)
  where
    on_path :
        (before : List Text) (part : Text) (behind : List Text)
        → parts ≡ before ++ part ∷ behind
        → IsBuild part
        → should_exclude parts ≡ true
    on_path before part behind at build = rw at (rw (build_any before part behind build) refl)

    in_evals :
        (folder : Text) (rest : List Text)
        → parts ≡ folder ∷ codes "evals" ∷ rest
        → should_exclude parts ≡ true
    in_evals folder rest at = rw at (ground (arith, below_evals folder rest))

    by_name : (before : List Text) → should_exclude (before ++ codes ".DS_Store" ∷ []) ≡ true
    by_name before = ground (arith, stored before)

    by_extension :
        (before : List Text) (stem : Text)
        → should_exclude (before ++ (stem ++ codes ".pyc") ∷ []) ≡ true
    by_extension before stem = ground (arith, compiled before stem)
