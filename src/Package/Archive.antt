-- ===== src/Package/Archive.antt =====
-- `package_skill` (package_skill.py, lines 42 to 108), without its printing. `World` is what the function
-- meets: the file system, and which writes raise.
use my_besu_net.Base.{
  Bool, true, false, not, ◌&&◌, List, [], ◌∷◌, ◌++◌, Option, none, some, ◌≡◌, ◌↔◌, refl, sym, ap,
  ◌∙◌, if◌then◌else◌, Bool-cases, inl, inr, All, append_assoc, append-nil,
}
use my_besu_net.Base.Text.{Text, codes}
use my_besu_net.Json.{Value, Result, ok, ◌>>=◌, >>=-ok}
use my_besu_net.Package.Exclude.{should_exclude}
use my_besu_net.Validate.Rules.{Verdict, valid, validate_skill}

-- a path that `rglob('*')` yields, relative to the parent of the skill's folder
pub record Node : Type 0 where
  pub arcname : List Text
  pub is_file : Bool

pub record World : Type 0 where
  pub name : Text
  pub exists : Bool
  pub is_dir : Bool
  pub skill_md : Option Text
  -- the making of the output directory
  pub output_path : Result (Unit {0})
  pub nodes : List Node
  -- the zip file can be opened; a file can be written to it
  pub opens : Bool
  pub writes : List Text → Bool

-- what the function returns, and the entries of the zip file where it was opened
pub record Packaged : Type 0 where
  pub returned : Option Text
  pub archive : Option (List (List Text))

abbrev pub no_package : Packaged
no_package = record { returned = none; archive = none }

-- the loop over the folder; the flag is set where no write raised
unfoldable pub add_files :
    (List Text → Bool) → List Node → List (List Text) → Bool × List (List Text)
add_files writes [] zipf = (true, zipf)
add_files writes (node ∷ nodes) zipf =
    if node.is_file && not (should_exclude node.arcname)
    then (if writes node.arcname
        then add_files writes nodes (zipf ++ node.arcname ∷ [])
        else (false, zipf))
    else add_files writes nodes zipf

unfoldable pub close_zip : Text → Bool × List (List Text) → Packaged
close_zip name (true, zipf) = record {
  returned = some (name ++ codes ".skill");
  archive = some zipf;
}
close_zip name (false, zipf) = record { returned = none; archive = some zipf }

unfoldable pub write_zip : World → Packaged
unfolding add_files close_zip
write_zip w = if w.opens then close_zip w.name (add_files w.writes w.nodes []) else no_package

-- The files of the folder that are not excluded, in their order.
abbrev pub wanted : List Node → List (List Text)
wanted [] = []
wanted (node ∷ nodes) =
    if node.is_file && not (should_exclude node.arcname)
    then node.arcname ∷ wanted nodes
    else wanted nodes

add_files-wanted :
    (writes : List Text → Bool) (nodes : List Node) (zipf : List (List Text))
    → All (λ p. writes p ≡ true) (wanted nodes)
    → add_files writes nodes zipf ≡ (true, zipf ++ wanted nodes)
unfolding add_files
add_files-wanted writes [] zipf h = ap (λ z. (true, z)) (sym (append-nil zipf))
add_files-wanted writes (node ∷ nodes) zipf h =
    elim (Bool-cases (node.is_file && not (should_exclude node.arcname))) [
      | inl e ↦
          let (one, all) : (writes node.arcname ≡ true)
              × All (λ p. writes p ≡ true) (wanted nodes) =
            rw e at h in
          rw (e, one)
            (add_files-wanted writes nodes (zipf ++ node.arcname ∷ []) all
              ∙ rw (append_assoc zipf (node.arcname ∷ []) (wanted nodes)))
      | inr e ↦ rw e (add_files-wanted writes nodes zipf (rw e at h))
    ]

add_files_written :
    (writes : List Text → Bool) (nodes : List Node) (zipf entries : List (List Text))
    → add_files writes nodes zipf ≡ (true, entries)
    → All (λ p. writes p ≡ true) (wanted nodes)
unfolding add_files
add_files_written writes [] zipf entries h = tt
add_files_written writes (node ∷ nodes) zipf entries h =
    elim (Bool-cases (node.is_file && not (should_exclude node.arcname))) [
      | inl e ↦ elim (Bool-cases (writes node.arcname)) [
        | inl f ↦
            rw e (
              f,
              add_files_written writes nodes (zipf ++ node.arcname ∷ []) entries (rw (e, f) at h),
            )
        | inr f ↦ cc (rw (e, f) at h)
      ]
      | inr e ↦ rw e (add_files_written writes nodes zipf entries (rw e at h))
    ]

module _ {N : Type 0} (is_zero : N → Bool) (safe_load : Text → Option (Value N)) where
  unfoldable pub package_valid : World → Verdict → Result Packaged
  unfolding write_zip
  package_valid w valid = do made ← w.output_path; ok (write_zip w)
  package_valid w _ = ok no_package

  unfoldable pub package_skill : World → Result Packaged
  unfolding package_valid
  package_skill w =
      if not w.exists
      then ok no_package
      else if not w.is_dir
      then ok no_package
      else (elim (w.skill_md) [
        | none ↦ ok no_package
        | some content ↦ package_valid w (validate_skill is_zero safe_load (some content))
      ])

  abbrev packed : Text → List (List Text) → Packaged
  packed file_name entries = record { returned = some file_name; archive = some entries }

  close_zip-packed :
      (name : Text) (r : Bool × List (List Text)) (file_name : Text) (entries : List (List Text))
      → close_zip name r ≡ packed file_name entries
      → (r ≡ (true, entries)) × (file_name ≡ name ++ codes ".skill")
  unfolding close_zip
  close_zip-packed name (true, zipf) file_name entries h = (cc, cc)
  close_zip-packed name (false, zipf) file_name entries h = cc

  write_zip-packed :
      (w : World) (file_name : Text) (entries : List (List Text))
      → write_zip w ≡ packed file_name entries
      → (w.opens ≡ true)
        × (add_files w.writes w.nodes [] ≡ (true, entries))
        × (file_name ≡ w.name ++ codes ".skill")
  unfolding write_zip
  write_zip-packed w file_name entries h = elim (Bool-cases (w.opens)) [
    | inl e ↦
        let (added, named) =
          close_zip-packed w.name (add_files w.writes w.nodes []) file_name entries (rw e at h) in
        (e, added, named)
    | inr e ↦ cc (rw e at h)
  ]

  package_valid-packed :
      (w : World) (v : Verdict) (file_name : Text) (entries : List (List Text))
      → package_valid w v ≡ ok (packed file_name entries)
      → (v ≡ valid) × (w.output_path ≡ ok tt) × (write_zip w ≡ packed file_name entries)
  unfolding package_valid
  package_valid-packed w valid file_name entries h =
      let (made, at, rest) = >>=-ok (w.output_path) (λ made. ok (write_zip w)) h in (refl, at, cc)
  package_valid-packed w _ file_name entries h = cc

  -- The folder exists with a valid SKILL.md, and everything that is written can be written.
  pub record Packs (w : World) : Type 0 where
    pub exists : w.exists ≡ true
    pub is_dir : w.is_dir ≡ true
    pub content : Text
    pub has_skill_md : w.skill_md ≡ some content
    pub is_valid : validate_skill is_zero safe_load (some content) ≡ valid
    pub output_path : w.output_path ≡ ok tt
    pub opens : w.opens ≡ true
    pub writes : All (λ p. w.writes p ≡ true) (wanted w.nodes)

  -- The function returns a path exactly when the folder exists with a valid SKILL.md and everything
  -- that is written can be written; the zip file then has the files of the folder that are not
  -- excluded, each once, in their order, and nothing else.
  pub package_skill_iff :
      (w : World) (file_name : Text) (entries : List (List Text))
      → (package_skill w ≡ ok (record { returned = some file_name; archive = some entries }))
        ↔ (Packs w × (file_name ≡ w.name ++ codes ".skill") × (entries ≡ wanted w.nodes))
  unfolding package_skill package_valid write_zip close_zip
  package_skill_iff w file_name entries = (
    λ h. found (w.exists) (w.is_dir) (w.skill_md) refl refl refl h,
    λ h.
        let (p, named, listed) = h in
        rw
          (
            p.exists,
            p.is_dir,
            p.has_skill_md,
            p.is_valid,
            p.output_path,
            p.opens,
            add_files-wanted w.writes w.nodes [] p.writes,
            named,
            listed,
          )
          refl,
  )
    where
      found :
          (e d : Bool) (o : Option Text)
          → w.exists ≡ e
          → w.is_dir ≡ d
          → w.skill_md ≡ o
          → (if not e then ok no_package else if not d then ok no_package else (elim o [
            | none ↦ ok no_package
            | some content ↦ package_valid w (validate_skill is_zero safe_load (some content))
          ]))
            ≡ ok (packed file_name entries)
          → Packs w × (file_name ≡ w.name ++ codes ".skill") × (entries ≡ wanted w.nodes)
      found true true (some content) e d o h =
          let (v, made, written) =
            package_valid-packed w (validate_skill is_zero safe_load (some content)) file_name
              entries h in
          let (opened, added, named) = write_zip-packed w file_name entries written in
          let all = add_files_written w.writes w.nodes [] entries added in
          let same : (true, entries) ≡ (true, wanted w.nodes) =
            sym added ∙ add_files-wanted w.writes w.nodes [] all in
          (
            record {
              exists = e;
              is_dir = d;
              content = content;
              has_skill_md = o;
              is_valid = v;
              output_path = made;
              opens = opened;
              writes = all;
            },
            named,
            ap (λ r. r.1) same,
          )
      found true true none e d o h = cc
      found true false o e d q h = cc
      found false d o e k q h = cc
