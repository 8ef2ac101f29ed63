-- ===== src/Tests/PackageTests.antt =====
-- package_skill.py at concrete data.
use my_besu_net.Base.{true, List, [], ◌∷◌, ◌++◌, some, ◌≡◌, ◌↔◌, ◌==◌}
use my_besu_net.Base.Text.{Text, codes}
use my_besu_net.Json.{ok}
use my_besu_net.Package.Archive.{World, Packs, package_skill, package_skill_iff, wanted}
use my_besu_net.Package.Exclude.{Excluded, should_exclude, should_exclude_iff}
use my_besu_net.Tests.Samples.{safe_load, skill}

abbrev cached : List Text
cached = codes "my-skill" ∷ codes "__pycache__" ∷ codes "a.txt" ∷ []

should_exclude_iff_example : (should_exclude cached ≡ true) ↔ Excluded cached
should_exclude_iff_example = should_exclude_iff cached

abbrev world : World
world = record {
  name = codes "my-skill";
  exists = true;
  is_dir = true;
  skill_md = some skill;
  output_path = ok tt;
  nodes =
      record { arcname = codes "my-skill" ∷ codes "SKILL.md" ∷ []; is_file = true }
      ∷ record { arcname = cached; is_file = true }
      ∷ [];
  opens = true;
  writes = λ p. true;
}

abbrev zipped : List (List Text)
zipped = (codes "my-skill" ∷ codes "SKILL.md" ∷ []) ∷ []

package_skill_iff_example :
    (package_skill (λ k. k == 0) safe_load world
      ≡ ok (record { returned = some (codes "my-skill.skill"); archive = some zipped }))
    ↔ (Packs (λ k. k == 0) safe_load world
        × (codes "my-skill.skill" ≡ world.name ++ codes ".skill")
        × (zipped ≡ wanted world.nodes))
package_skill_iff_example =
    package_skill_iff (λ k. k == 0) safe_load world (codes "my-skill.skill") zipped
