-- ===== src/Tests/FrontmatterTests.antt =====
-- utils.py and the command file at concrete data.
use my_besu_net.Base.{[], ◌≡◌, refl, map}
use my_besu_net.Base.Text.{Text, codes, strip, join, split_on, is}
use my_besu_net.Frontmatter.CommandFile.{command_content, line_end, parse_skill_md-command_content}
use my_besu_net.Frontmatter.Parse.{parse_skill_md, is_fence}
use my_besu_net.Json.{ok}

abbrev description : Text
description = codes "Reads files.\n  Writes files."

parse_skill_md-command_content_example :
    parse_skill_md (command_content (codes "files") description)
    ≡ ok (record {
      name = [];
      description = join (codes " ") (map strip (split_on line_end description));
      content = command_content (codes "files") description;
    })
unfolding split_on is_fence is strip
parse_skill_md-command_content_example =
    parse_skill_md-command_content (codes "files") description (refl, (refl, tt))
