-- ===== src/Protocol/Examples.antt =====
-- shared/protocol/src: paths and globs, and the laws at them.
use bidirectional_bridge_cla.Prelude.{◌≡◌, refl, true, false, none, [], ◌∷◌, ok}
use bidirectional_bridge_cla.Protocol.Path.{
  normalize_path, collapse, strip_dot_slash, strip_slashes, split_slash,
}
use bidirectional_bridge_cla.Protocol.Glob.Regexp.{test, match_any_run, match_segment_run}
use bidirectional_bridge_cla.Protocol.Glob.Compile.{
  compile, globs_overlap, literal_prefix, matches_glob, glob_to_regexp,
}
use bidirectional_bridge_cla.Protocol.Glob.Overlap.{globs_overlap_sound}
use bidirectional_bridge_cla.Protocol.Glob.Missed.{globs_overlap_misses}
use bidirectional_bridge_cla.Protocol.Scope.{
  WriteScope, codes, scopes_conflict, scope_allows, is_read_only_scope, every_of, some_of,
  is_read_only_pattern,
}
use bidirectional_bridge_cla.Protocol.Scope.Conflict.{scopes_conflict_sound}

globs_overlap_sound_example : globs_overlap (codes "src/**") (codes "src/*.ts") ≡ ok true
unfolding normalize_path strip_dot_slash collapse strip_slashes split_slash literal_prefix test
    compile match_any_run match_segment_run
globs_overlap_sound_example =
    globs_overlap_sound (codes "src/**") (codes "src/*.ts") (codes "src/a.ts") refl refl refl refl
      refl refl

globs_overlap_misses_example :
    (globs_overlap (codes "src/**x") (codes "srcx*") ≡ ok false)
    × (test (compile (codes "src/**x")) (codes "srcx") ≡ true)
    × (test (compile (codes "srcx*")) (codes "srcx") ≡ true)
unfolding normalize_path strip_dot_slash collapse strip_slashes split_slash
globs_overlap_misses_example = globs_overlap_misses (codes "src") 120 refl refl refl refl refl

abbrev sources : WriteScope
sources = record { paths = codes "src/**" ∷ []; note = none }

abbrev one_file : WriteScope
one_file = record { paths = codes "docs" ∷ codes "src/*.ts" ∷ []; note = none }

scopes_conflict_sound_example : scopes_conflict sources one_file ≡ ok true
unfolding normalize_path strip_dot_slash collapse strip_slashes split_slash literal_prefix test
    compile match_any_run match_segment_run scope_allows is_read_only_scope every_of some_of
    is_read_only_pattern matches_glob glob_to_regexp
scopes_conflict_sound_example =
    scopes_conflict_sound sources one_file (codes "src/a.ts")
      (record { normal = refl; plain = refl }, tt)
      (record { normal = refl; plain = refl }, (record { normal = refl; plain = refl }, tt)) refl
      refl
