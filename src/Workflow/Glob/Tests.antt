-- ===== src/Workflow/Glob/Tests.antt =====
-- Runs of the patterns.
use kai_server.Common.{◌≡◌, refl, true, false}
use kai_server.Common.Bytes.{codes}
use kai_server.Workflow.Glob.{
  filepath_match, tokens, step_mode, chunks, match_chunks, match_chunk, scan_star,
}

star_stops : filepath_match (codes "a*c") (codes "a/c") ≡ false
unfolding filepath_match tokens step_mode chunks match_chunks match_chunk scan_star
star_stops = refl

star_runs : filepath_match (codes "v*.*") (codes "v1.2.3") ≡ true
unfolding filepath_match tokens step_mode chunks match_chunks match_chunk scan_star
star_runs = refl

class_taken : filepath_match (codes "[a-c]?\\*") (codes "bx*") ≡ true
unfolding filepath_match tokens step_mode chunks match_chunks match_chunk scan_star
class_taken = refl

bad_pattern : filepath_match (codes "[a-") (codes "a") ≡ false
unfolding filepath_match tokens step_mode chunks match_chunks match_chunk scan_star
bad_pattern = refl

-- The star of the standard library takes the first match of a chunk and does not come back to it.
greedy : filepath_match (codes "*[/a]*b") (codes "a/b") ≡ false
unfolding filepath_match tokens step_mode chunks match_chunks match_chunk scan_star
greedy = refl
