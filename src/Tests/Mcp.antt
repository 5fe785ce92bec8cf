-- ===== src/Tests/Mcp.antt =====
-- mcp_servers/common.py at two concurrent calls with one key.
use agent_roi_console.Common.{ℕ, ◌+◌, ◌≤◌, ◌≡◌, refl, inl, inr, Bool, [], ◌∷◌, Option, none, some}
use agent_roi_console.Common.Dict.{Dict, lookup, insert, contains}
use agent_roi_console.Json.{Value, Fields, with_field}
use agent_roi_console.Float.Scaled.{ℤ, pos, scaled}
use agent_roi_console.Mcp.{
  Row, Phase, Writer, Input, System, Step, Reach, step_of, here, next, advance, claim, poll, result,
  complete, pending_marker, reply,
}
use agent_roi_console.Mcp.Once.{has_row}
use agent_roi_console.Mcp.Steps.{Reach-IsOnce}
use agent_roi_console.Mcp.Writes.{writes, one_write, same_result, start-IsOnce}
use agent_roi_console.Mcp.Refinement.{FirstResult, view, step-refines}

abbrev caller : Phase ℤ → Writer ℤ
caller p = record { key = "k1"; of_server = "slack"; of_tool = "post_message"; phase = p }

abbrev posted : Fields
posted = Fields.field "ts" (Value.text "1700000001.000100") Fields.empty

abbrev row : Fields → Row
row r = record { server = "slack"; tool = "post_message"; stored = r }

abbrev holding : Fields → Dict Row
holding r = ("k1", row r) ∷ []

abbrev at_time : ℕ → Option Fields → Input ℤ
at_time n o = record { now = pos n; outcome = o }

abbrev two : Phase ℤ → Phase ℤ → Dict Row → System ℤ
two p q table = record { writers = caller p ∷ caller q ∷ []; table = table }

abbrev start : System ℤ
start = two Phase.claiming Phase.claiming []

claimed : Step start (two Phase.writing Phase.claiming (holding pending_marker))
unfolding advance claim contains insert
claimed = step_of [] (caller Phase.claiming) (caller Phase.claiming ∷ []) [] (at_time 0 none)

abbrev both : System ℤ
both = two Phase.writing (Phase.waiting (pos 31)) (holding pending_marker)

waits : Step (two Phase.writing Phase.claiming (holding pending_marker)) both
unfolding advance claim contains insert
waits =
    step_of (caller Phase.writing ∷ []) (caller Phase.claiming) [] (holding pending_marker)
      (at_time 1 none)

wrote : Step both (two (Phase.completing posted) (Phase.waiting (pos 31)) (holding pending_marker))
unfolding advance
wrote =
    step_of [] (caller Phase.writing) (caller (Phase.waiting (pos 31)) ∷ [])
      (holding pending_marker) (at_time 2 (some posted))

abbrev after_commit : System ℤ
after_commit = two (Phase.written posted) (Phase.waiting (pos 31)) (holding posted)

committed :
    Step
      (two (Phase.completing posted) (Phase.waiting (pos 31)) (holding pending_marker))
      after_commit
unfolding advance complete
committed =
    step_of [] (caller (Phase.completing posted)) (caller (Phase.waiting (pos 31)) ∷ [])
      (holding pending_marker) (at_time 3 none)

abbrev finish : System ℤ
finish = two (Phase.written posted) (Phase.replayed posted) (holding posted)

replays : Step after_commit finish
unfolding advance poll result lookup
replays =
    step_of (caller (Phase.written posted) ∷ []) (caller (Phase.waiting (pos 31))) []
      (holding posted) (at_time 4 none)

history : Reach start finish
history = next (next (next (next (next here claimed) waits) wrote) committed) replays

replied :
    reply (caller (Phase.replayed posted)).phase
    ≡ some (with_field "idempotent_replay" (Value.boolean Bool.true) posted)
unfolding reply
replied = refl

one_write_example : writes "k1" finish.writers + has_row "k1" start.table ≤ 1
one_write_example = one_write start finish (refl, (refl, tt)) history "k1"

same_result_example : posted ≡ posted
same_result_example =
    same_result start finish (refl, (refl, tt)) history (caller (Phase.written posted))
      (caller (Phase.replayed posted)) posted posted (inl refl) (inr (inl refl)) refl refl refl

step-refines_example :
    FirstResult
      (view (two (Phase.completing posted) (Phase.waiting (pos 31)) (holding pending_marker)).table)
      (view after_commit.table)
step-refines_example =
    step-refines
      (Reach-IsOnce (start-IsOnce start (refl, (refl, tt)))
        (next (next (next here claimed) waits) wrote))
      committed
