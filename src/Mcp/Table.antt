-- ===== src/Mcp/Table.antt =====
-- mcp_servers/common.py: how the statements on the table of keys change what a key holds.
use agent_roi_console.Common.{
  ◌≡◌, refl, true, false, [], ◌∷◌, String, none, some, str_eq, eq_iff, arith, if◌then◌else◌,
}
use agent_roi_console.Common.Dict.{
  Dict, lookup, insert, remove, contains, lookup-insert, lookup-remove, contains-lookup,
}
use agent_roi_console.Json.{Fields}
use agent_roi_console.Mcp.{Row, result, complete}

pub result-insert :
    (k j : String) (row : Row) (t : Dict Row)
    → result j (insert k row t) ≡ (if str_eq k j then some row.stored else result j t)
unfolding result
result-insert k j row t = ground (arith, lookup-insert k j row t)

pub result-remove :
    (k j : String) (t : Dict Row)
    → result j (remove k t) ≡ (if str_eq k j then none else result j t)
unfolding result
result-remove k j t = ground (arith, lookup-remove k j t)

pub contains-remove :
    (k j : String) (t : Dict Row)
    → contains j (remove k t) ≡ (if str_eq k j then false else contains j t)
contains-remove k j t =
    ground (arith, contains-lookup j (remove k t), contains-lookup j t, lookup-remove k j t)

pub contains-complete :
    (k j : String) (r : Fields) (t : Dict Row) → contains j (complete k r t) ≡ contains j t
unfolding contains complete
contains-complete k j r [] = refl
contains-complete k j r ((i, row) ∷ t) = ground (arith, contains-complete k j r t)

pub result-complete :
    (k j : String) (r : Fields) (t : Dict Row)
    → result j (complete k r t)
      ≡ (if str_eq k j then (if contains k t then some r else none) else result j t)
unfolding result complete contains lookup
result-complete k j r [] = ground arith
result-complete k j r ((i, row) ∷ t) =
    ground (arith, eq_iff i k, eq_iff i j, eq_iff k j, result-complete k j r t)

pub contains-result :
    (k : String) (t : Dict Row) → contains k t ≡ elim (result k t) [ none ↦ false | some r ↦ true ]
unfolding result
contains-result k t = ground (arith, contains-lookup k t)
