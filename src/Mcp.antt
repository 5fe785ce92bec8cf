-- ===== src/Mcp.antt =====
-- mcp_servers/common.py: writes of the tool servers, at most once for each idempotency key. The
-- servers' threads and processes share one SQLite table. Each statement on it is a transaction of its
-- own, so a step of a writer is one statement, and any order of the writers' steps may happen. A
-- reading of the clock and the outcome of the backend's write are inputs of a step.
pub mod Table
pub mod Once
pub mod Steps
pub mod Writes
pub mod Refinement
use agent_roi_console.Common.{
  Bool, true, false, List, [], ◌∷◌, ◌++◌, String, Option, none, some, str_eq, if◌then◌else◌,
}
use agent_roi_console.Common.Dict.{Dict, lookup, insert, remove, contains}
use agent_roi_console.Json.{Value, Fields, equals_true, with_field}
use agent_roi_console.Float.{Float, flt, float, ◌⊕◌}

-- `{"__pending__": True}`
abbrev pub pending_marker : Fields
pending_marker = Fields.field "__pending__" (Value.boolean true) Fields.empty

-- `stored == PENDING_MARKER`
abbrev pub is_pending : Fields → Bool
is_pending (Fields.field k v Fields.empty) = if str_eq k "__pending__" then equals_true v else false
is_pending _ = false

-- A row of the table `idempotency`; its time is never read.
pub record Row : Type 0 where
  pub server : String
  pub tool : String
  pub stored : Fields

abbrev pub claim_wait_s : {F : Type 0} ⦃fl : Float F⦄ → F
claim_wait_s = float 30

pub data Failure : Type 0 where
  no_key still_pending write_raised : Failure

-- Where a call of `idempotent_write` stands.
pub data Phase (F : Type 0) : Type 0 where
  claiming : Phase F
  -- in the loop of `claim`, until the deadline
  waiting : F → Phase F
  writing : Phase F
  completing : Fields → Phase F
  releasing : Phase F
  -- returned, with the result of its own write
  written : Fields → Phase F
  -- returned, with the stored result
  replayed : Fields → Phase F
  failed : Failure → Phase F

pub record Writer (F : Type 0) : Type 0 where
  pub key : String
  pub of_server : String
  pub of_tool : String
  pub phase : Phase F

pub record Input (F : Type 0) : Type 0 where
  -- `time.monotonic()`
  pub now : F
  -- what `write()` returns, `none` where it raises
  pub outcome : Option Fields

abbrev pub stored_of : Option Row → Option Fields
stored_of none = none
stored_of (some row) = some row.stored

-- `result`
unfoldable pub result : String → Dict Row → Option Fields
result key table = stored_of (lookup key table)

-- `complete`, an update of the row that the key has, if any
unfoldable pub complete : String → Fields → Dict Row → Dict Row
complete key r [] = []
complete key r ((j, row) ∷ table) =
    if str_eq j key then (j, record row { stored = r }) ∷ table else (j, row) ∷ complete key r table

module _ {F : Type 0} ⦃fl : Float F⦄ where
  abbrev pub claimed_row : Writer F → Row
  claimed_row w = record { server = w.of_server; tool = w.of_tool; stored = pending_marker }

  -- `INSERT OR IGNORE`, and the deadline of a caller that has to wait
  unfoldable pub claim : Input F → Writer F → Dict Row → Phase F × Dict Row
  claim i w table =
      if contains w.key table
      then (Phase.waiting (i.now ⊕ claim_wait_s), table)
      else (Phase.writing, insert w.key (claimed_row w) table)

  -- One round of the loop of `claim`, before its deadline.
  unfoldable pub poll : F → Option Fields → Phase F
  poll deadline none = Phase.claiming
  poll deadline (some stored) =
      if is_pending stored then Phase.waiting deadline else Phase.replayed stored

  abbrev pub after_write : Option Fields → Phase F
  after_write none = Phase.releasing
  after_write (some r) = Phase.completing r

  -- The next step of `idempotent_write` and of the `claim` in it.
  unfoldable pub advance : Input F → Writer F → Phase F → Dict Row → Phase F × Dict Row
  unfolding claim poll result complete
  advance i w Phase.claiming table =
      if str_eq w.key "" then (Phase.failed Failure.no_key, table) else claim i w table
  advance i w (Phase.waiting deadline) table =
      if flt i.now deadline
      then (poll deadline (result w.key table), table)
      else (Phase.failed Failure.still_pending, table)
  advance i w Phase.writing table = (after_write i.outcome, table)
  advance i w (Phase.completing r) table = (Phase.written r, complete w.key r table)
  advance i w Phase.releasing table = (Phase.failed Failure.write_raised, remove w.key table)
  advance i w (Phase.written r) table = (Phase.written r, table)
  advance i w (Phase.replayed r) table = (Phase.replayed r, table)
  advance i w (Phase.failed e) table = (Phase.failed e, table)

  -- What the caller gets, once the call has returned.
  unfoldable pub reply : Phase F → Option Fields
  reply (Phase.written r) = some (with_field "idempotent_replay" (Value.boolean false) r)
  reply (Phase.replayed r) = some (with_field "idempotent_replay" (Value.boolean true) r)
  reply _ = none

-- The calls in progress, and the table that they share.
pub record System (F : Type 0) : Type 0 where
  pub writers : List (Writer F)
  pub table : Dict Row

module _ {F : Type 0} ⦃fl : Float F⦄ where
  -- One step of one of the calls.
  abbrev pub moved : List (Writer F) → Writer F → List (Writer F) → Phase F × Dict Row → System F
  moved before w after p = record {
    writers = before ++ record w { phase = p.0 } ∷ after;
    table = p.1;
  }

  pub data Step : System F → System F → Type 0 where
    step_of :
        (before : List (Writer F)) (w : Writer F) (after : List (Writer F)) (table : Dict Row)
        (i : Input F)
        → Step
            (record { writers = before ++ w ∷ after; table = table })
            (moved before w after (advance i w w.phase table))

  -- Any number of steps, in any order.
  pub data Reach (s : System F) : System F → Type 0 where
    here : Reach s s
    next : {t u : System F} → Reach s t → Step t u → Reach s u
