-- ===== src/Pipeline.antt =====
-- honeypots/common/events.py and attacks/assert_logs.py: the log file that a honeypot writes, and the
-- check of a capture after an attack. A file is its bytes, as it is for the log shipper; the JSON
-- printer and the JSON parser are parameters, as is the test against the schema, since a line may hold
-- any JSON value.
mod Written
mod Shipped
mod Capture
mod Tests
use honeypot_m1spro.Base.{
  ℕ, suc, String, Bool, false, Option, none, some, List, [], ◌∷◌, ◌==◌, ltb, if◌then◌else◌, ◌<>◌,
  size,
}
use honeypot_m1spro.Analyzer.Shipper.{read_lines, strip}

-- `EventWriter.write`: one more line at the end of the file.
unfoldable pub write : {J : Type 0} → (J → String) → J → String → String
write dumps event content = content <> dumps event <> "\n"

-- The events of a session, one after the other.
unfoldable pub write_all : {J : Type 0} → (J → String) → List J → String → String
write_all dumps [] content = content
write_all dumps (event ∷ events) content = write_all dumps events (write dumps event content)

-- `total` and `invalid` of assert_logs.py.
pub record Counts : Type 0 where
  pub total : ℕ
  pub invalid : ℕ

module _ {J : Type 0} (loads : String → Option J) (valid : J → Bool) where
  -- `validate_event(json.loads(line))`: false is a `ValidationError` or a `JSONDecodeError`.
  abbrev pub line_valid : Option J → Bool
  line_valid none = false
  line_valid (some event) = valid event

  unfoldable pub count_line : String → Counts → Counts
  count_line line counts =
      let stripped = strip line in
      if stripped == "" then counts else record {
        total = suc counts.total;
        invalid = if line_valid (loads stripped) then counts.invalid else suc counts.invalid;
      }

  unfoldable pub count_lines : List String → Counts → Counts
  count_lines [] counts = counts
  count_lines (line ∷ lines) counts = count_lines lines (count_line line counts)

  -- `main`, on the content of the file if there is one: the exit code.
  unfoldable pub exit_code : ℕ → Option String → ℕ
  exit_code min_events none = 1
  exit_code min_events (some content) =
      let lines = (read_lines (size content) content).0 in
      let counts = count_lines lines (record { total = 0; invalid = 0 }) in
      if ltb counts.total min_events then 1 else if ltb 0 counts.invalid then 1 else 0
