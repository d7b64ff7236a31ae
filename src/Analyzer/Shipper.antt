-- ===== src/Analyzer/Shipper.antt =====
-- analyzer/shipper.py: the lines that are read from the files of the services and sent to the analyzer.
-- A file is its bytes, one character for each; a line ends at a line feed, a carriage return or both. The
-- JSON parser, the clock and the state of the disk are parameters.
use honeypot_m1spro.Base.{
  Dict, lookup, insert, ℕ, zero, suc, ◌+◌, ◌-◌, Char, code, String, Bool, true, false, not, ◌&&◌,
  ◌||◌, Option, none, some, List, [], ◌∷◌, ◌++◌, map, ◌==◌, ltb, leb, eqb, if◌then◌else◌, size,
  skip,
}
use honeypot_m1spro.Events.{services}

-- `SERVICES` are the services of the event schema; `EXPORT_INTERVAL_S`, in seconds.
abbrev export_interval : ℕ
export_interval = 300

-- The offsets file: absent, unreadable, or a JSON object.
pub data OffsetsFile : Type 0 where
  missing broken : OffsetsFile
  saved : Dict ℕ → OffsetsFile

abbrev offset_or_zero : Option ℕ → ℕ
offset_or_zero none = 0
offset_or_zero (some n) = n

abbrev pub offset_of : String → Dict ℕ → ℕ
offset_of service offsets = offset_or_zero (lookup service offsets)

-- `_load_offsets`.
unfoldable pub load_offsets : OffsetsFile → Dict ℕ
load_offsets missing = map (λ s. (s, 0)) services
load_offsets broken = map (λ s. (s, 0)) services
load_offsets (saved offsets) = map (λ s. (s, offset_of s offsets)) services

-- The size of a file that may be missing.
abbrev size_or_zero : Option String → ℕ
size_or_zero none = 0
size_or_zero (some content) = size content

-- `_seed_offsets_at_eof`, over the services.
unfoldable pub seed_offsets_at_eof : Dict String → List String → Dict ℕ → Dict ℕ
seed_offsets_at_eof files [] offsets = offsets
seed_offsets_at_eof files (s ∷ ss) offsets =
    seed_offsets_at_eof files ss (insert s (size_or_zero (lookup s files)) offsets)

-- The start of `run`, with `SHIP_FROM_START`.
unfoldable pub start_offsets : Bool → Dict String → OffsetsFile → Dict ℕ
start_offsets from_start files missing =
    if from_start
    then load_offsets missing
    else seed_offsets_at_eof files services (load_offsets missing)
start_offsets from_start files file = load_offsets file

-- A line feed behind a carriage return belongs to it.
abbrev pub drop_feed : String → String
drop_feed String.[] = ""
drop_feed (String.◌∷◌ c s) = if eqb (code c) b'\n' then s else String.◌∷◌ c s

-- `readline` in text mode: the text up to the first line break, which a line feed stands for in the line,
-- and the rest.
abbrev pub with_head : Char → String × String → String × String
with_head c (line, rest) = (String.◌∷◌ c line, rest)

unfoldable pub read_line : String → String × String
read_line String.[] = ("", "")
read_line (String.◌∷◌ c s) =
    let more = read_line s in
    if eqb (code c) b'\n'
    then (String.◌∷◌ c "", s)
    else if eqb (code c) b'\r'
    then ("\n", drop_feed s)
    else with_head c more

-- `for line in fh`, on fuel: the lines, and what is left unread.
abbrev pub add_line : String → List String × String → List String × String
add_line line (lines, rest) = (line ∷ lines, rest)

unfoldable pub read_lines : ℕ → String → List String × String
read_lines zero s = ([], s)
read_lines (suc fuel) String.[] = ([], "")
read_lines (suc fuel) (String.◌∷◌ c s) =
    let r = read_line (String.◌∷◌ c s) in add_line r.0 (read_lines fuel r.1)

-- The characters that `str.strip` takes away, as far as they are bytes.
abbrev pub is_space : ℕ → Bool
is_space n = leb 9 n && leb n 13 || leb 28 n && leb n 32

-- `s.lstrip()` and `s.rstrip()`.
abbrev pub lstrip : String → String
lstrip String.[] = ""
lstrip (String.◌∷◌ c s) = elim (is_space (code c)) [ true ↦ lstrip s | false ↦ String.◌∷◌ c s ]

abbrev pub cons_kept : Char → String → String
cons_kept c String.[] = if is_space (code c) then "" else String.◌∷◌ c ""
cons_kept c (String.◌∷◌ d s) = String.◌∷◌ c (String.◌∷◌ d s)

abbrev pub rstrip : String → String
rstrip String.[] = ""
rstrip (String.◌∷◌ c s) = cons_kept c (rstrip s)

abbrev pub strip : String → String
strip s = rstrip (lstrip s)

-- What was sent: the lines of the unified file, and the events that were posted.
pub record Sent (J : Type 0) : Type 0 where
  pub unified : List String
  pub posts : List J

module _ {J : Type 0} (loads : String → Option J) where
  abbrev send : String → Option J → Sent J → Sent J
  send line none sent = sent
  send line (some event) sent = record {
    unified = sent.unified ++ line ∷ [];
    posts = sent.posts ++ event ∷ [];
  }

  -- `_ship_line`; whatever becomes of the post, nothing else depends on it.
  unfoldable pub ship_line : String → Sent J → Sent J
  ship_line line sent =
      let stripped = strip line in
      if stripped == "" then sent else send stripped (loads stripped) sent

  unfoldable pub ship_lines : List String → Sent J → Sent J
  ship_lines [] sent = sent
  ship_lines (line ∷ lines) sent = ship_lines lines (ship_line line sent)

  -- The body of the loop over the services, for one that has a file: the new offset, and what is sent.
  unfoldable pub poll_file : String → ℕ → Sent J → ℕ × Sent J
  poll_file content offset sent =
      let from = if ltb (size content) offset then 0 else offset in
      let ahead = skip from content in
      let read = read_lines (size ahead) ahead in
      (from + (size ahead - size read.1), ship_lines read.0 sent)

  abbrev pub poll_if_there : String → Option String → Dict ℕ → Sent J → Dict ℕ × Sent J
  poll_if_there service none offsets sent = (offsets, sent)
  poll_if_there service (some content) offsets sent =
      let polled = poll_file content (offset_of service offsets) sent in
      (insert service polled.0 offsets, polled.1)

  -- The loop over the services.
  unfoldable pub poll : Dict String → List String → Dict ℕ → Sent J → Dict ℕ × Sent J
  poll files [] offsets sent = (offsets, sent)
  poll files (service ∷ rest) offsets sent =
      let polled = poll_if_there service (lookup service files) offsets sent in
      poll files rest polled.0 polled.1

-- `_save_offsets`: an error of the disk leaves the file as it was.
abbrev pub save_offsets : Bool → Dict ℕ → OffsetsFile → OffsetsFile
save_offsets writable offsets file = if writable then saved offsets else file

-- The state of `run`.
pub record Shipper (J : Type 0) : Type 0 where
  pub offsets : Dict ℕ
  pub offsets_file : OffsetsFile
  pub last_export : ℕ
  pub exports : ℕ
  pub sent : Sent J

-- One turn of `while True`: `now` in seconds; the exports are counted.
unfoldable pub turn :
    {J : Type 0} → (String → Option J) → Dict String → Bool → ℕ → Shipper J → Shipper J
turn loads files writable now s =
    let polled = poll loads files services s.offsets s.sent in
    let due = leb export_interval (now - s.last_export) in
    record {
      offsets = polled.0;
      offsets_file = save_offsets writable polled.0 s.offsets_file;
      last_export = if due then now else s.last_export;
      exports = if due then suc s.exports else s.exports;
      sent = polled.1;
    }

-- `run` before its loop.
unfoldable pub start : {J : Type 0} → Bool → Dict String → Bool → OffsetsFile → Sent J → Shipper J
start from_start files writable file sent =
    let offsets = start_offsets from_start files file in
    let seeds : Bool = elim file [ missing ↦ not from_start | _ ↦ false ] in
    record {
      offsets = offsets;
      offsets_file = if seeds then save_offsets writable offsets file else file;
      last_export = 0;
      exports = 0;
      sent = sent;
    }
