-- ===== src/Diagnostics/Migration.antt =====
-- core/diagnostics/migrate.go: which histories are oversized, and how one is streamed into bounded
-- generations, where the file operations succeed. A file is its bytes.
pub mod Slices
pub mod Streaming
use dobby_vpn.Common.{
  ℕ, zero, suc, ◌+◌, ◌-◌, Bool, true, false, ◌&&◌, ◌||◌, List, [], ◌∷◌, ◌++◌, Option, none, some,
  ◌==◌, leb, ltb, length, drop, if◌then◌else◌,
}
use dobby_vpn.Failure.{GoError, Result, ok, err, foreign}

-- How a ReadSlice ends: at a newline, with its buffer full, or at the end of the input.
pub data Ended : Type 0 where
  line full eof : Ended

-- bufio.Reader.ReadSlice with a buffer of `n` bytes: what it reads, and what is left.
unfoldable pub read_slice : ℕ → List ℕ → List ℕ × List ℕ × Ended
read_slice zero input = ([], input, full)
read_slice (suc n) [] = ([], [], eof)
read_slice (suc n) (b ∷ bs) =
    let rest = read_slice n bs in
    if b == 10 then (b ∷ [], bs, line) else (b ∷ rest.0, rest.1, rest.2)

abbrev pub take : ℕ → List ℕ → List ℕ
take zero l = []
take (suc n) [] = []
take (suc n) (b ∷ bs) = b ∷ take n bs

-- The loop of hasRecordAfterLimit, with the rounds that are left; none where they run out.
unfoldable pub scan : ℕ → ℕ → List ℕ → Option Bool
unfolding read_slice
scan zero room input = none
scan (suc n) room input =
    let rest = scan n room (read_slice room input).1 in
    elim (read_slice room input).2 [ line ↦ some true | full ↦ rest | eof ↦ some false ]

-- hasRecordAfterLimit reads from the last byte within the limit up to the last byte of the file.
unfoldable pub section : ℕ → List ℕ → List ℕ
section limit bytes = take (length bytes - limit) (drop (limit - 1) bytes)

abbrev pub buffer : ℕ
buffer = 65536

unfoldable pub has_record_after_limit : ℕ → List ℕ → Option Bool
unfolding scan section
has_record_after_limit limit bytes =
    scan (length (section limit bytes) + 1) buffer (section limit bytes)

-- What os.Stat finds under a name.
pub data Found : Type 0 where
  missing : Found
  irregular : Found
  regular : List ℕ → Found

-- The scan never runs out of rounds.
abbrev oversized : ℕ → Found → Result Bool
oversized limit missing = ok false
oversized limit irregular = err (foreign "migrate diagnostic")
oversized limit (regular bytes) =
    if ltb limit (length bytes)
    then elim (has_record_after_limit limit bytes) [ none ↦ ok false | some b ↦ ok b ]
    else ok false

-- historyNeedsMigration, of the previous generation and the current one.
unfoldable pub history_needs_migration : ℕ → Found → Found → Result Bool
unfolding has_record_after_limit
history_needs_migration limit previous current = elim (oversized limit previous) [
  | err e ↦ err e
  | ok a ↦ elim (oversized limit current) [ err e ↦ err e | ok b ↦ ok (a || b) ]
]

-- The destination: its two generations, whether the next byte starts a record, and whether the
-- header is due. `size` is the variable that the code counts in.
pub record History : Type 0 where
  pub previous : List ℕ
  pub current : List ℕ
  pub size : ℕ
  pub at_start : Bool
  pub need_header : Bool

abbrev pub is_nonempty : List ℕ → Bool
is_nonempty [] = false
is_nonempty (b ∷ bs) = true

-- rotateFiles and the new file, between two records.
unfoldable pub rotate : ℕ → List ℕ → History → History
rotate limit header h =
    if h.at_start && leb limit h.size
    then record {
      previous = h.current;
      current = [];
      size = 0;
      at_start = h.at_start;
      need_header = is_nonempty header;
    }
    else h

unfoldable pub append : List ℕ → History → History
append bytes h = record h { current = h.current ++ bytes; size = h.size + length bytes }

unfoldable pub write_header : List ℕ → History → History
unfolding append
write_header header h =
    if h.need_header then record (append header h) { need_header = false } else h

abbrev pub ends_line : Ended → Bool
ends_line line = true
ends_line full = false
ends_line eof = false

-- One round of the loop, for a piece that is not empty.
unfoldable pub write_piece : ℕ → List ℕ → History → List ℕ → Ended → History
unfolding rotate append write_header
write_piece limit header h piece e =
    record (append piece (write_header header (rotate limit header h))) { at_start = ends_line e }

-- The loop of streamMigrationLabeled, with the rounds that are left.
unfoldable pub stream : ℕ → ℕ → ℕ → List ℕ → History → List ℕ → Option History
unfolding read_slice write_piece
stream zero room limit header h input = none
stream (suc n) room limit header h input =
    let r = read_slice room input in
    let later = stream n room limit header (write_piece limit header h r.0 r.2) r.1 in
    elim r.0 [
      | [] ↦ some h
      | b ∷ bs ↦ elim r.2 [
        | eof ↦ some (write_piece limit header h r.0 r.2)
        | line ↦ later
        | full ↦ later
      ]
    ]

-- streamMigrationLabeled of an input, from what the destination has.
unfoldable pub stream_migration : ℕ → List ℕ → History → List ℕ → Option History
unfolding stream
stream_migration limit header h input =
    stream (length input + 1) buffer limit header (record h { need_header = is_nonempty header })
      input
