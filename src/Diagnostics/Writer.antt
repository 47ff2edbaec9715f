-- ===== src/Diagnostics/Writer.antt =====
-- core/diagnostics/files.go: a Writer and the two generations of its file, under the file's lock.
use dobby_vpn.Common.{
  ℕ, ◌+◌, ◌<◌, ◌≤◌, Bool, true, false, not, List, [], ◌∷◌, Option, none, some, ◌≡◌, ◌⊎◌, arith,
  if◌then◌else◌, ◌==◌, leb, ltb,
}
use dobby_vpn.Failure.{Result, ok, err, foreign, is_ok}

-- A generation is its complete records, the newest first; a record is its length. `id` is the
-- file's identity.
pub record Generation : Type 0 where
  pub id : ℕ
  pub records : List ℕ

pub record Files : Type 0 where
  pub current : Option Generation
  pub previous : Option Generation
  pub fresh_id : ℕ

pub record Writer : Type 0 where
  pub limit : ℕ
  pub closed : Bool
  pub rotate : Bool
  pub last_id : Option ℕ

unfoldable pub size : List ℕ → ℕ
size [] = 0
size (r ∷ rs) = r + size rs

-- openAppend creates the file if it is not there.
unfoldable pub open_append : Files → Generation × Files
open_append fs = elim fs.current [
  | some g ↦ (g, fs)
  | none ↦
      let g : Generation = record { id = fs.fresh_id; records = [] } in
      (g, record fs { current = some g; fresh_id = fs.fresh_id + 1 })
]

-- rotateFiles, once the previous generation could be removed and the current one renamed.
unfoldable pub rotate_files : Files → Files
rotate_files fs = record fs { current = none; previous = fs.current }

abbrev same_id : ℕ → Option ℕ → Bool
same_id a none = false
same_id a (some b) = a == b

abbrev put : Files → Generation → ℕ → Files
put fs g n = record fs { current = some (record g { records = n ∷ g.records }) }

-- The record goes to the end of the open generation, if it can be encoded. `encode` is told
-- whether it is the first of its generation.
unfoldable pub append_record : Files → Generation → Bool → (Bool → Result ℕ) → Files × Result ℕ
append_record fs g first encode = elim (encode first) [
  | err e ↦ (fs, err e)
  | ok n ↦ (put fs g n, ok n)
]

-- WriteRecord where the file operations succeed.
unfoldable pub write_record : Writer → Files → (Bool → Result ℕ) → Writer × Files × Result ℕ
unfolding open_append rotate_files append_record size
write_record w fs encode =
    if w.closed
    then (w, fs, err (foreign "file already closed"))
    else (let (g, opened) = open_append fs in
        if w.rotate
        then if leb w.limit (size g.records)
          then (let (g', opened') = open_append (rotate_files opened) in
              let r = append_record opened' g' true encode in (w, r.0, r.1))
          else (let r = append_record opened g (size g.records == 0) encode in (w, r.0, r.1))
        else (let r = append_record opened g (not (same_id g.id w.last_id)) encode in
            (record w { last_id = some g.id }, r.0, r.1)))

abbrev pub records_of : Option Generation → List ℕ
records_of none = []
records_of (some g) = g.records

-- With a limit above 0, a write that succeeds adds its record whole and loses none of the current
-- generation: it is the newest of the current generation, or, where a rotating writer found that
-- generation full, the first of a new one, with the full generation kept as the previous one.
pub write_record-retained :
    (w : Writer) (fs : Files) (encode : Bool → Result ℕ) (n : ℕ)
    → 0 < w.limit
    → (write_record w fs encode).2 ≡ ok n
    → let t = (write_record w fs encode).1 in
      ((records_of t.current ≡ n ∷ records_of fs.current) × (t.previous ≡ fs.previous))
      ⊎ ((records_of t.current ≡ n ∷ [])
          × (t.previous ≡ fs.current)
          × (w.rotate ≡ true)
          × (w.limit ≤ size (records_of fs.current))
          × (encode true ≡ ok n))
unfolding write_record
write_record-retained w fs encode n l h = ground arith

-- Without its newest record a generation is below the limit.
abbrev pub below_limit : ℕ → List ℕ → Bool
below_limit limit [] = true
below_limit limit (n ∷ rest) = ltb (size rest) limit

-- A write of a rotating writer with a limit above 0, whatever the record's length, keeps the
-- current generation and the previous one below the limit but for their newest records, if they
-- were so before.
pub write_record-bounded :
    (w : Writer) (fs : Files) (encode : Bool → Result ℕ)
    → 0 < w.limit
    → w.rotate ≡ true
    → below_limit w.limit (records_of fs.current) ≡ true
    → below_limit w.limit (records_of fs.previous) ≡ true
    → let t = (write_record w fs encode).1 in
      (below_limit w.limit (records_of t.current) ≡ true)
      × (below_limit w.limit (records_of t.previous) ≡ true)
unfolding write_record
write_record-bounded w fs encode l r c p = (ground arith, ground arith)

-- With a limit above 0, a write that is refused, because the writer is closed or the record cannot
-- be encoded, loses no record: the current generation has the same records as before, or, where a
-- rotating writer found it full, it is now the previous one and the current one is empty.
pub write_record-refused :
    (w : Writer) (fs : Files) (encode : Bool → Result ℕ)
    → 0 < w.limit
    → is_ok (write_record w fs encode).2 ≡ false
    → let t = (write_record w fs encode).1 in
      ((records_of t.current ≡ records_of fs.current) × (t.previous ≡ fs.previous))
      ⊎ ((records_of t.current ≡ [])
          × (t.previous ≡ fs.current)
          × (w.rotate ≡ true)
          × (w.limit ≤ size (records_of fs.current)))
unfolding write_record
write_record-refused w fs encode l h = ground arith
