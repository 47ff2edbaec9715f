-- ===== src/Diagnostics/Legacy/Transaction.antt =====
-- core/diagnostics/legacy.go: the stage, the marker, and the transaction as a whole.
use dobby_vpn.Common.{
  ℕ, zero, suc, is_some, Bool, true, false, not, ◌&&◌, ◌||◌, List, [], ◌∷◌, Option, none, some,
  ◌==◌, ltb, length, same, if◌then◌else◌,
}
use dobby_vpn.Failure.{foreign, ok}
use dobby_vpn.Diagnostics.Migration.{
  Found, missing, regular, History, is_nonempty, stream_migration, history_needs_migration,
}
use dobby_vpn.Diagnostics.Disk.{
  Part, current, previous, stage, stage_previous, marker, marker_temp, M, pure, fail, call, put,
  make_directory, ◌>>=◌, ◌>>◌, remove_if_present, stat, publish_file, sync, read_regular,
  write_file,
}
use dobby_vpn.Diagnostics.Legacy.{LegacySource, LegacyCommit, items, when, finish_legacy_commit}

unfoldable pub has_legacy_sources : List LegacySource → Bool → M Bool
unfolding stat
has_legacy_sources [] found = pure found
has_legacy_sources (s ∷ l) found = do
  a ← stat s.path previous
  b ← stat s.path current
  has_legacy_sources l (found || a || b)

abbrev pub max_marker : ℕ
max_marker = 1048576

abbrev pub bounded : Option (List ℕ) → M (Option (List ℕ))
bounded none = pure none
bounded (some b) =
    if ltb max_marker (length b)
    then fail (foreign "migration marker exceeds size limit")
    else pure (some b)

unfoldable pub read_legacy_marker : ℕ → M (Option (List ℕ))
unfolding read_regular
read_legacy_marker path = read_regular path marker >>= bounded

unfoldable pub sync_legacy_stages : ℕ → Option (List LegacySource) → M LegacyCommit
unfolding stat sync
sync_legacy_stages path sources = do
  a ← stat path stage_previous
  when a sync
  b ← stat path stage
  when b sync
  pure (record { sources = sources; has_previous = a })

-- The generation before the current one, which is there when a rotation has made it. The limit is
-- above 0, so that it is not empty then.
abbrev pub kept : List ℕ → Found
kept [] = missing
kept (b ∷ bs) = regular (b ∷ bs)

-- What streaming a file leaves in the stage.
unfoldable pub write_stage : ℕ → History → M (Unit {0})
unfolding call write_file
write_stage path t =
    call (λ f. put f path stage_previous (kept t.previous)) (λ f. ok tt)
    >> write_file path stage t.current

-- streamMigrationLabeled never runs out of rounds.
unfoldable pub save : ℕ → Option History → M History
unfolding write_stage
save path none = fail (foreign "out of rounds")
save path (some t) = write_stage path t >> pure t

abbrev pub begun : History
begun = record { previous = []; current = []; size = 0; at_start = true; need_header = false }

-- A header goes on a line of its own.
unfoldable pub stream_labeled : ℕ → List ℕ → History → List ℕ → Option History
unfolding stream_migration
stream_labeled limit header h bytes =
    let apart = not h.at_start && is_nonempty header in
    stream_migration limit (if apart then 10 ∷ header else header)
      (record h { at_start = h.at_start || apart }) bytes

unfoldable pub stage_data : ℕ → ℕ → List ℕ → History → Option (List ℕ) → M History
unfolding stream_labeled save
stage_data path limit header h none = pure h
stage_data path limit header h (some bytes) = save path (stream_labeled limit header h bytes)

abbrev pub is_empty : List LegacySource → Bool
is_empty [] = true
is_empty (s ∷ l) = false

-- The bytes of the header for a generation of a source.
module _ (header_of : List ℕ → Part → List ℕ) where
  unfoldable pub stage_generation : ℕ → ℕ → Bool → History → LegacySource → Part → M History
  unfolding read_regular stage_data
  stage_generation path limit bare h s p =
      read_regular s.path p >>= stage_data path limit (if bare then [] else header_of s.label p) h

  unfoldable pub stage_streams : ℕ → ℕ → Bool → History → List LegacySource → M History
  unfolding stage_generation
  stage_streams path limit bare h [] = pure h
  stage_streams path limit bare h (s ∷ l) = do
    t ← stage_generation path limit bare h s previous
    u ← stage_generation path limit bare t s current
    stage_streams path limit bare u l

  -- `existing` is the label of the history itself.
  unfoldable pub stage_legacy_streams :
      ℕ → Option (List LegacySource) → ℕ → Bool → List ℕ → M History
  unfolding stage_streams
  stage_legacy_streams path sources limit force existing =
      stage_streams path limit (force && is_empty (items sources)) begun
        (record { path = path; label = existing } ∷ items sources)

unfoldable pub publish_legacy_marker : (LegacyCommit → List ℕ) → ℕ → LegacyCommit → M (Unit {0})
unfolding remove_if_present write_file publish_file sync
publish_legacy_marker marshal path commit =
    remove_if_present path marker_temp
    >> write_file path marker_temp (marshal commit)
    >> publish_file path marker_temp marker
    >> sync

-- encoding/json: the bytes of a list of sources and of a commit, and the commit that bytes are read
-- as; and the headers.
module _ (marshal_sources : Option (List LegacySource) → List ℕ) (marshal : LegacyCommit → List ℕ)
    (unmarshal : List ℕ → Option LegacyCommit) (header_of : List ℕ → Part → List ℕ) where
  -- What migrateLegacyTransaction does where there is no marker.
  unfoldable pub start_migration : ℕ → Option (List LegacySource) → ℕ → Bool → List ℕ → M (Unit {0})
  unfolding remove_if_present has_legacy_sources stage_legacy_streams sync_legacy_stages
      publish_legacy_marker finish_legacy_commit
  start_migration path sources limit force existing = do
    remove_if_present path stage
    remove_if_present path stage_previous
    found ← has_legacy_sources (items sources) force
    when found (do
      t ← stage_legacy_streams header_of path sources limit force existing
      commit ← sync_legacy_stages path sources
      publish_legacy_marker marshal path commit
      finish_legacy_commit path commit)

  -- recoverLegacyCommit, with what it does after a commit of other code.
  unfoldable pub recover_legacy_commit :
      ℕ → Option (List LegacySource) → M (Unit {0}) → Option LegacyCommit → M (Unit {0})
  unfolding finish_legacy_commit
  recover_legacy_commit path sources again none = fail (foreign "unmarshal")
  recover_legacy_commit path sources again (some commit) =
      if not (is_some commit.sources) && is_some sources
      then finish_legacy_commit path commit >> again
      else if same (marshal_sources sources) (marshal_sources commit.sources)
      then finish_legacy_commit path commit
      else fail (foreign "legacy migration sources changed during recovery")

  abbrev pub resume :
      ℕ → Option (List LegacySource) → M (Unit {0}) → M (Unit {0}) → Option (List ℕ) → M (Unit {0})
  resume path sources start again none = start
  resume path sources start again (some b) = recover_legacy_commit path sources again (unmarshal b)

  -- migrateLegacyTransaction, with the rounds that are left.
  unfoldable pub migrate_legacy_transaction :
      ℕ → ℕ → Option (List LegacySource) → ℕ → Bool → List ℕ → M (Unit {0})
  unfolding read_legacy_marker start_migration recover_legacy_commit
  migrate_legacy_transaction zero path sources limit force existing = fail (foreign "out of rounds")
  migrate_legacy_transaction (suc n) path sources limit force existing =
      read_legacy_marker path
      >>= resume path sources (start_migration path sources limit force existing)
          (migrate_legacy_transaction n path sources limit force existing)

  -- The Boolean test for a stream that is the history itself.
  abbrev names : ℕ → List LegacySource → Bool
  names path [] = false
  names path (s ∷ l) = s.path == path || names path l

  abbrev pub threshold : ℕ
  threshold = 150000000

  -- MigrateLegacy, of absolute paths and with the lock. Two rounds are enough, since a publication
  -- removes the marker.
  unfoldable pub migrate_legacy : ℕ → Option (List LegacySource) → List ℕ → M (Unit {0})
  unfolding make_directory migrate_legacy_transaction
  migrate_legacy path sources existing =
      make_directory
      >> (if names path (items sources)
          then fail (foreign "legacy source equals destination")
          else migrate_legacy_transaction 2 path sources threshold false existing)

  -- migrateHistory.
  unfoldable pub migrate_history : ℕ → ℕ → List ℕ → M (Unit {0})
  unfolding stat call history_needs_migration migrate_legacy_transaction
  migrate_history path limit existing = do
    found ← stat path marker
    oversized ←
        (if found
          then pure true
          else call (λ f. f)
              (λ f. history_needs_migration limit (f path previous) (f path current)))
    when oversized (migrate_legacy_transaction 2 path none limit true existing)
