-- ===== src/Diagnostics/Legacy.antt =====
-- core/diagnostics/legacy.go: the migration of former streams into a history, in a transaction that a
-- marker commits and that is resumed where it was interrupted.
pub mod Publication
pub mod Resumption
pub mod Transaction
pub mod Merging
pub mod Staging
pub mod Commitment
pub mod Outcomes
pub mod Marking
pub mod Recovery
use dobby_vpn.Common.{
  ℕ, zero, suc, is_some, Bool, true, false, not, ◌&&◌, ◌||◌, List, [], ◌∷◌, Option, none, some,
  ◌==◌, ltb, length, same, if◌then◌else◌,
}
use dobby_vpn.Failure.{GoError, Result, ok, err, foreign}
use dobby_vpn.Diagnostics.Migration.{Found, History, is_nonempty, stream_migration}
use dobby_vpn.Diagnostics.Disk.{
  Part, current, previous, stage, stage_previous, marker, marker_temp, Disk, M, pure, fail, ◌>>=◌,
  ◌>>◌, remove_if_present, stat, publish_file, sync, read_regular, write_file,
}

pub record LegacySource : Type 0 where
  pub path : ℕ
  pub label : List ℕ

-- A nil slice is none.
pub record LegacyCommit : Type 0 where
  pub sources : Option (List LegacySource)
  pub has_previous : Bool

abbrev pub items : Option (List LegacySource) → List LegacySource
items none = []
items (some l) = l

abbrev pub staged : Part → Part
staged previous = stage_previous
staged _ = stage

abbrev pub when : Bool → M (Unit {0}) → M (Unit {0})
when true m = m
when false m = pure tt

-- A generation of the stage replaces that of the history, if it is still there.
unfoldable pub publish_stage : ℕ → Part → M (Unit {0})
unfolding stat publish_file sync
publish_stage path p = do
  found ← stat path (staged p)
  when found (publish_file path (staged p) p)
  sync

-- The two rounds of the loop of finishLegacyCommit.
unfoldable pub publish_stages : ℕ → LegacyCommit → M (Unit {0})
unfolding publish_stage remove_if_present
publish_stages path commit =
    (if commit.has_previous then publish_stage path previous else remove_if_present path previous)
    >> publish_stage path current

abbrev pub required : Option (List ℕ) → M (Unit {0})
required none = fail (foreign "open published diagnostics")
required (some b) = pure tt

-- One round of validatePublishedLegacy.
unfoldable pub validate : ℕ → Part → M (Unit {0})
unfolding read_regular
validate path p = read_regular path p >>= required

unfoldable pub validate_published_legacy : ℕ → LegacyCommit → M (Unit {0})
unfolding validate
validate_published_legacy path commit =
    validate path current >> when commit.has_previous (validate path previous)

unfoldable pub remove_sources : List LegacySource → M (Unit {0})
unfolding remove_if_present
remove_sources [] = pure tt
remove_sources (s ∷ l) =
    remove_if_present s.path previous >> remove_if_present s.path current >> remove_sources l

unfoldable pub sync_sources : List LegacySource → M (Unit {0})
unfolding sync
sync_sources [] = pure tt
sync_sources (s ∷ l) = sync >> sync_sources l

unfoldable pub finish_legacy_commit : ℕ → LegacyCommit → M (Unit {0})
unfolding publish_stages validate_published_legacy remove_sources sync_sources sync
    remove_if_present
finish_legacy_commit path commit =
    publish_stages path commit
    >> validate_published_legacy path commit
    >> remove_sources (items commit.sources)
    >> sync_sources (items commit.sources)
    >> sync
    >> remove_if_present path marker
    >> sync
