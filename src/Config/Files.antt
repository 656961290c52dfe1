-- ===== src/Config/Files.antt =====
-- `durableWriteFile` of src/utils/FileUtils.cpp, which `writeJsonAtomically` of
-- src/app/ConfigManager.cpp calls. What the calls of the system come to is an argument.
use hypertube.Common.{◌≡◌, ◌⊎◌, Bool, true, false, not, Option, none, some, arith, if◌then◌else◌}

-- The file, its backup, and the temporary file, with what they hold.
pub record Disk {ℓ} (C : Type ℓ) : Type ℓ where
  pub target : Option C
  pub backup : Option C
  pub temporary : Option C

-- The results of the file operations; one that fails may leave anything in the file that it writes.
-- `exists` tells whether the question for the target is answered, and `remove` whether the temporary
-- file goes where it is to be removed.
pub record FileOperations {ℓ} (C : Type ℓ) : Type ℓ where
  pub create_directories : Bool
  pub open_and_write_temp : Bool
  pub left_in_temp : Option C
  pub flush_temp : Bool
  pub exists : Bool
  pub copy_file : Bool
  pub left_in_backup : Option C
  pub flush_backup : Bool
  pub replace_or_rename : Bool
  pub sync_parent_directory : Bool
  pub remove : Bool

module _ {ℓ} {C : Type ℓ} where
  -- The end of a write that fails with a temporary file there.
  unfoldable pub discard : FileOperations C → Disk C → Bool × Disk C
  discard ops d = (false, if ops.remove then record d { temporary = none } else d)

  -- The last steps, behind the backup: the temporary file takes the place of the target.
  unfoldable pub replace_target : FileOperations C → C → Disk C → Bool × Disk C
  unfolding discard
  replace_target ops content d =
      if not ops.replace_or_rename
      then discard ops d
      else (ops.sync_parent_directory, record d { target = some content; temporary = none })

  -- The backup of a target that is said to exist; where the question fails, none is made.
  unfoldable pub back_up : FileOperations C → C → Disk C → Bool × Disk C
  unfolding replace_target discard
  back_up ops content d = elim d.target [
    | none ↦ replace_target ops content d
    | some old ↦
        if not ops.exists
        then replace_target ops content d
        else if not ops.copy_file
        then discard ops (record d { backup = ops.left_in_backup })
        else if not ops.flush_backup
        then discard ops (record d { backup = some old })
        else replace_target ops content (record d { backup = some old })
  ]

  unfoldable pub durable_write_file : FileOperations C → C → Disk C → Bool × Disk C
  unfolding back_up discard
  durable_write_file ops content d =
      if not ops.create_directories
      then (false, d)
      else if not ops.open_and_write_temp
      then discard ops (record d { temporary = ops.left_in_temp })
      else if not ops.flush_temp
      then discard ops (record d { temporary = some content })
      else back_up ops content (record d { temporary = some content })

  -- What a write promises: the target holds what it held or all of the new content; a write that
  -- succeeds has the new content there, and leaves no temporary file; it keeps the old content as the
  -- backup if the question for the target was answered, and makes no backup if it was not.
  pub record Durable (ops : FileOperations C) (content : C) (d : Disk C) (t : Bool × Disk C)
      : Type ℓ where
    pub whole : (t.1.target ≡ d.target) ⊎ (t.1.target ≡ some content)
    pub written : t.0 ≡ true → t.1.target ≡ some content
    pub kept :
        t.0 ≡ true → ops.exists ≡ true → (old : C) → d.target ≡ some old → t.1.backup ≡ some old
    pub not_kept : ops.exists ≡ false → t.1.backup ≡ d.backup
    pub clean : t.0 ≡ true → t.1.temporary ≡ none

  -- Whichever of the file operations fail, the target of a write holds what it held or all of the new
  -- content; a write that succeeds has the new content there, and leaves no temporary file. If the
  -- question whether the target exists was answered, then such a write has the old content, if there
  -- was any, in the backup; if it was not, the backup is what it was, also where the write succeeds.
  pub durable_write_file-Durable :
      (ops : FileOperations C) (content : C) (d : Disk C)
      → Durable ops content d (durable_write_file ops content d)
  unfolding durable_write_file back_up replace_target discard
  durable_write_file-Durable ops content d = record {
    whole = ground arith;
    written = λ e. ground arith;
    kept = λ e answered old there. ground arith;
    not_kept = λ failed. ground arith;
    clean = λ e. ground arith;
  }
