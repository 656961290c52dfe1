-- ===== src/Logs/Rotation.antt =====
-- What becomes of the files of the log in a rotation.
use hypertube.Common.{
  ℕ, zero, suc, ◌≤◌, ◌<◌, ◌≡◌, refl, ◌∙◌, Option, some, true, Text, arith, nat_beq, Bool-cases, inl,
  inr,
}
use hypertube.Logs.{RotationAnswers, LogFiles, numbered, move_up, move_all_up, rotate}

module _ (answers : RotationAnswers) where
  -- The files below a number can be asked for and renamed.
  abbrev pub AllMove : ℕ → Type 0
  AllMove n = (i : ℕ) → i < n → (answers.exists i ≡ true) × (answers.rename i ≡ true)

  -- Numbers above those of the loop are left alone.
  move_all_up-above :
      (n : ℕ) (files : ℕ → Option Text) (j : ℕ) → n < j → move_all_up answers n files j ≡ files j
  unfolding move_all_up
  move_all_up-above zero files j h = refl
  move_all_up-above (suc zero) files j h = refl
  move_all_up-above (suc (suc i)) files j h =
      move_all_up-above (suc i) (move_up answers (suc i) files) j (omega arith) ∙ ground arith

  -- So is the log.
  move_all_up-zero : (n : ℕ) (files : ℕ → Option Text) → move_all_up answers n files 0 ≡ files 0
  unfolding move_all_up
  move_all_up-zero zero files = refl
  move_all_up-zero (suc zero) files = refl
  move_all_up-zero (suc (suc i)) files =
      move_all_up-zero (suc i) (move_up answers (suc i) files) ∙ ground arith

  move_all_up-next :
      (n j : ℕ) (files : ℕ → Option Text) (content : Text)
      → AllMove n
      → 1 ≤ j
      → j < n
      → files j ≡ some content
      → move_all_up answers n files (suc j) ≡ some content
  unfolding move_all_up
  move_all_up-next zero j files content a h h' e = ground arith
  move_all_up-next (suc zero) j files content a h h' e = ground arith
  move_all_up-next (suc (suc i)) j files content a h h' e =
      let moves = a (suc i) (omega arith) in
      elim (Bool-cases (nat_beq j (suc i))) [
        | inl last ↦
            move_all_up-above (suc i) (move_up answers (suc i) files) (suc j) (ground arith)
            ∙ ground (arith, e, moves)
        | inr below ↦
            move_all_up-next (suc i) j (move_up answers (suc i) files) content
              (λ m l. a m (omega arith)) h (ground arith) (ground (arith, e, moves))
      ]

  -- A rotation with backups, in which every file below the greatest number can be asked for and
  -- renamed, loses no file but the oldest: the log becomes the first backup, and each backup below the
  -- greatest number is found under the next.
  pub rotate-kept :
      (max_backups : ℕ) (f : LogFiles)
      → AllMove max_backups
      → 1 ≤ max_backups
      → ((rotate answers max_backups f).backups 1 ≡ f.log_file)
        × ((j : ℕ) (content : Text)
            → 1 ≤ j
            → j < max_backups
            → f.backups j ≡ some content
            → (rotate answers max_backups f).backups (suc j) ≡ some content)
  unfolding rotate
  rotate-kept max_backups f a h =
      let moves = a 0 (omega arith) in
      (
        ground (arith, moves, move_all_up-zero max_backups (numbered f)),
        λ j content h1 h2 e. ground (
          arith,
          moves,
          move_all_up-next max_backups j (numbered f) content a h1 h2 (named j content h1 e),
        ),
      )
    where
      named :
          (j : ℕ) (content : Text)
          → 1 ≤ j
          → f.backups j ≡ some content
          → numbered f j ≡ some content
      named zero content h1 e = ground arith
      named (suc j) content h1 e = e
