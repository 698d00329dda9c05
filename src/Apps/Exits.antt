-- ===== src/Apps/Exits.antt =====
-- Deploy of hub/internal/apps/apps.go: the exit codes of the setup commands.
use homedash.Prelude.{
  ℕ, String, Bool, true, false, Option, none, some, List, [], ◌∷◌, ◌≡◌, refl, ap, ◌∙◌,
}
use homedash.Apps.{
  Step, made_dir, ran_setup, wrote_setup, World, Order, ran, write_files, run_setup, after_setup,
  after_files, after_dir, make_dir, deploy, SetupFile, compose_gate, write_compose, write_env,
  bring_up,
}

abbrev pub well : Option ℕ → Option ℕ
well none = none
well (some code) = some 0

-- The same machine, where every command that runs ends well.
abbrev pub ends_well : World → World
ends_well W = record W { run = λ steps s. well (W.run steps s) }

module _ (W : World) where
  ran-well : (o : Option ℕ) → ran (ends_well W) (well o) ≡ ran W o
  unfolding ran
  ran-well none = refl
  ran-well (some code) = refl

  run_setup-well :
      (cs : List String) (steps : List Step)
      → run_setup (ends_well W) cs steps ≡ run_setup W cs steps
  unfolding run_setup
  run_setup-well [] steps = refl
  run_setup-well (c ∷ cs) steps =
      let i = run_setup-well cs (ran_setup c ∷ steps) in
      let r = ran-well (W.run steps (ran_setup c)) in rw (r, i) refl

  write_files-well :
      (fs : List SetupFile) (steps : List Step)
      → write_files (ends_well W) fs steps ≡ write_files W fs steps
  unfolding write_files
  write_files-well [] steps = refl
  write_files-well (f ∷ fs) steps =
      let i = write_files-well fs (wrote_setup f.path ∷ steps) in rw (i) refl

  gate-well :
      (o : Order) (steps : List Step) → compose_gate (ends_well W) o steps ≡ compose_gate W o steps
  unfolding compose_gate write_compose write_env bring_up
  gate-well o steps = refl

  after_setup-well :
      (o : Order) (r : List Step × Bool) → after_setup (ends_well W) o r ≡ after_setup W o r
  unfolding after_setup
  after_setup-well o (steps, false) = refl
  after_setup-well o (steps, true) = gate-well o steps

  after_files-well :
      (o : Order) (r : List Step × Bool) → after_files (ends_well W) o r ≡ after_files W o r
  unfolding after_files
  after_files-well o (steps, false) = refl
  after_files-well o (steps, true) =
      ap (after_setup (ends_well W) o) (run_setup-well o.commands steps)
      ∙ after_setup-well o (run_setup W o.commands steps)

  after_dir-well :
      (o : Order) (r : List Step × Bool) → after_dir (ends_well W) o r ≡ after_dir W o r
  unfolding after_dir
  after_dir-well o (steps, false) = refl
  after_dir-well o (steps, true) =
      ap (after_files (ends_well W) o) (write_files-well o.files steps)
      ∙ after_files-well o (write_files W o.files steps)

  make_dir-well : (o : Order) → make_dir (ends_well W) o ≡ make_dir W o
  unfolding make_dir
  make_dir-well o = let r = ran-well (W.run [] made_dir) in rw (r) refl

-- The exit codes of mkdir and of the setup commands make no difference to the steps that Deploy takes or to
-- its outcome: with every code zero it does the same.
pub deploy_ignores_exits : (W : World) (o : Order) → deploy (ends_well W) o ≡ deploy W o
unfolding deploy
deploy_ignores_exits W o =
    let d =
      ap (after_dir (ends_well W) o) (make_dir-well W o) ∙ after_dir-well W o (make_dir W o) in
    rw (d) refl
