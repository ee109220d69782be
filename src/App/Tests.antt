-- ===== src/App/Tests.antt =====
-- A start and a shutdown with two modules.
use limb_worker.Prelude.{Outcome, ℕ, ◌+◌, ◌<◌, ◌≡◌, ◌≢◌, ◌⊎◌, ◌==◌, true, false, arith, some, none}
use limb_worker.Status.{ReturnStatus}
use limb_worker.App.{Modules, App, init, deinit}
use limb_worker.App.Lifecycle.{Loaded, new_app, init-Loaded}
use limb_worker.App.Shutdown.{Answers, init-deinit}

abbrev two_modules : Modules
two_modules = record {
  count = 2;
  module_name = λ i. "rmbg";
  allocate = λ i. some (i + 10);
  inits = λ p. p == 10;
}

allocates : (j : ℕ) → j < 2 → two_modules.allocate j ≢ none
allocates j h = λ e. absurd (cc e)

init-Loaded_example :
    (b : App) × (init two_modules (new_app 8) ≡ (b, ReturnStatus.k_ok))
    × Loaded two_modules two_modules.count b
init-Loaded_example = init-Loaded two_modules 8 allocates

-- The second module's container throws.
init-deinit_example :
    (a : App) × (init two_modules (new_app 8) ≡ (a, ReturnStatus.k_ok))
    × (((deinit two_modules a ≡ Outcome.undefined) × ((j : ℕ) → j < 2 → Answers two_modules j true))
        ⊎ ((deinit two_modules a ≡ Outcome.throws)
            × ((j : ℕ) × (j < 2) × Answers two_modules j false)))
init-deinit_example = init-deinit two_modules 8 (omega arith) allocates
