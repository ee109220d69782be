-- ===== src/Loader/Tests.antt =====
-- A loader with one library, which is loaded from the default directory.

use limb_worker.Prelude.{
  ◌≡◌, refl, true, false, some, none, List, [], ◌∷◌, ◌++◌, str_eq, if◌then◌else◌, Outcome,
  get_elem?,
}
use limb_worker.Status.{ReturnStatus}
use limb_worker.Loader.{
  Environment, Event, Loader, LoadedModule, construct, unload, allocate_container,
  destroy_container, add_load_dir, remove_load_dir, find_processor, processor_name, processor_count,
  dir_count, status,
}
use limb_worker.Loader.Handles.{Method, calls, call, opened, closed, IsAccounted, calls-unload}
use limb_worker.Loader.Containers.{
  IsHeld, allocate_container-destroy_container, unload-destroy_container,
}

abbrev env : Environment
env = record {
  exists = λ path. true;
  is_directory = λ path. true;
  equivalent = str_eq;
  entries = λ dir.
      if str_eq dir "processors"
      then record {
        path = "/p/rmbg";
        filename = "rmbg";
        is_directory = true;
        is_regular_file = false;
      }
        ∷ []
      else record {
        path = "/p/rmbg/rmbg.so";
        filename = "rmbg.so";
        is_directory = false;
        is_regular_file = true;
      }
        ∷ [];
  has_extension = λ name. str_eq name "rmbg.so";
  open_unresolved = λ path. some 1;
  open_local_origin = λ path. some 1;
  open_library = λ path. none;
  has_function = λ handle. true;
  get_module = λ handle. 50;
  module_name = λ m. "RMBG-1.4";
  allocate = λ m. some 90;
}

abbrev one_module : Loader
one_module = record {
  load_directories = "processors" ∷ [];
  processors = [];
  modules = record { handle = 1; proc_module = 50 } ∷ [];
  events = Event.opens 1 ∷ Event.closes 1 ∷ Event.opens 1 ∷ [];
}

constructed :
    (construct env [] ≡ one_module)
    × (processor_name env one_module 0 ≡ "RMBG-1.4")
    × (processor_name env one_module 1 ≡ "")
    × (status one_module ≡ ReturnStatus.k_ok)
    × (dir_count one_module ≡ 2)
    × ((add_load_dir env one_module "processors").1 ≡ ReturnStatus.k_already_exists)
    × ((remove_load_dir env one_module 0).1 ≡ ReturnStatus.k_aborted)
unfolding construct processor_name status processor_count dir_count add_load_dir remove_load_dir
constructed = (refl, refl, refl, refl, refl, refl, refl)

-- The default directory, given again, is loaded again.
constructed_twice : processor_count (construct env ("processors" ∷ [])) ≡ 2
unfolding construct processor_count
constructed_twice = refl

abbrev one_container : Loader
one_container = record one_module { processors = (90, 0) ∷ [] }

allocated : allocate_container env one_module 0 ≡ (one_container, some 90)
unfolding allocate_container
allocated = refl

abbrev session : List Method
session = Method.allocates 0 ∷ Method.destroys 90 ∷ []

abbrev after_session : Loader
after_session = record one_module { events = one_module.events ++ Event.deallocates 50 90 ∷ [] }

held_after_session : calls env (construct env []) session ≡ Outcome.done after_session
unfolding calls call construct allocate_container destroy_container
held_after_session = refl

calls-unload_example :
    IsAccounted 1 after_session
    × (opened 1 (unload env after_session).events ≡ closed 1 (unload env after_session).events)
calls-unload_example = calls-unload env 1 [] session held_after_session

allocate_container-destroy_container_example :
    (m : LoadedModule) × (l'' : Loader) × (get_elem? one_module.modules 0 ≡ some m)
    × (env.allocate m.proc_module ≡ some 90)
    × (destroy_container one_container 90 ≡ Outcome.done l'')
    × (l''.events ≡ one_module.events ++ Event.deallocates m.proc_module 90 ∷ [])
    × (l''.modules ≡ one_module.modules)
allocate_container-destroy_container_example =
    allocate_container-destroy_container env one_module 0 90 allocated

one_module-IsHeld : IsHeld one_module
unfolding find_processor
one_module-IsHeld = record { in_range = λ p i e. absurd (cc e) }

held : find_processor 90 one_container.processors ≡ some 0
unfolding find_processor
held = refl

unload-destroy_container_example :
    destroy_container (unload env one_container) 90 ≡ Outcome.undefined
unload-destroy_container_example = unload-destroy_container env one_container 90 0 held
