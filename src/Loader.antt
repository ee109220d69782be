-- ===== src/Loader.antt =====
-- src/internal/processor-loader.cpp: `ProcessorLoader`, which opens the libraries of the processor
-- modules and keeps the containers that they allocate. A method holds `m_mutex` where it touches the
-- modules, so a call is one step. The model is of the POSIX build.
pub mod Handles
pub mod Containers
mod Tests
use Prim.Native.String.{String}
use limb_worker.Prelude.{
  ℕ, suc, ◌+◌, Bool, true, false, not, ◌&&◌, ◌||◌, Option, none, some, List, [], ◌∷◌, ◌++◌, ◌==◌,
  ltb, if◌then◌else◌, length, get_elem?, take, drop, Outcome,
}
use limb_worker.Status.{ReturnStatus}

-- An entry of a directory, with its absolute path.
pub record Entry : Type 0 where
  pub path : String
  pub filename : String
  pub is_directory : Bool
  pub is_regular_file : Bool

-- The file system, `std::string::find` for the extension, and the dynamic linker by handles: `dlopen`
-- with `RTLD_NOLOAD`, with the local origin, and system-wide (`none` is null); `dlsym` of
-- `GetProcessorModule`, the module that it gives, and that module's methods.
pub record Environment : Type 0 where
  pub exists : String → Bool
  pub is_directory : String → Bool
  pub equivalent : String → String → Bool
  pub entries : String → List Entry
  pub has_extension : String → Bool
  pub open_unresolved : String → Option ℕ
  pub open_local_origin : String → Option ℕ
  pub open_library : String → Option ℕ
  pub has_function : ℕ → Bool
  pub get_module : ℕ → ℕ
  pub module_name : ℕ → String
  pub allocate : ℕ → Option ℕ

-- The calls of the linker and of the modules, in order.
pub data Event : Type 0 where
  opens closes : ℕ → Event
  deallocates : ℕ → ℕ → Event

pub record LoadedModule : Type 0 where
  pub handle : ℕ
  pub proc_module : ℕ

-- `m_processors` maps the address of a container to the index of its module.
pub record Loader : Type 0 where
  pub load_directories : List String
  pub processors : List (ℕ × ℕ)
  pub modules : List LoadedModule
  pub events : List Event

abbrev pub default_load_dir : String
default_load_dir = "processors"

abbrev pub emit : Loader → List Event → Loader
emit l es = record l { events = l.events ++ es }

-- `unloadLibrary` of a handle that is not null.
abbrev pub unload_library : ℕ → List Event
unload_library handle = Event.closes handle ∷ []

pub processor_count : Loader → ℕ
processor_count l = length l.modules

pub dir_count : Loader → ℕ
dir_count l = length l.load_directories + 1

pub status : Loader → ReturnStatus
unfolding processor_count
status l = if ltb 0 (processor_count l) then ReturnStatus.k_ok else ReturnStatus.k_aborted

pub processor_name : Environment → Loader → ℕ → String
processor_name env l index = elim (get_elem? l.modules index) [
  | none ↦ ""
  | some m ↦ env.module_name m.proc_module
]

-- `m_processors[container] = index`.
pub set_processor : ℕ → ℕ → List (ℕ × ℕ) → List (ℕ × ℕ)
set_processor p index [] = (p, index) ∷ []
set_processor p index ((q, i) ∷ rest) =
    if q == p then (p, index) ∷ rest else (q, i) ∷ set_processor p index rest

pub find_processor : ℕ → List (ℕ × ℕ) → Option ℕ
find_processor p [] = none
find_processor p ((q, i) ∷ rest) = if q == p then some i else find_processor p rest

pub erase_processor : ℕ → List (ℕ × ℕ) → List (ℕ × ℕ)
erase_processor p [] = []
erase_processor p ((q, i) ∷ rest) = if q == p then rest else (q, i) ∷ erase_processor p rest

pub allocate_container : Environment → Loader → ℕ → Loader × Option ℕ
unfolding set_processor
allocate_container env l index = elim (get_elem? l.modules index) [
  | none ↦ (l, none)
  | some m ↦ elim (env.allocate m.proc_module) [
    | none ↦ (l, none)
    | some p ↦ (record l { processors = set_processor p index l.processors }, some p)
  ]
]

-- `m_modules[it->second]` behind the end is undefined.
pub destroy_container : Loader → ℕ → Outcome Loader
unfolding find_processor erase_processor
destroy_container l p = elim (find_processor p l.processors) [
  | none ↦ Outcome.done l
  | some index ↦ elim (get_elem? l.modules index) [
    | none ↦ Outcome.undefined
    | some m ↦ Outcome.done (
        emit (record l { processors = erase_processor p l.processors })
          (Event.deallocates m.proc_module p ∷ []))
  ]
]

module _ (env : Environment) where
  -- `verifyModules`: the handle is given back whatever is found.
  verify_modules : String → List Event × Bool
  verify_modules path = elim (env.open_unresolved path) [
    | none ↦ ([], false)
    | some handle ↦ (Event.opens handle ∷ unload_library handle, env.has_function handle)
  ]

  -- The handle that the file is opened with: `none` if both ways fail.
  open_module : String → Option ℕ
  open_module path = elim (env.open_local_origin path) [
    | some handle ↦ some handle
    | none ↦ env.open_library path
  ]

  -- One file of `loadModules`.
  load_file : Loader → Entry → Loader
  unfolding verify_modules open_module
  load_file l file =
      if not file.is_regular_file || not (env.has_extension file.filename)
      then l
      else (let (events, verified) = verify_modules file.path in
          let l' = emit l events in
          if not verified then l' else (elim (open_module file.path) [
            | none ↦ l'
            | some handle ↦
                if env.has_function handle
                then record l' {
                  modules =
                      l'.modules
                      ++ record { handle = handle; proc_module = env.get_module handle } ∷ [];
                  events = l'.events ++ Event.opens handle ∷ [];
                }
                else emit l' (Event.opens handle ∷ unload_library handle)
          ]))

  load_files : Loader → List Entry → Loader
  unfolding load_file
  load_files l [] = l
  load_files l (file ∷ files) = load_files (load_file l file) files

  pub load_modules : Loader → String → Loader
  unfolding load_files
  load_modules l directory =
      if not (env.is_directory directory) then l else load_files l (env.entries directory)

  load_entries : Loader → List Entry → Loader
  unfolding load_modules
  load_entries l [] = l
  load_entries l (entry ∷ entries) =
      load_entries (if entry.is_directory then load_modules l entry.path else l) entries

  load_from : List String → Loader → Loader
  unfolding load_entries
  load_from [] l = l
  load_from (dir ∷ dirs) l = load_from dirs (
      if not (env.exists dir) || not (env.is_directory dir)
      then l
      else load_entries l (env.entries dir))

  -- `loadDirectories`.
  pub load_all : Loader → Loader
  unfolding load_from
  load_all l = load_from l.load_directories l

  -- The directories that the constructor keeps. Its test for one that is there already asks whether
  -- `fs::equivalent` is declared `noexcept`, which it is not.
  added_directories : List String → List String
  added_directories [] = []
  added_directories (dir ∷ dirs) =
      let rest = added_directories dirs in
      if not (env.exists dir) || not (env.is_directory dir) then rest else dir ∷ rest

  -- `ProcessorLoader()` and `ProcessorLoader(additionalDirectories)`.
  pub construct : List String → Loader
  unfolding added_directories load_all
  construct additional_directories = load_all (record {
    load_directories = default_load_dir ∷ added_directories additional_directories;
    processors = [];
    modules = [];
    events = [];
  })

  has_directory : String → List String → Bool
  has_directory dir [] = false
  has_directory dir (d ∷ dirs) = env.equivalent dir d || has_directory dir dirs

  unload_modules : List LoadedModule → List Event
  unload_modules [] = []
  unload_modules (m ∷ ms) = unload_library m.handle ++ unload_modules ms

  -- `unload`; the destructor calls it too. The containers in `m_processors` stay.
  pub unload : Loader → Loader
  unfolding unload_modules
  unload l = record (emit l (unload_modules l.modules)) { modules = [] }

  pub reload : Loader → Loader × ReturnStatus
  unfolding unload load_all status
  reload l = let l' = load_all (unload l) in (l', status l')

  pub add_load_dir : Loader → String → Loader × ReturnStatus
  unfolding has_directory reload
  add_load_dir l dir_path =
      if not (env.exists dir_path) || not (env.is_directory dir_path)
      then (l, ReturnStatus.k_invalid_input)
      else if has_directory dir_path l.load_directories
      then (l, ReturnStatus.k_already_exists)
      else reload (record l { load_directories = l.load_directories ++ dir_path ∷ [] })

  -- An index behind the end removes nothing.
  pub remove_load_dir : Loader → ℕ → Loader × ReturnStatus
  unfolding reload
  remove_load_dir l index = reload (record l {
    load_directories = take index l.load_directories ++ drop (suc index) l.load_directories;
  })
