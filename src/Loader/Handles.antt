-- ===== src/Loader/Handles.antt =====
-- processor-loader.cpp: each library handle that is opened is closed, or belongs to a loaded module.
use Prim.Native.String.{String}
use limb_worker.Prelude.{
  ℕ, ◌+◌, ◌≡◌, refl, Bool, true, false, not, ◌||◌, List, [], ◌∷◌, ◌++◌, ◌==◌, arith, if◌then◌else◌,
  Outcome, Bool-cases, Option-cases, Outcome-cases, get_elem?, take, drop, suc, inl, inr, ◌>>=◌,
}
use limb_worker.Loader.{
  Environment, Entry, Event, Loader, LoadedModule, emit, unload_library, verify_modules,
  open_module, load_file, load_files, load_modules, load_entries, load_from, load_all, unload,
  unload_modules, reload, construct, add_load_dir, remove_load_dir, allocate_container,
  destroy_container, default_load_dir, added_directories, find_processor,
}

abbrev one_if : Bool → ℕ
one_if true = 1
one_if false = 0

-- How often a handle was opened, and closed, and how many loaded modules have it.
abbrev pub opened : ℕ → List Event → ℕ
opened h [] = 0
opened h (Event.opens x ∷ es) = one_if (x == h) + opened h es
opened h (Event.closes x ∷ es) = opened h es
opened h (Event.deallocates m p ∷ es) = opened h es

abbrev pub closed : ℕ → List Event → ℕ
closed h [] = 0
closed h (Event.opens x ∷ es) = closed h es
closed h (Event.closes x ∷ es) = one_if (x == h) + closed h es
closed h (Event.deallocates m p ∷ es) = closed h es

abbrev pub loaded : ℕ → List LoadedModule → ℕ
loaded h [] = 0
loaded h (m ∷ ms) = one_if (m.handle == h) + loaded h ms

opened-append : (h : ℕ) (xs ys : List Event) → opened h (xs ++ ys) ≡ opened h xs + opened h ys
opened-append h [] ys = omega arith
opened-append h (Event.opens x ∷ xs) ys = omega (arith, opened-append h xs ys)
opened-append h (Event.closes x ∷ xs) ys = opened-append h xs ys
opened-append h (Event.deallocates m p ∷ xs) ys = opened-append h xs ys

closed-append : (h : ℕ) (xs ys : List Event) → closed h (xs ++ ys) ≡ closed h xs + closed h ys
closed-append h [] ys = omega arith
closed-append h (Event.opens x ∷ xs) ys = closed-append h xs ys
closed-append h (Event.closes x ∷ xs) ys = omega (arith, closed-append h xs ys)
closed-append h (Event.deallocates m p ∷ xs) ys = closed-append h xs ys

loaded-append :
    (h : ℕ) (xs ys : List LoadedModule) → loaded h (xs ++ ys) ≡ loaded h xs + loaded h ys
loaded-append h [] ys = omega arith
loaded-append h (m ∷ xs) ys = omega (arith, loaded-append h xs ys)

-- Of every handle, as many are open as there are modules loaded with it.
abbrev pub IsAccounted : ℕ → Loader → Type 0
IsAccounted h l = opened h l.events ≡ closed h l.events + loaded h l.modules

emit-IsAccounted :
    (h : ℕ) (l : Loader) (es : List Event)
    → opened h es ≡ closed h es
    → IsAccounted h l
    → IsAccounted h (emit l es)
emit-IsAccounted h l es e v =
    omega (arith, opened-append h l.events es, closed-append h l.events es)

if-IsAccounted :
    (h : ℕ) (b : Bool) (l m : Loader)
    → IsAccounted h l
    → IsAccounted h m
    → IsAccounted h (if b then l else m)
if-IsAccounted h true l m v w = v
if-IsAccounted h false l m v w = w

module _ (env : Environment) (h : ℕ) where
  verify_modules-balanced :
      (path : String) → opened h (verify_modules env path).0 ≡ closed h (verify_modules env path).0
  unfolding verify_modules
  verify_modules-balanced path = elim (Option-cases (env.open_unresolved path)) [
    | inl e ↦ ground arith
    | inr (u, e) ↦ ground arith
  ]

  load_file-IsAccounted :
      (l : Loader) (file : Entry) → IsAccounted h l → IsAccounted h (load_file env l file)
  unfolding load_file
  load_file-IsAccounted l file v =
      let es = (verify_modules env file.path).0 in
      let v' : IsAccounted h (emit l es) =
        emit-IsAccounted h l es (verify_modules-balanced file.path) v in
      elim (Bool-cases (not file.is_regular_file || not (env.has_extension file.filename))) [
        | inl skip ↦ rw (skip) v
        | inr keep ↦ elim (Bool-cases (verify_modules env file.path).1) [
          | inr bad ↦ rw (keep, bad) v'
          | inl good ↦ elim (Option-cases (open_module env file.path)) [
            | inl e ↦ rw (keep, good, e) v'
            | inr (handle, e) ↦ elim (Bool-cases (env.has_function handle)) [
              | inl found ↦
                  rw (keep, good, e, found)
                    (omega (
                      arith,
                      opened-append h (l.events ++ es) (Event.opens handle ∷ []),
                      closed-append h (l.events ++ es) (Event.opens handle ∷ []),
                      loaded-append h l.modules
                          (record { handle = handle; proc_module = env.get_module handle } ∷ []),
                    ))
              | inr missing ↦
                  rw (keep, good, e, missing)
                    (emit-IsAccounted h (emit l es) (Event.opens handle ∷ unload_library handle)
                      (omega arith) v')
            ]
          ]
        ]
      ]

  load_files-IsAccounted :
      (l : Loader) (files : List Entry) → IsAccounted h l → IsAccounted h (load_files env l files)
  unfolding load_files
  load_files-IsAccounted l [] v = v
  load_files-IsAccounted l (f ∷ fs) v =
      load_files-IsAccounted (load_file env l f) fs (load_file-IsAccounted l f v)

  load_modules-IsAccounted :
      (l : Loader) (dir : String) → IsAccounted h l → IsAccounted h (load_modules env l dir)
  unfolding load_modules
  load_modules-IsAccounted l dir v = elim (Bool-cases (not (env.is_directory dir))) [
    | inl missing ↦ rw (missing) v
    | inr found ↦ rw (found) (load_files-IsAccounted l (env.entries dir) v)
  ]

  load_entries-IsAccounted :
      (l : Loader) (entries : List Entry)
      → IsAccounted h l
      → IsAccounted h (load_entries env l entries)
  unfolding load_entries
  load_entries-IsAccounted l [] v = v
  load_entries-IsAccounted l (e ∷ es) v = elim (Bool-cases e.is_directory) [
    | inl dir ↦ rw (dir) (
        load_entries-IsAccounted (load_modules env l e.path) es
          (load_modules-IsAccounted l e.path v))
    | inr file ↦ rw (file) (load_entries-IsAccounted l es v)
  ]

  load_from-IsAccounted :
      (dirs : List String) (l : Loader) → IsAccounted h l → IsAccounted h (load_from env dirs l)
  unfolding load_from
  load_from-IsAccounted [] l v = v
  load_from-IsAccounted (d ∷ ds) l v =
      load_from-IsAccounted ds
        (if not (env.exists d) || not (env.is_directory d)
          then l
          else load_entries env l (env.entries d))
        (if-IsAccounted h (not (env.exists d) || not (env.is_directory d)) l
          (load_entries env l (env.entries d)) v (load_entries-IsAccounted l (env.entries d) v))

  unload_modules-closed :
      (ms : List LoadedModule)
      → (closed h (unload_modules env ms) ≡ loaded h ms) × (opened h (unload_modules env ms) ≡ 0)
  unfolding unload_modules
  unload_modules-closed [] = (refl, refl)
  unload_modules-closed (m ∷ ms) = let (c, o) = unload_modules-closed ms in (omega (arith, c), o)

  unload-IsAccounted : (l : Loader) → IsAccounted h l → IsAccounted h (unload env l)
  unfolding unload
  unload-IsAccounted l v =
      let (c, o) = unload_modules-closed l.modules in
      omega (
        arith,
        c,
        o,
        opened-append h l.events (unload_modules env l.modules),
        closed-append h l.events (unload_modules env l.modules),
      )

  reload-IsAccounted : (l : Loader) → IsAccounted h l → IsAccounted h (reload env l).0
  unfolding reload load_all
  reload-IsAccounted l v =
      load_from-IsAccounted (unload env l).load_directories (unload env l) (unload-IsAccounted l v)

-- The public methods that change the loader.
pub data Method : Type 0 where
  reloads : Method
  adds_load_dir : String → Method
  removes_load_dir allocates destroys : ℕ → Method

module _ (env : Environment) where
  unfoldable pub call : Loader → Method → Outcome Loader
  call l Method.reloads = Outcome.done (reload env l).0
  call l (Method.adds_load_dir dir) = Outcome.done (add_load_dir env l dir).0
  call l (Method.removes_load_dir index) = Outcome.done (remove_load_dir env l index).0
  call l (Method.allocates index) = Outcome.done (allocate_container env l index).0
  call l (Method.destroys p) = destroy_container l p

  unfoldable pub calls : Loader → List Method → Outcome Loader
  unfolding call
  calls l [] = Outcome.done l
  calls l (m ∷ ms) = call l m >>= λ l'. calls l' ms

module _ (env : Environment) (h : ℕ) where
  call-IsAccounted :
      (l : Loader) (m : Method) {l' : Loader}
      → IsAccounted h l
      → call env l m ≡ Outcome.done l'
      → IsAccounted h l'
  unfolding call add_load_dir remove_load_dir allocate_container destroy_container
  call-IsAccounted l Method.reloads v e = ground (arith, reload-IsAccounted env h l v)
  call-IsAccounted l (Method.adds_load_dir dir) v e = ground (
    arith,
    reload-IsAccounted env h (record l { load_directories = l.load_directories ++ dir ∷ [] }) v,
  )
  call-IsAccounted l (Method.removes_load_dir i) v e = ground (
    arith,
    reload-IsAccounted env h
        (record l {
          load_directories = take i l.load_directories ++ drop (suc i) l.load_directories;
        })
        v,
  )
  call-IsAccounted l (Method.allocates i) v e = ground arith
  call-IsAccounted l (Method.destroys p) v e = elim (Option-cases (find_processor p l.processors)) [
    | inl f ↦ ground arith
    | inr (index, f) ↦ elim (Option-cases (get_elem? l.modules index)) [
      | inl g ↦ absurd (ground arith)
      | inr (m, g) ↦ ground (
        arith,
        opened-append h l.events (Event.deallocates m.proc_module p ∷ []),
        closed-append h l.events (Event.deallocates m.proc_module p ∷ []),
      )
    ]
  ]

  calls-IsAccounted :
      (l : Loader) (ms : List Method) {l' : Loader}
      → IsAccounted h l
      → calls env l ms ≡ Outcome.done l'
      → IsAccounted h l'
  unfolding calls
  calls-IsAccounted l [] v e = ground arith
  calls-IsAccounted l (m ∷ ms) {l'} v e = elim (Outcome-cases (call env l m)) [
    | inl t ↦ absurd (ground arith)
    | inr (inl u) ↦ absurd (ground arith)
    | inr (inr (l'', done)) ↦
        calls-IsAccounted l'' ms {l' = l'} (call-IsAccounted l m v done) (ground arith)
  ]

  -- From either constructor, after any methods that did not run into undefined behaviour: of each
  -- handle, as many are open as there are modules loaded with it; and once the destructor has unloaded
  -- the modules, each handle has been closed as often as it was opened.
  pub calls-unload :
      (dirs : List String) (ms : List Method) {l : Loader}
      → calls env (construct env dirs) ms ≡ Outcome.done l
      → IsAccounted h l × (opened h (unload env l).events ≡ closed h (unload env l).events)
  unfolding construct load_all unload
  calls-unload dirs ms {l} e =
      let v =
        calls-IsAccounted (construct env dirs) ms
          (load_from-IsAccounted env h (empty dirs).load_directories (empty dirs) (omega arith))
          e in
      let w = unload-IsAccounted env h l v in (v, omega (arith, w, unload-modules l))
    where
      empty : List String → Loader
      empty ds = record {
        load_directories = default_load_dir ∷ added_directories env ds;
        processors = [];
        modules = [];
        events = [];
      }

      unload-modules : (k : Loader) → loaded h (unload env k).modules ≡ 0
      unload-modules k = refl
